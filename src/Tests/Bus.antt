-- ===== src/Tests/Bus.antt =====
-- `Bus` (Bus.cpp) with two transfers, and with none.
use hmmsim_server.Prelude.{ℕ, ◌≡◌, refl, [], ◌∷◌, arith}
use hmmsim_server.Prelude.Results.{ok}
use hmmsim_server.Engine.{Call}
use hmmsim_server.Bus.{Bus, schedule}
use hmmsim_server.Bus.Schedule.{Scheduled, schedule-Scheduled, schedule-start-lost}

abbrev busy_bus : Bus
busy_bus = record { latency = 10; bus_handler = 3; queue = (100, 1) ∷ (115, 2) ∷ [] }

abbrev idle_bus : Bus
idle_bus = record { latency = 10; bus_handler = 3; queue = [] }

schedule-Scheduled_example : (actual : ℕ) × (b' : Bus) × Scheduled 90 5 7 busy_bus actual b'
schedule-Scheduled_example =
    schedule-Scheduled 90 5 7 busy_bus (ground arith) (ground arith) (ground arith)
      (ground arith, (ground arith, tt)) ((ground arith, tt), (tt, tt))

schedule-start-lost_example :
    (b' : Bus) × (call : Call) × (schedule 2 1 7 idle_bus ≡ ok (1, b', call))
    × (schedule 2 1 8 b' ≡ ok (1, b', call))
schedule-start-lost_example =
    schedule-start-lost 2 1 7 8 idle_bus refl (ground arith) (ground arith)
