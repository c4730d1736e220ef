-- ===== src/Bus.antt =====
-- `Bus` (Bus.cpp, include/Bus.H): transfers share a bus, each for `latency` cycles. `queue` maps the
-- start of each transfer to its caller.
pub mod Spacing
pub mod Schedule
use hmmsim_server.Prelude.{
  ℕ, Bool, true, false, ◌||◌, List, [], ◌∷◌, ltb, ◌==◌, if◌then◌else◌, add64, sub64, mul64,
}
use hmmsim_server.Prelude.Results.{Result, ok, deref, assert, ◌>>=◌, ◌>>◌}
use hmmsim_server.Engine.{Call, add}

-- The ordered map from starts to callers, smallest start first.
abbrev pub Queue : Type 0
Queue = List (ℕ × ℕ)

pub record Bus : Type 0 where
  pub latency : ℕ
  pub bus_handler : ℕ
  pub queue : Queue

-- `queue.lower_bound(k)`, an iterator as what follows it in the map.
unfoldable pub lower_bound : ℕ → Queue → Queue
lower_bound k [] = []
lower_bound k ((s, c) ∷ q) = if ltb s k then lower_bound k q else (s, c) ∷ q

-- `queue.emplace(k, c)`: the map, and whether the key is new.
unfoldable pub emplace : ℕ → ℕ → Queue → Queue × Bool
emplace k c [] = ((k, c) ∷ [], true)
emplace k c ((s, d) ∷ q) =
    let rest = emplace k c q in
    if ltb k s
    then ((k, c) ∷ (s, d) ∷ q, true)
    else if k == s
    then ((s, d) ∷ q, false)
    else ((s, d) ∷ rest.0, rest.1)

-- The `while` loop of `schedule`, from the iterator at `(s, c)` on: the start of the transfer that it
-- stops at.
unfoldable pub settle : ℕ → ℕ → ℕ → Queue → ℕ
settle latency start s [] = s
settle latency start s ((next, c) ∷ q) =
    let rest = settle latency start next q in
    if ltb start (add64 s latency) || ltb next (add64 s (mul64 2 latency)) then rest else s

-- `schedule` from the iterator that `lower_bound` returns on: the delay granted, the bus, and the
-- event that it adds to the engine.
unfoldable pub grant : ℕ → ℕ → ℕ → Bus → Queue → Result (ℕ × Bus × Call)
grant timestamp start caller b [] =
    let actual = sub64 start timestamp in
    ok (
      actual,
      record b { queue = (emplace start caller b.queue).0 },
      add (add64 actual b.latency) b.bus_handler 0,
    )
grant timestamp start caller b ((s, c) ∷ later) =
    let free = add64 (settle b.latency start s later) b.latency in
    let inserted = emplace free caller b.queue in
    let actual = sub64 free timestamp in
    do
      assert inserted.1
      ok (actual, record b { queue = inserted.0 }, add (add64 actual b.latency) b.bus_handler 0)

-- `schedule`
unfoldable pub schedule : ℕ → ℕ → ℕ → Bus → Result (ℕ × Bus × Call)
schedule timestamp delay caller b =
    let start = add64 delay timestamp in
    grant timestamp start caller b (lower_bound (sub64 start b.latency) b.queue)

-- `process`: the transfer that ends now leaves the bus; its caller is told.
unfoldable pub process : ℕ → Bus → Result (ℕ × Bus)
process timestamp b = elim b.queue [
  | [] ↦ assert false >> ok (0, b)
  | (s, c) ∷ q ↦ (do assert (s == sub64 timestamp b.latency); ok (c, record b { queue = q }))
]
