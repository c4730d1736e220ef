-- ===== src/Tests/Banks.antt =====
-- `Bank` (Bank.cpp) with the rows and columns of the DRAM that sim.cpp sets by default: one read comes to a new
-- bank and wakes it.
use hmmsim_server.Prelude.{◌+◌, ◌<◌, refl, true, false, [], ◌∷◌, arith}
use hmmsim_server.Mapping.{row_rank_bank_col, build}
use hmmsim_server.Mapping.Address.{index-lt}
use hmmsim_server.RequestQueue.{Request, push, is_forwarded_in}
use hmmsim_server.Bank.{Config, open_page, destructive_reads, Bank, Moment, bank_event, column_of}
use hmmsim_server.Bank.Events.{access, enqueue}
use hmmsim_server.Bank.Protocol.{ColumnsFit, bank_events, done}
use hmmsim_server.Bank.System.{System, after, Input, accessed, bank_fires, taken, call, Leads}
use hmmsim_server.Bank.Reach.{new, Reach, start, next, reach-Leads, reach-busy}

abbrev dram : Config
dram = record {
  policy = open_page;
  type = destructive_reads;
  mapping = build row_rank_bank_col 3 3 14 6 6;
  open_latency = 55;
  close_latency = 50;
  access_latency = 20;
  long_close_latency = false;
}

columns_fit : ColumnsFit dram
unfolding column_of build
columns_fit r = index-lt 6 6 r.addr (ground arith)

abbrev at_100 : Moment
at_100 = record { timestamp = 100; bus_latency = 10; granted = λ latency. latency }

abbrev a_read : Request
a_read = record { id = 1; addr = 4096; size = 64; read = true; priority = 0 }

-- The bank once the read came.
abbrev woken : Bank
unfolding new
woken = record (new dram).bank { queue = (0, a_read ∷ []) ∷ [] }

abbrev woken_system : System
woken_system = after (taken (new dram) (accessed a_read)) woken (bank_event 0 ∷ [])

woken-Reach : Reach dram woken_system
unfolding new access enqueue push is_forwarded_in
woken-Reach = next start at_100 (accessed a_read) woken (bank_event 0 ∷ []) refl refl

abbrev fires : Input woken_system
unfolding new bank_events
fires = bank_fires 0 refl

reach-Leads_example : Leads (taken woken_system fires) (call at_100 woken_system fires)
reach-Leads_example = reach-Leads dram at_100 fires columns_fit woken-Reach

reach-busy_example : 0 < woken_system.events + woken_system.moves + woken_system.queued
unfolding new done
reach-busy_example = reach-busy dram 1 columns_fit woken-Reach (ground arith)
