-- ===== src/Tests/Memories.antt =====
-- `Memory` (Memory.cpp) with one queue for each bank of the DRAM that sim.cpp sets by default.
use hmmsim_server.Prelude.{◌≡◌, refl, true, false, List, [], ◌∷◌, arith, sub64}
use hmmsim_server.Prelude.Results.{ok}
use hmmsim_server.Mapping.{row_rank_bank_col, build, get_bank_id}
use hmmsim_server.Mapping.Address.{get_bank_id_lem}
use hmmsim_server.RequestQueue.{Request}
use hmmsim_server.Memory.{
  Memory, Action, bank_access, access, release, queue_index, insert_caller, unstalls,
}
use hmmsim_server.Memory.Counts.{count, in_queue}
use hmmsim_server.Memory.Queues.{IsValid, access-Handled, release-IsValid}

-- No request came yet.
abbrev new_memory : Memory
new_memory = record {
  global_queue = false;
  max_queue_size = 2;
  mapping = build row_rank_bank_col 3 3 14 6 6;
  offset = 65536;
  queue_sizes = λ q. 0;
  requests = [];
  stalled = false;
  stalled_callers = [];
}

new_memory-IsValid : IsValid [] new_memory
unfolding queue_index count in_queue
new_memory-IsValid = record {
  inside =
      λ r. (get_bank_id_lem row_rank_bank_col 3 3 14 6 6 r.addr (ground arith) (ground arith)).1;
  positive = ground arith;
  counted = λ q here. refl;
  bounded = λ q here. ground arith;
  roomy = λ free q here. ground arith;
  single = λ p q here there full full'. cc;
  full = λ stalls. cc;
  told = λ free. refl;
}

abbrev a_read : Request
a_read = record { id = 1; addr = 69632; size = 64; read = true; priority = 0 }

access-Handled_example :
    let here = record a_read { addr = sub64 a_read.addr new_memory.offset } in
    (m : Memory) × (acts : List Action) × (access a_read 5 new_memory ≡ ok (true, m, acts))
    × IsValid [] m
    × (false ≡ true
        → (m ≡ record new_memory { stalled_callers = insert_caller 5 [] }) × (acts ≡ []))
    × (false ≡ false
        → (m.requests ≡ record { request = here; caller = 5 } ∷ [])
          × (acts ≡ bank_access (get_bank_id new_memory.mapping here.addr) here ∷ []))
unfolding build
access-Handled_example =
    access-Handled [] new_memory new_memory-IsValid a_read 5 (ground arith) (ground arith)
      (ground arith)

-- One queue, which is full: a request waits for its bank, and another is handed back.
abbrev full_memory : Memory
full_memory = record new_memory {
  global_queue = true;
  queue_sizes = λ q. 2;
  requests = record { request = a_read; caller = 5 } ∷ [];
  stalled = true;
  stalled_callers = 6 ∷ 7 ∷ [];
}

full_memory-IsValid : IsValid (0 ∷ []) full_memory
unfolding queue_index count in_queue
full_memory-IsValid = record {
  inside = λ r. ground arith;
  positive = ground arith;
  counted = λ q here. ground arith;
  bounded = λ q here. ground arith;
  roomy = λ free q here. cc;
  single = λ p q here there full full'. ground arith;
  full = λ stalls. (0, ground arith, refl);
  told = λ free. cc;
}

release-IsValid_example :
    (m : Memory) × (acts : List Action) × (release 0 full_memory ≡ ok (m, acts))
    × IsValid [] m
    × (full_memory.queue_sizes 0 ≡ full_memory.max_queue_size
        → (acts ≡ unstalls (6 ∷ 7 ∷ [])) × (m.stalled ≡ false))
release-IsValid_example = release-IsValid [] full_memory 0 full_memory-IsValid (ground arith)
