-- ===== src/HybridManager/Events.antt =====
-- What the caches, the processors, the memory and the engine call (MemoryManager.cpp): the ends of flushes,
-- drains and remaps, and the events of the manager.
use hmmsim_server.Prelude.{
  ℕ, zero, suc, ◌+◌, ◌-◌, ◌%◌, ◌^◌, Bool, true, false, ◌&&◌, not, List, [], ◌∷◌, ◌++◌, Option, none,
  some, ◌==◌, if◌then◌else◌,
}
use hmmsim_server.Prelude.Results.{ok, asserted, assert, ◌>>=◌, ◌>>◌}
use hmmsim_server.HybridManager.{
  Owner, Phase, flush_before, copying, flush_after, Migration, Pending, Manager, Action, copy_page,
  write_back, demote_event, get_index, get_offset, get_address, find_migration, set_pending,
  is_empty,
}
use hmmsim_server.HybridManager.Flushing.{
  Outcome, then_also, is_flushing, run_flushes, flush_page, start_demotion,
}
use hmmsim_server.HybridManager.Finishing.{is_after, finish_flushing}

-- An `unsigned` count, less one.
abbrev pub one_less : ℕ → ℕ
one_less n = (n + 2 ^ 32 - 1) % 2 ^ 32

unfoldable pub drain_completed : ℕ → Manager → Outcome
drain_completed f m = do
  g ← asserted (find_migration f m.migrations)
  let left = one_less (m.pending f).drains
  let m' = record m { pending = set_pending f (record (m.pending f) { drains = left }) m.pending }
  if left == 0 then flush_page f m' else ok (m', [])

abbrev pub kept_flush : ℕ × Bool → Option (Bool × List (ℕ × Bool)) → Option (Bool × List (ℕ × Bool))
kept_flush e none = none
kept_flush e (some (started, q)) = some (started, e ∷ q)

-- The first flush of an address: whether it was started, and the others.
unfoldable pub take_flush : ℕ → List (ℕ × Bool) → Option (Bool × List (ℕ × Bool))
take_flush addr [] = none
take_flush addr ((a, started) ∷ q) =
    let rest = take_flush addr q in
    if a == addr then some (started, q) else kept_flush (a, started) rest

-- Where a dirty block goes.
abbrev pub write_back_frame : Phase → Migration → ℕ
write_back_frame flush_before g = g.source
write_back_frame copying g = g.source
write_back_frame flush_after g = g.dest_frame

abbrev pub wait_to_write : ℕ → ℕ → Manager → Manager
wait_to_write addr f m = record m {
  stalled_requests = m.stalled_requests ++ (addr, f) ∷ [];
  pending =
      set_pending f (record (m.pending f) { stalled = ((m.pending f).stalled + 1) % 2 ^ 32 })
        m.pending;
}

-- A dirty block is written, unless others wait to be written or the memory does not take it.
abbrev pub write : Bool → ℕ → ℕ → Manager → Manager × List Action
write accepted addr f m =
    if is_empty m.stalled_requests
    then (if accepted then m else wait_to_write addr f m, write_back addr ∷ [])
    else (wait_to_write addr f m, [])

abbrev pub write_if : Bool → Bool → ℕ → Migration → Manager → Manager × List Action
write_if dirty accepted addr g m =
    if dirty && not m.config.suppress_writebacks
    then write accepted
        (get_address m.config (write_back_frame g.phase g) (get_offset m.config addr))
        (get_index m.config addr) m
    else (m, [])

abbrev pub nothing_left : Pending → Bool
nothing_left p = p.flushes == 0 && p.stalled == 0

abbrev pub finish_if_done : ℕ → Manager → Outcome
finish_if_done f m = if nothing_left (m.pending f) then finish_flushing f m else ok (m, [])

abbrev pub one_flush_less : ℕ → Manager → Manager
one_flush_less f m = record m {
  pending =
      set_pending f (record (m.pending f) { flushes = one_less (m.pending f).flushes }) m.pending;
}

-- `accepted` is what the memory answers, if it is asked to write the block.
unfoldable pub flush_completed : (dirty accepted : Bool) → ℕ → Manager → Outcome
flush_completed dirty accepted addr m = do
  let f = get_index m.config addr
  g ← asserted (find_migration f m.migrations)
  assert (is_flushing g.phase)
  (started, q) ← asserted (take_flush addr m.flush_queue)
  assert started
  let (m1, acts) =
      write_if dirty accepted addr g
        (record m { flush_queue = q; flush_queue_size = one_less m.flush_queue_size })
  (m2, more) ← finish_if_done f (one_flush_less f m1)
  let (m3, flushes) = run_flushes m2
  ok (m3, acts ++ more ++ flushes)

unfoldable pub remap_completed : ℕ → Manager → Outcome
remap_completed f m = do
  g ← asserted (find_migration f m.migrations)
  assert (is_after g.phase)
  finish_flushing f m

-- The `COPY_PAGE` event: the first migration that is to be copied. The source leaves the order of its map open;
-- here the migration that was started last comes first.
abbrev pub copies_after :
    Migration → Option (Migration × List Migration) → Option (Migration × List Migration)
copies_after g none = none
copies_after g (some (h, gs)) = some (h, g ∷ gs)

unfoldable pub first_to_copy : List Migration → Option (Migration × List Migration)
first_to_copy [] = none
first_to_copy (g ∷ gs) =
    let rest = first_to_copy gs in
    if g.needs_copying
    then some (g, record g { needs_copying = false } ∷ gs)
    else copies_after g rest

unfoldable pub process_copy : Manager → Outcome
process_copy m = do
  (g, gs) ← asserted (first_to_copy m.migrations)
  ok (record m { migrations = gs }, copy_page g.source g.dest_frame ∷ [])

-- The `UNSTALL` event, where the memory takes the first `n` of the requests that wait.
abbrev pub one_request_less : ℕ → List (ℕ × ℕ) → Manager → Manager
one_request_less f rest m = record m {
  stalled_requests = rest;
  pending =
      set_pending f (record (m.pending f) { stalled = one_less (m.pending f).stalled }) m.pending;
}

abbrev pub unstall_one : List (ℕ × ℕ) → Manager → Outcome
unstall_one [] m = ok (m, [])
unstall_one ((addr, f) ∷ rest) m = do
  g ← asserted (find_migration f m.migrations)
  then_also (write_back addr ∷ []) (finish_if_done f (one_request_less f rest m))

-- The memory is asked once more, and does not take the request.
abbrev pub refused : List (ℕ × ℕ) → List Action
refused [] = []
refused ((addr, f) ∷ rest) = write_back addr ∷ []

unfoldable pub process_unstall : ℕ → Manager → Outcome
process_unstall zero m = ok (m, refused m.stalled_requests)
process_unstall (suc n) m = do
  (m', acts) ← unstall_one m.stalled_requests m
  then_also acts (process_unstall n m')

-- No policy named a page. `running` says that some processor is not done.
abbrev pub try_later : Bool → Manager → Outcome
try_later running m = ok (m, if running then demote_event m.config.demote_timeout ∷ [] else [])

-- The loop of `selectPolicyAndDemote`: the policies are asked in turn, until one names a page or it is the turn of
-- the one before the first again, which takes as many rounds as there are policies. `chosen` is what each
-- answers, if it is asked.
unfoldable pub ask_policies :
    (rounds policies previous : ℕ) → Bool → (ℕ → Option Owner) → Manager → Outcome
ask_policies zero policies previous running chosen m = try_later running m
ask_policies (suc rounds) policies previous running chosen m = do
  let current = (m.current_policy + 1) % policies
  (started, m', acts) ← start_demotion (chosen current) (record m { current_policy = current })
  let rest = ask_policies rounds policies previous running chosen m'
  if started
      then ok (record m' { demoting = true }, acts)
      else if current == previous
      then try_later running m'
      else rest

unfoldable pub select_policy_and_demote :
    (policies : ℕ) → Bool → (ℕ → Option Owner) → Manager → Outcome
select_policy_and_demote policies running chosen m = do
  assert (not m.demoting)
  ask_policies policies policies m.current_policy running chosen m
