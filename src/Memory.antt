-- ===== src/Memory.antt =====
-- `Memory` (Memory.cpp, include/Memory.H): the requests that are in the banks, the size of each queue, and
-- the callers that wait for room. What it asks of the banks and of its callers is a list of actions.
-- `accessCompleted` calls back a caller between two halves, `retire` and `release`, as that caller may
-- come with further requests. Statistics are left out.
pub mod Counts
pub mod Queues
use hmmsim_server.Prelude.{
  ℕ, ◌+◌, ◌-◌, Bool, true, false, ◌&&◌, not, List, [], ◌∷◌, ◌++◌, Option, none, some, ltb, leb,
  ◌==◌, if◌then◌else◌, add64, sub64,
}
use hmmsim_server.Prelude.Results.{Result, ok, fault, dangling, asserted, assert, ◌>>=◌, ◌>>◌}
use hmmsim_server.Mapping.{MemoryMapping, get_bank_id}
use hmmsim_server.RequestQueue.{Request}

-- A request that a bank has, and its caller.
pub record Waiting : Type 0 where
  pub request : Request
  pub caller : ℕ

pub record Memory : Type 0 where
  pub global_queue : Bool
  pub max_queue_size : ℕ
  pub mapping : MemoryMapping
  pub offset : ℕ
  pub queue_sizes : ℕ → ℕ
  pub requests : List Waiting
  pub stalled : Bool
  pub stalled_callers : List ℕ

pub data Action : Type 0 where
  bank_access : ℕ → Request → Action
  caller_completed : ℕ → Request → Action
  deleted : Request → Action
  unstall : ℕ → Action

abbrev pub num_queues : Memory → ℕ
num_queues m = if m.global_queue then 1 else m.mapping.num_banks

unfoldable pub queue_index : Memory → Request → ℕ
queue_index m r = if m.global_queue then 0 else get_bank_id m.mapping r.addr

-- A read of the array of sizes.
unfoldable pub size_of : Memory → ℕ → Result ℕ
size_of m q = if ltb q (num_queues m) then ok (m.queue_sizes q) else fault dangling

abbrev pub set_size : ℕ → ℕ → (ℕ → ℕ) → ℕ → ℕ
set_size q n sizes i = if i == q then n else sizes i

-- `set::insert`, by the pointer.
unfoldable pub insert_caller : ℕ → List ℕ → List ℕ
insert_caller c [] = c ∷ []
insert_caller c (d ∷ ds) =
    if c == d then d ∷ ds else if ltb c d then c ∷ d ∷ ds else d ∷ insert_caller c ds

-- The request is sent to its bank and counted; the memory stalls when that fills the queue.
unfoldable pub accept : Request → ℕ → Memory → Result (Bool × Memory × List Action)
accept r caller m = do
  n ← size_of m (queue_index m r)
  assert (ltb n m.max_queue_size)
  ok (
    true,
    record m {
      requests = m.requests ++ record { request = r; caller = caller } ∷ [];
      queue_sizes = set_size (queue_index m r) (n + 1) m.queue_sizes;
      stalled = n + 1 == m.max_queue_size;
    },
    bank_access (get_bank_id m.mapping r.addr) r ∷ [],
  )

unfoldable pub access : Request → ℕ → Memory → Result (Bool × Memory × List Action)
access r caller m = do
  assert (m.mapping.block_size == r.size)
  assert (leb m.offset r.addr && ltb r.addr (add64 m.mapping.total_size m.offset))
  if m.stalled
      then ok (false, record m { stalled_callers = insert_caller caller m.stalled_callers }, [])
      else accept (record r { addr = sub64 r.addr m.offset }) caller m

abbrev pub found_after : Waiting → Option (Waiting × List Waiting) → Option (Waiting × List Waiting)
found_after w none = none
found_after w (some (v, rest)) = some (v, w ∷ rest)

-- `requests.find(request)`, and the others.
unfoldable pub take_request : Request → List Waiting → Option (Waiting × List Waiting)
take_request r [] = none
take_request r (w ∷ ws) =
    if w.request.id == r.id then some (w, ws) else found_after w (take_request r ws)

-- The caller of a read gets the request back, with its own address; a write is deleted.
abbrev pub hand_back : Request → ℕ → ℕ → List Action
hand_back r caller offset =
    if r.read
    then caller_completed caller (record r { addr = add64 r.addr offset }) ∷ []
    else deleted r ∷ []

-- `accessCompleted`, up to the caller.
unfoldable pub retire : Request → Memory → Result (Memory × List Action)
retire r m = do
  (w, rest) ← asserted (take_request r m.requests)
  ok (record m { requests = rest }, hand_back r w.caller m.offset)

unfoldable pub unstalls : List ℕ → List Action
unstalls [] = []
unstalls (c ∷ cs) = unstall c ∷ unstalls cs

-- A queue that was full has room again: all callers that wait are told.
abbrev pub wake_callers : Bool → Memory → Result (Memory × List Action)
wake_callers true m = do
  assert m.stalled
  ok (record m { stalled = false; stalled_callers = [] }, unstalls m.stalled_callers)
wake_callers false m = ok (m, [])

-- The place of the request is free again.
abbrev pub give_back : ℕ → ℕ → Memory × List Action → Result (Memory × List Action)
give_back q n (m, acts) = do
  assert (ltb 0 n)
  ok (record m { queue_sizes = set_size q (n - 1) m.queue_sizes }, acts)

-- `accessCompleted`, from the caller's return on, for the queue that the request was in. The callers that it wakes
-- before the size goes down only ask the engine for an event.
unfoldable pub release : ℕ → Memory → Result (Memory × List Action)
release q m = do
  n ← size_of m q
  woken ← wake_callers (n == m.max_queue_size) m
  give_back q n woken
