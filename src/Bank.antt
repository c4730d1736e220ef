-- ===== src/Bank.antt =====
-- `Bank` (Bank.cpp, include/Bank.H): a row buffer, a queue of requests and a pipeline of requests for the
-- row that is open. What a method asks of the engine, of the bus and of the memory is a list of
-- actions, in order; the delay that the bus grants is an argument. Statistics, and the cycle counts
-- that a request carries for them, are left out. `firstReadyAcrossPriorities` is always false.
pub mod Events
pub mod Protocol
pub mod Rows
pub mod Selection
pub mod Service
pub mod Handlers
pub mod Accesses
pub mod Pipeline
pub mod System
pub mod Reach
use hmmsim_server.Prelude.{
  ℕ, suc, ◌+◌, ◌%◌, ◌^◌, ◌*◌, Bool, true, false, ◌&&◌, ◌||◌, not, List, [], ◌∷◌, ◌++◌, Option, none,
  some, length, ltb, ◌==◌, if◌then◌else◌, add64, sub64, mul64,
}
use hmmsim_server.Prelude.Results.{
  Result, ok, fault, out_of_range, stopped, dangling, deref, asserted, assert, ◌>>=◌, ◌>>◌,
}
use hmmsim_server.Mapping.{MemoryMapping, get_row_index, get_column_index}
use hmmsim_server.RequestQueue.{
  Request, Requests, Queue, is_empty, push, rest_of, take_first, is_forwarded_in,
}

pub data RowBufferPolicy : Type 0 where
  open_page closed_page : RowBufferPolicy

pub data MemoryType : Type 0 where
  destructive_reads non_destructive_reads : MemoryType

pub data State : Type 0 where
  closed opening open_clean open_dirty closing : State

pub record Config : Type 0 where
  pub policy : RowBufferPolicy
  pub type : MemoryType
  pub mapping : MemoryMapping
  pub open_latency : ℕ
  pub close_latency : ℕ
  pub access_latency : ℕ
  pub long_close_latency : Bool

pub record Bank : Type 0 where
  pub config : Config
  pub state : State
  pub row : ℕ
  pub current : Option Request
  pub pipeline : Requests
  pub next_pipeline : ℕ
  pub queue : Queue
  pub dirty : List ℕ
  pub notifications : Requests

-- The time of a call, the latency of the bus, and the delay that it grants for one that is asked for.
pub record Moment : Type 0 where
  pub timestamp : ℕ
  pub bus_latency : ℕ
  pub granted : ℕ → ℕ

pub data Action : Type 0 where
  bank_event queue_event pipeline_event : ℕ → Action
  transfer : ℕ → Action
  completed : Request → Action

abbrev pub Outcome : Type 0
Outcome = Result (Bank × List Action)

unfoldable pub row_of : Config → Request → ℕ
row_of c r = get_row_index c.mapping r.addr

unfoldable pub column_of : Config → Request → ℕ
column_of c r = get_column_index c.mapping r.addr

unfoldable pub is_dirty : ℕ → List ℕ → Bool
is_dirty c [] = false
is_dirty c (d ∷ ds) = c == d || is_dirty c ds

-- `dirtyColumns.set(c)`: the columns that are set, each once. A `bitset<64>` throws beyond its end.
unfoldable pub set_dirty : ℕ → List ℕ → Result (List ℕ)
unfolding is_dirty
set_dirty c ds = if ltb c 64 then ok (if is_dirty c ds then ds else c ∷ ds) else fault out_of_range

abbrev pub is_open : State → Bool
is_open open_clean = true
is_open open_dirty = true
is_open closed = false
is_open opening = false
is_open closing = false

abbrev pub is_none : Option Request → Bool
is_none none = true
is_none (some r) = false

-- The front of a list becomes the current request.
abbrev pub take_front : Bank → ℕ → Requests → Queue → Result Bank
take_front b p [] q = fault dangling
take_front b p (r ∷ rs) q = ok (record b { current = some r; queue = rest_of p rs q })

-- The first request for the open row does, or else the front.
abbrev pub take_hit : Bank → ℕ → Requests → Queue → Option (Request × Requests) → Result Bank
take_hit b p rs q none = take_front b p rs q
take_hit b p rs q (some (r, rest)) = ok (record b { current = some r; queue = rest_of p rest q })

unfoldable pub select_from : State → Bank → ℕ → Requests → Queue → Result Bank
select_from closed b p rs q = take_front b p rs q
select_from closing b p rs q = take_front b p rs q
select_from opening b p rs q = fault stopped
select_from open_clean b p rs q =
    take_hit b p rs q (take_first (λ r. row_of b.config r == b.row) rs)
select_from open_dirty b p rs q =
    take_hit b p rs q (take_first (λ r. row_of b.config r == b.row) rs)

abbrev pub select_in : Bank → Queue → Result Bank
select_in b [] = ok b
select_in b ((p, rs) ∷ q) = select_from b.state b p rs q

unfoldable pub select_next_request : Bank → Result Bank
select_next_request b = do assert (is_none b.current); select_in b b.queue

-- The row of a request is opened.
unfoldable pub open_row : Request → Bank → Outcome
open_row r b = ok (
  record b { state = opening; row = row_of b.config r % 2 ^ 32 },
  bank_event b.config.open_latency ∷ [],
)

-- A request for the open row asks for the bus: a read when its columns are read, a write at once.
unfoldable pub start_access : Moment → Request → Bank → Outcome
start_access m r b =
    let latency = b.config.access_latency in
    let wait = add64 (sub64 (m.granted latency) latency) m.bus_latency in
    if r.read
    then ok (
      record b { next_pipeline = add64 m.timestamp wait },
      transfer latency ∷ pipeline_event wait ∷ [],
    )
    else do
      dirty ← set_dirty (column_of b.config r) b.dirty
      ok (record b { state = open_dirty; dirty = dirty }, transfer 0 ∷ [])

-- A clean row is closed, or kept.
abbrev pub close_clean : Bank → Outcome
close_clean b = ok (record b { state = closing }, bank_event b.config.close_latency ∷ [])

unfoldable pub close_dirty : Bank → Outcome
close_dirty b =
    let latency =
      if b.config.long_close_latency
      then mul64 b.config.close_latency (length b.dirty)
      else b.config.close_latency in
    ok (record b { state = closing; dirty = [] }, bank_event latency ∷ [])

-- The current request is for another row than the open one.
unfoldable pub miss : State → MemoryType → Request → Bank → Outcome
miss open_dirty type r b = close_dirty b
miss open_clean destructive_reads r b = close_clean b
miss open_clean non_destructive_reads r b = open_row r b
miss closed type r b = fault stopped
miss opening type r b = fault stopped
miss closing type r b = fault stopped

-- No request is left.
unfoldable pub idle : State → RowBufferPolicy → MemoryType → Bank → Outcome
idle state open_page type b = ok (b, [])
idle open_dirty closed_page type b = close_dirty b
idle open_clean closed_page destructive_reads b = close_clean b
idle open_clean closed_page non_destructive_reads b = ok (b, [])
idle closed closed_page type b = fault stopped
idle opening closed_page type b = fault stopped
idle closing closed_page type b = fault stopped

-- After `selectNextRequest`, in an open state.
unfoldable pub serve_selected : Moment → Option Request → Bank → Outcome
serve_selected m none b = idle b.state b.config.policy b.config.type b
serve_selected m (some r) b =
    if b.row == row_of b.config r then start_access m r b else miss b.state b.config.type r b

-- An open row, once the current request is done with: the next of the pipeline, or of the queue.
abbrev pub serve_next : Moment → Requests → Bank → Outcome
serve_next m [] b = do b' ← select_next_request b; serve_selected m b'.current b'
serve_next m (r ∷ rs) b = ok (record b { current = some r; pipeline = rs }, [])

abbrev pub finish : Option Request → Outcome → Outcome
finish none o = o
finish (some r) o = do (b, actions) ← o; ok (b, actions ++ completed r ∷ [])

unfoldable pub serve : Moment → Bank → Outcome
serve m b = finish b.current (serve_next m b.pipeline (record b { current = none }))

-- A row is closed: that of the current request is opened, or that of the next in the queue.
abbrev pub reopen : Option Request → Bank → Outcome
reopen (some r) b = open_row r b
reopen none b = ok (record b { state = closed }, [])

abbrev pub after_closing : Option Request → Bank → Outcome
after_closing (some r) b = open_row r b
after_closing none b = do b' ← select_next_request b; reopen b'.current b'

unfoldable pub change_state_in : State → Moment → Bank → Outcome
change_state_in closed m b = do b' ← select_next_request b; r ← deref b'.current; open_row r b'
change_state_in opening m b = do
  r ← deref b.current
  start_access m r (record b { state = open_clean })
change_state_in open_clean m b = serve m b
change_state_in open_dirty m b = serve m b
change_state_in closing m b = after_closing b.current b

unfoldable pub change_state : Moment → Bank → Outcome
change_state m b = change_state_in b.state m b
