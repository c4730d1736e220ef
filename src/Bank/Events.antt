-- ===== src/Bank/Events.antt =====
-- The calls that others make of a `Bank` (Bank.cpp): the events of the engine, the transfers that the
-- bus completes, and the accesses of the memory.
use hmmsim_server.Prelude.{
  ℕ, Bool, true, false, ◌&&◌, not, List, [], ◌∷◌, ◌++◌, Option, none, some, ltb, ◌==◌,
  if◌then◌else◌,
}
use hmmsim_server.Prelude.Results.{ok, asserted, assert, ◌>>=◌, ◌>>◌}
use hmmsim_server.RequestQueue.{
  Request, Requests, Queue, is_empty, push, rest_of, take_first, is_forwarded_in,
}
use hmmsim_server.Bank.{
  Bank, State, closed, opening, open_clean, open_dirty, closing, Moment, Action, bank_event,
  queue_event, pipeline_event, completed, Outcome, row_of, is_open, is_none, start_access,
  change_state,
}

pub data EventType : Type 0 where
  on_queue on_bank on_pipeline : EventType

-- A bank event in an open state: the end of a write, or a request for an idle bank.
abbrev pub wake_open : Moment → Option Request → Bank → Outcome
wake_open m none b = change_state m b
wake_open m (some r) b = do assert (not r.read); change_state m b

unfoldable pub process_bank : Moment → State → Bank → Outcome
process_bank m closed b = change_state m b
process_bank m closing b = change_state m b
process_bank m opening b = do assert (not (is_none b.current)); change_state m b
process_bank m open_clean b = wake_open m b.current b
process_bank m open_dirty b = wake_open m b.current b

abbrev pub completions : Requests → List Action
completions [] = []
completions (r ∷ rs) = completed r ∷ completions rs

-- The requests of the list are completed in order, and the list is empty after them.
unfoldable pub process_queue : Bank → Outcome
process_queue b = do
  assert (not (is_empty b.notifications))
  ok (record b { notifications = [] }, completions b.notifications)

-- The request that the next of the pipeline follows.
abbrev pub previous : Request → Requests → Request
previous r [] = r
previous r (p ∷ ps) = previous p ps

abbrev pub same_kind : Request → Request → Bool
same_kind r t = if r.read then t.read else not t.read

-- A request for the open row that reads if the one before it does.
abbrev pub follows : Bank → Request → Request → Bool
follows b prev r = row_of b.config r == b.row && same_kind prev r

-- What was found joins the pipeline and asks for the bus.
abbrev pub join : Moment → ℕ → Queue → Bank → Option (Request × Requests) → Outcome
join m p q b none = ok (b, [])
join m p q b (some (r, rest)) = do
  assert (b.row == row_of b.config r)
  start_access m r (record b { pipeline = b.pipeline ++ r ∷ []; queue = rest_of p rest q })

abbrev pub extend : Moment → Request → Bank → Queue → Outcome
extend m r b [] = ok (b, [])
extend m r b ((p, rs) ∷ q) = join m p q b (take_first (follows b (previous r b.pipeline)) rs)

unfoldable pub process_pipeline : Moment → Option Request → Bank → Outcome
process_pipeline m none b = ok (b, [])
process_pipeline m (some r) b =
    if is_open b.state && b.next_pipeline == m.timestamp then extend m r b b.queue else ok (b, [])

unfoldable pub process : Moment → EventType → Bank → Outcome
process m on_bank b = process_bank m b.state b
process m on_queue b = process_queue b
process m on_pipeline b = process_pipeline m b.current b

abbrev pub transferred : Moment → Request → Bank → Outcome
transferred m r b =
    if r.read
    then change_state m b
    else ok (
      record b { next_pipeline = m.timestamp },
      bank_event b.config.access_latency ∷ pipeline_event 0 ∷ [],
    )

unfoldable pub transfer_completed : Moment → Bank → Outcome
transfer_completed m b = do r ← asserted b.current; transferred m r b

unfoldable pub notify : Request → Bank → Outcome
notify r b = do
  assert r.read
  ok (
    record b { notifications = b.notifications ++ r ∷ [] },
    if is_empty b.notifications then queue_event 0 ∷ [] else [],
  )

abbrev pub is_idle : State → Bool
is_idle closed = true
is_idle open_clean = true
is_idle open_dirty = true
is_idle opening = false
is_idle closing = false

-- A request that comes to an idle bank wakes it.
abbrev pub wake : Bank → List Action
wake b =
    if is_idle b.state && (is_none b.current && is_empty b.queue) then bank_event 0 ∷ [] else []

-- A request for the open row may join the pipeline now.
abbrev pub may_join : Moment → Request → Bank → Bool
may_join m r b =
    is_open b.state
    && (not (is_none b.current) && (b.row == row_of b.config r && ltb b.next_pipeline m.timestamp))

unfoldable pub enqueue : Moment → Request → Bank → Outcome
enqueue m r b =
    if may_join m r b
    then ok (
      record b { next_pipeline = m.timestamp; queue = push r b.queue },
      wake b ++ pipeline_event 0 ∷ [],
    )
    else ok (record b { queue = push r b.queue }, wake b)

-- A read of what a request in the queue writes is served by that write. The method returns true.
unfoldable pub access : Moment → Request → Bank → Outcome
access m r b = if is_forwarded_in r b.queue then notify r b else enqueue m r b
