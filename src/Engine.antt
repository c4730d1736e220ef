-- ===== src/Engine.antt =====
-- `Engine` (Engine.cpp, include/Engine.H): the event queue of the simulator. Events that are due in
-- fewer than four cycles wait in one of four deques, the others in a priority queue. What an
-- event's handler does to the rest of the simulator is a parameter, `client`: it returns the calls
-- of `addEvent` and `quit` that it makes, in order.
pub mod Advance
pub mod Scanning
pub mod Order
pub mod Pending
pub mod Run
use hmmsim_server.Prelude.{
  ℕ, zero, suc, ◌+◌, ◌%◌, Bool, true, false, ◌&&◌, ◌||◌, not, List, [], ◌∷◌, ◌++◌, ltb, leb, ◌==◌,
  if◌then◌else◌, add64, sub64,
}
use hmmsim_server.Prelude.Results.{Result, fault, ok, dangling, assert, ◌>>=◌, ◌>>◌}

-- `Event`; a handler is known by a number, and 0 is the engine itself.
pub record Event : Type 0 where
  pub time : ℕ
  pub handler : ℕ
  pub payload : ℕ

abbrev pub engine_handler : ℕ
engine_handler = 0

-- `currentEvents[k]` is `slots k` for `k < 4`; `events` is the priority queue, its top first.
-- A statistics file is open exactly if `stats_next` is not 0. Wall-clock times are left out.
pub record Engine : Type 0 where
  pub events : List Event
  pub slots : ℕ → List Event
  pub timestamp : ℕ
  pub done : Bool
  pub num_events : ℕ
  pub last_num_events : ℕ
  pub last_timestamp : ℕ
  pub current_interval : ℕ
  pub stats_period : ℕ
  pub progress_period : ℕ
  pub stats_next : ℕ
  pub progress_next : ℕ

-- What a handler can ask of the engine.
pub data Call : Type 0 where
  add : ℕ → ℕ → ℕ → Call
  quit : Call

-- `currentSize`
abbrev pub current_size : ℕ
current_size = 4

abbrev pub set_slot : ℕ → List Event → (ℕ → List Event) → ℕ → List Event
set_slot k l slots j = if j == k then l else slots j

abbrev pub is_empty {ℓ} : {A : Type ℓ} → List A → Bool
is_empty [] = true
is_empty (x ∷ xs) = false

-- `events.emplace`: the priority queue as a list by time. The source leaves the order of equal times
-- open; here it is that of insertion.
unfoldable pub insert : Event → List Event → List Event
insert v [] = v ∷ []
insert v (u ∷ us) = if ltb v.time u.time then v ∷ u ∷ us else u ∷ insert v us

-- `addEvent`
unfoldable pub add_event : ℕ → ℕ → ℕ → Engine → Engine
add_event delay handler payload e =
    let v : Event = record {
      time = add64 e.timestamp delay;
      handler = handler;
      payload = payload;
    } in
    let k = add64 e.timestamp delay % current_size in
    if ltb delay current_size
    then record e { slots = set_slot k (e.slots k ++ (v ∷ [])) e.slots }
    else record e { events = insert v e.events }

-- `currentEventsEmpty`
unfoldable pub current_events_empty : Engine → Bool
current_events_empty e =
    is_empty (e.slots (add64 e.timestamp 0 % current_size))
    && is_empty (e.slots (add64 e.timestamp 1 % current_size))
    && is_empty (e.slots (add64 e.timestamp 2 % current_size))
    && is_empty (e.slots (add64 e.timestamp 3 % current_size))

-- The loops that take every event of one time off the priority queue.
unfoldable pub due : ℕ → List Event → List Event
due t [] = []
due t (v ∷ vs) = if v.time == t then v ∷ due t vs else []

unfoldable pub after_due : ℕ → List Event → List Event
after_due t [] = []
after_due t (v ∷ vs) = if v.time == t then after_due t vs else v ∷ vs

-- The body of the `for` loop of `run`: moves the events of `timestamp + i` into their deque, in
-- front of those that are there.
unfoldable pub refill : ℕ → Engine → Engine
refill i e =
    let t = add64 e.timestamp i in
    let k = t % current_size in
    record e {
      slots = set_slot k (due t e.events ++ e.slots k) e.slots;
      events = after_due t e.events;
    }

-- `if (!found)`: goes to the time of the first event of the priority queue.
unfoldable pub jump : Engine → Result Engine
jump e = elim e.events [
  | [] ↦ fault dangling
  | v ∷ vs ↦
      let k = v.time % current_size in
      ok (record e {
        timestamp = v.time;
        slots = set_slot k (e.slots k ++ v ∷ due v.time vs) e.slots;
        events = after_due v.time vs;
      })
]

-- The `for` loop of `run` from `i` on, with the rounds that are left.
unfoldable pub scan : ℕ → ℕ → Engine → Result Engine
scan zero i e = jump e
scan (suc rounds) i e =
    let e' = refill i e in
    let rest = scan rounds (i + 1) e' in
    if is_empty (e'.slots (add64 e.timestamp i % current_size))
    then rest
    else ok (record e' { timestamp = add64 e.timestamp i })

-- The first `if` of the loop of `run`: afterwards the deque of `timestamp` holds an event.
unfoldable pub advance : Engine → Result Engine
advance e = if is_empty (e.slots (e.timestamp % current_size)) then scan 3 1 e else ok e

-- The calls of `addEvent` at the end of `process` and in the constructor.
unfoldable pub reschedule : Engine → List Call
reschedule e =
    let stats = add (sub64 e.stats_next e.timestamp) engine_handler 0 ∷ [] in
    let progress = add (sub64 e.progress_next e.timestamp) engine_handler 0 ∷ [] in
    if e.stats_next == 0
    then if e.progress_next == 0 then [] else progress
    else if e.progress_next == 0
    then stats
    else if ltb e.stats_next e.progress_next
    then stats
    else progress

-- `process`: the periodic event of the engine itself.
unfoldable pub process_stats : Engine → Engine
process_stats e =
    if e.timestamp == e.stats_next
    then record e {
      stats_next = add64 e.stats_next e.stats_period;
      current_interval = add64 e.current_interval 1;
    }
    else e

unfoldable pub process_progress : Engine → Engine
process_progress e =
    if e.timestamp == e.progress_next
    then record e {
      progress_next = add64 e.progress_next e.progress_period;
      last_timestamp = e.timestamp;
      last_num_events = e.num_events;
    }
    else e

unfoldable pub process : Engine → Engine × List Call
unfolding process_stats process_progress
process e =
    let e' = process_progress (process_stats e) in
    if not (current_events_empty e') || not (is_empty e'.events)
    then (e', reschedule e')
    else (e', [])

-- A call of a handler takes effect.
unfoldable pub perform : Call → Engine → Engine
perform (add delay handler payload) e = add_event delay handler payload e
perform quit e = record e { done = true }

unfoldable pub perform_all : List Call → Engine → Engine
perform_all [] e = e
perform_all (c ∷ cs) e = perform_all cs (perform c e)

-- The constructor, after its initialisers; `statsPeriod` is 0 where no file is named.
unfoldable pub init : ℕ → ℕ → Engine
init stats_period progress_period = perform_all (reschedule fresh) fresh
  where
    fresh : Engine
    fresh = record {
      events = [];
      slots = λ _. [];
      timestamp = 0;
      done = false;
      num_events = 0;
      last_num_events = 0;
      last_timestamp = 0;
      current_interval = 0;
      stats_period = stats_period;
      progress_period = progress_period;
      stats_next = stats_period;
      progress_next = progress_period;
    }

-- Takes the next event off its deque.
unfoldable pub take_front : Engine → Result (Event × Engine)
take_front e = elim (e.slots (e.timestamp % current_size)) [
  | [] ↦ fault dangling
  | v ∷ vs ↦ ok (
    v,
    record e {
      slots = set_slot (e.timestamp % current_size) vs e.slots;
      num_events = add64 e.num_events 1;
    },
  )
]

-- One round of the loop up to `event.execute()`: the event, and the engine that it finds.
unfoldable pub next_event : Engine → Result (Event × Engine)
next_event e = do
  e' ← advance e
  (v, e'') ← take_front e'
  assert (e''.timestamp == v.time)
  ok (v, e'')

module _ {ℓ} {W : Type ℓ} (client : ℕ → Event → W → W × List Call) where
  -- `event.execute()`: the calls that it makes of the engine.
  unfoldable pub execute : Event → Engine → W → Engine × W × List Call
  execute v e w =
      if v.handler == engine_handler
      then (let (e', calls) = process e in (e', w, calls))
      else (let (w', calls) = client e.timestamp v w in (e, w', calls))

  -- At most `n` rounds of the loop of `run`, with the events in the order of their execution. (The
  -- loop itself may go on for ever: a periodic event is added again.)
  unfoldable pub run : ℕ → Engine → W → Result (List (ℕ × Event) × Engine × W)
  run zero e w = ok ([], e, w)
  run (suc n) e w =
      let rounds = (do
        (v, e') ← next_event e
        let (e'', w', calls) = execute v e' w
        (trace, last, w'') ← run n (perform_all calls e'') w'
        ok ((e'.timestamp, v) ∷ trace, last, w'')) in
      if e.done || (current_events_empty e && is_empty e.events) then ok ([], e, w) else rounds
