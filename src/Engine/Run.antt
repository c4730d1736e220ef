-- ===== src/Engine/Run.antt =====
-- What `Engine::run` (Engine.cpp) does with the events, for any client.
use mathlib.Core.Bool.{Bool, true, false}
use mathlib.Core.Path.{subst, ◌∙◌}
use native.Mathlib.Nat.{add-zero}
use hmmsim_server.Prelude.{
  ℕ, zero, suc, ◌+◌, ◌%◌, ap, ◌≤◌, ◌≡◌, refl, inl, inr, Bool-cases, List, [], ◌∷◌, All, word, arith,
  ◌||◌, ◌&&◌, ◌==◌,
}
use hmmsim_server.Prelude.Results.{ok}
use hmmsim_server.Engine.{
  Event, Engine, Call, set_slot, take_front, next_event, process, execute, perform_all, run,
  is_empty, current_events_empty, engine_handler,
}
use hmmsim_server.Engine.Order.{
  IsAt, Now, IsValid, Fits, Now-set, perform_all-IsValid, timestamp-perform_all,
}
use hmmsim_server.Engine.Advance.{Advanced, HasEvent, advance-Advanced}

-- The event that a round takes, and the queue that it leaves.
record Taken (e e' : Engine) (v : Event) : Type 0 where
  valid : IsValid e'
  onward : e.timestamp ≤ e'.timestamp
  in_time : v.time ≡ e'.timestamp

take_front-Taken :
    {e e' : Engine}
    → Advanced e e'
    → (e'' : Engine) × (v : Event) × (take_front e' ≡ ok (v, e'')) × Taken e e'' v
unfolding take_front
take_front-Taken {e} {e'} a = (
  record e' {
    slots = set_slot (e'.timestamp % 4) a.rest e'.slots;
    num_events = (e'.num_events + 1) % word;
  },
  a.first,
  rw (a.held, take_front),
  record {
    valid = record {
      now =
          subst (λ k. Now e'.timestamp (set_slot (k % 4) a.rest e'.slots)) (add-zero e'.timestamp)
            (Now-set e'.timestamp e'.slots 0 a.rest (omega arith) rest_now a.valid.now);
      later = a.valid.later;
      sorted = a.valid.sorted;
      small = a.valid.small;
    };
    onward = a.onward;
    in_time = omega (arith, here.0);
  },
)
  where
    here : All (IsAt (e'.timestamp + 0)) (a.first ∷ a.rest)
    here =
        subst (All (IsAt (e'.timestamp + 0))) (ap e'.slots (omega arith) ∙ a.held)
          (a.valid.now 0 (omega arith))

    rest_now : All (IsAt (e'.timestamp + 0)) a.rest
    rest_now = here.1

next_event-Taken :
    {e : Engine}
    → IsValid e
    → HasEvent e
    → (e' : Engine) × (v : Event) × (next_event e ≡ ok (v, e')) × Taken e e' v
unfolding next_event
next_event-Taken v h =
    let (e', advanced, a) = advance-Advanced v h in
    let (e'', ev, taken, t) = take_front-Taken a in (e'', ev, ground arith, t)

IsValid-same :
    {e e' : Engine}
    → e'.events ≡ e.events
    → e'.slots ≡ e.slots
    → e'.timestamp ≡ e.timestamp
    → IsValid e
    → IsValid e'
IsValid-same {e} {e'} p q r v = record {
  now = rw (q, r) v.now;
  later = rw (p, r) v.later;
  sorted = rw p v.sorted;
  small = rw r v.small;
}

process-IsValid : {e : Engine} → IsValid e → IsValid (process e).0
unfolding process
process-IsValid v = IsValid-same (ground arith) (ground arith) (ground arith) v

timestamp-process : (e : Engine) → (process e).0.timestamp ≡ e.timestamp
unfolding process
timestamp-process e = ground arith

right-false : (a b : Bool) → (a || b) ≡ false → b ≡ false
right-false false b h = h
right-false true b h = cc

-- The events in the order of their execution: each at its own time, no time before another.
abbrev pub InOrder : ℕ → List (ℕ × Event) → Type 0
InOrder t [] = Unit
InOrder t ((s, v) ∷ trace) = (t ≤ s) × (v.time ≡ s) × InOrder s trace

module _ {ℓ} {W : Type ℓ} (client : ℕ → Event → W → W × List Call) where
  execute-IsValid : (v : Event) {e : Engine} (w : W) → IsValid e → IsValid (execute client v e w).0
  unfolding execute
  execute-IsValid v {e} w h = elim (Bool-cases (v.handler == engine_handler)) [
    | inl own ↦ rw own (process-IsValid h)
    | inr other ↦ rw other h
  ]

  timestamp-execute :
      (v : Event) (e : Engine) (w : W) → (execute client v e w).0.timestamp ≡ e.timestamp
  unfolding execute
  timestamp-execute v e w = ground (arith, timestamp-process e)

  -- In these rounds no delay that a handler asks for wraps round.
  abbrev pub RunFits : ℕ → Engine → W → Type ℓ
  RunFits zero e w = Unit
  RunFits (suc n) e w =
      (v : Event) (e' : Engine)
      → next_event e ≡ ok (v, e')
      → let (e'', w', calls) = execute client v e' w in
        Fits e'.timestamp calls × RunFits n (perform_all calls e'') w'

  -- Every run from a valid event queue, cut off after any number of rounds, does without a fault: no
  -- assertion fails and no empty queue is read. It executes each event at the timestamp it was
  -- scheduled for, never an event before one with an earlier timestamp, and leaves a valid queue, if
  -- no delay that a handler asks for wraps the clock round.
  pub run-InOrder :
      (n : ℕ) (e : Engine) (w : W)
      → IsValid e
      → RunFits n e w
      → (trace : List (ℕ × Event)) × (last : Engine) × (w' : W) × (run client n e w
          ≡ ok (trace, last, w'))
        × InOrder e.timestamp trace
        × IsValid last
  unfolding run
  run-InOrder zero e w v f = ([], e, w, refl, tt, v)
  run-InOrder (suc n) e w v f =
      elim (Bool-cases (e.done || (current_events_empty e && is_empty e.events))) [
        | inl stop ↦ ([], e, w, rw stop, tt, v)
        | inr more ↦
            let (e', ev, next, t) = next_event-Taken v (right-false e.done _ more) in
            let (fits, rest) = f ev e' next in
            let r = execute client ev e' w in
            let same : r.0.timestamp ≡ e'.timestamp = timestamp-execute ev e' w in
            let (trace, last, w', ran, order, valid) =
              run-InOrder n (perform_all r.2 r.0) r.1
                (perform_all-IsValid r.2 (rw same fits) (execute-IsValid ev w t.valid)) rest in
            (
              (e'.timestamp, ev) ∷ trace,
              last,
              w',
              rw (more, next, ran),
              (t.onward, t.in_time, rw (timestamp-perform_all r.2 r.0, same) at order),
              valid,
            )
      ]
