-- ===== src/Bank/Accesses.antt =====
-- The accesses of a `Bank` (Bank.cpp), and the notifications of the reads that it forwards.
use native.Mathlib.Nat.{add-zero}
use hmmsim_server.Prelude.{
  ℕ, suc, ◌+◌, ◌≡◌, refl, ◌∙◌, Bool, true, false, not, ◌&&◌, [], ◌∷◌, ◌++◌, List, Option, none,
  some, if◌then◌else◌, if_true, if_false, inl, inr, Bool-cases, arith,
}
use hmmsim_server.Prelude.Results.{ok, assert_pass}
use hmmsim_server.RequestQueue.{
  Request, Requests, Queue, is_empty, push, is_forwarded, is_forwarded_in,
}
use hmmsim_server.RequestQueue.Counts.{
  one, count, count-append, count_in-push, push-NoneEmpty, is_empty-push,
}
use hmmsim_server.Bank.{
  Bank, State, closed, opening, open_clean, open_dirty, closing, Moment, Action, bank_event,
  queue_event, pipeline_event, is_none,
}
use hmmsim_server.Bank.Events.{
  process_queue, completions, notify, enqueue, access, is_idle, may_join,
}
use hmmsim_server.Bank.Protocol.{
  IsValid, Safe, Safe-eq, Phase, held, bank_events, transfers, queue_events, done,
}

done-completions : (x : ℕ) (rs : Requests) → done x (completions rs) ≡ count x rs
unfolding done count
done-completions x [] = refl
done-completions x (r ∷ rs) = omega (arith, done-completions x rs)

events-completions :
    (rs : Requests)
    → (bank_events (completions rs) ≡ 0)
      × (transfers (completions rs) ≡ 0)
      × (queue_events (completions rs) ≡ 0)
unfolding bank_events transfers queue_events
events-completions [] = (refl, refl, refl)
events-completions (r ∷ rs) = events-completions rs

forwarded-read : (r : Request) (rs : Requests) → is_forwarded r rs ≡ true → r.read ≡ true
unfolding is_forwarded
forwarded-read r [] h = cc
forwarded-read r (t ∷ rs) h = ground (arith, forwarded-read r rs)

forwarded_in-read : (r : Request) (q : Queue) → is_forwarded_in r q ≡ true → r.read ≡ true
unfolding is_forwarded_in
forwarded_in-read r [] h = cc
forwarded_in-read r ((p, rs) ∷ q) h = ground (arith, forwarded-read r rs, forwarded_in-read r q)

-- The first notification asks for a queue event.
abbrev first_note : Requests → List Action
first_note n = if is_empty n then queue_event 0 ∷ [] else []

first_note_lem :
    (n : Requests) (r : Request)
    → (bank_events (first_note n) ≡ 0)
      × (transfers (first_note n) ≡ 0)
      × ((if is_empty n then 0 else 1) + queue_events (first_note n)
          ≡ (if is_empty (n ++ r ∷ []) then 0 else 1))
      × ((x : ℕ) → done x (first_note n) ≡ 0)
unfolding bank_events transfers queue_events done
first_note_lem [] r = (refl, refl, refl, λ x. refl)
first_note_lem (t ∷ n) r = (refl, refl, refl, λ x. refl)

-- What comes of a request that wakes the bank, or does not, and asks for a pipeline event, or does not.
abbrev woken : Bool → List Action → List Action
woken idle later = (if idle then bank_event 0 ∷ [] else []) ++ later

record Woken (idle : Bool) (acts : List Action) : Type 0 where
  events : bank_events acts ≡ (if idle then 1 else 0)
  moves : transfers acts ≡ 0
  queued : queue_events acts ≡ 0
  completes : (x : ℕ) → done x acts ≡ 0

wake-Woken : (idle : Bool) → Woken idle (if idle then bank_event 0 ∷ [] else [])
unfolding bank_events transfers queue_events done
wake-Woken true = record { events = refl; moves = refl; queued = refl; completes = λ x. refl }
wake-Woken false = record { events = refl; moves = refl; queued = refl; completes = λ x. refl }

wake_join-Woken : (idle : Bool) → Woken idle (woken idle (pipeline_event 0 ∷ []))
unfolding bank_events transfers queue_events done
wake_join-Woken true = record { events = refl; moves = refl; queued = refl; completes = λ x. refl }
wake_join-Woken false = record { events = refl; moves = refl; queued = refl; completes = λ x. refl }

-- A request more in the queue: an idle bank with no other has to be woken.
Phase-push :
    (state : State) (current : Option Request) (ps : Requests) (empty : Bool) (events moves : ℕ)
    → Phase state current ps empty events moves
    → Phase state current ps false
        (events + (if is_idle state && (is_none current && empty) then 1 else 0))
        (moves + 0)
Phase-push closed none [] empty events moves (rest, still) = (ground arith, omega arith)
Phase-push closed none (p ∷ ps) empty events moves h = absurd h
Phase-push closed (some r) ps empty events moves h = absurd h
Phase-push opening none ps empty events moves h = absurd h
Phase-push opening (some r) [] empty events moves (one_event, still) = (omega arith, omega arith)
Phase-push opening (some r) (p ∷ ps) empty events moves h = absurd h
Phase-push closing current [] empty events moves (one_event, still) = (omega arith, omega arith)
Phase-push closing current (p ∷ ps) empty events moves h = absurd h
Phase-push open_clean none [] empty events moves (rest, still) = (ground arith, omega arith)
Phase-push open_clean none (p ∷ ps) empty events moves h = absurd h
Phase-push open_clean (some r) ps empty events moves (kind, sum, reads) =
    (kind, omega arith, λ h. omega (arith, reads h))
Phase-push open_dirty none [] empty events moves (rest, still) = (ground arith, omega arith)
Phase-push open_dirty none (p ∷ ps) empty events moves h = absurd h
Phase-push open_dirty (some r) ps empty events moves (kind, sum, reads) =
    (kind, omega arith, λ h. omega (arith, reads h))

module _ (m : Moment) (b : Bank) where
  pub process_queue-Safe :
      {events moves queued : ℕ}
      → IsValid b events moves (suc queued)
      → Safe (process_queue b) events moves queued (λ x. held x b)
  unfolding process_queue held count
  process_queue-Safe {events} {moves} {queued} v =
      let (e, t, q) = events-completions b.notifications in
      let waiting : not (is_empty b.notifications) ≡ true = ground (arith, v.noted) in
      Safe-eq events moves queued (λ x. held x b) (assert_pass _ waiting)
        (
          record {
            phase = rw (e, t, add-zero, add-zero) v.phase;
            noted = ground (arith, v.noted, q);
            lists = v.lists;
            fits = v.fits;
          },
          λ x. omega (arith, done-completions x b.notifications),
        )

  notify-Safe :
      (r : Request) {events moves queued : ℕ}
      → IsValid b events moves queued
      → r.read ≡ true
      → Safe (notify r b) events moves queued (λ x. held x b + one x r)
  unfolding notify held count
  notify-Safe r {events} {moves} {queued} v reads =
      let (e, t, q, completes) = first_note_lem b.notifications r in
      Safe-eq events moves queued (λ x. held x b + one x r) (assert_pass _ reads)
        (
          record {
            phase = rw (e, t, add-zero, add-zero) v.phase;
            noted = rw v.noted q;
            lists = v.lists;
            fits = v.fits;
          },
          λ x. omega (arith, completes x, count-append x b.notifications (r ∷ [])),
        )

  pushed-Safe :
      (r : Request) (next : ℕ) (acts : List Action) {events moves queued : ℕ}
      → IsValid b events moves queued
      → Woken (is_idle b.state && (is_none b.current && is_empty b.queue)) acts
      → Safe
          (ok (record b { next_pipeline = next; queue = push r b.queue }, acts))
          events
          moves
          queued
          (λ x. held x b + one x r)
  unfolding held
  pushed-Safe r next acts v w = (
    record {
      phase =
          rw (w.events, w.moves, is_empty-push r b.queue)
            (Phase-push b.state b.current b.pipeline (is_empty b.queue) _ _ v.phase);
      noted = omega (arith, v.noted, w.queued);
      lists = push-NoneEmpty r b.queue v.lists;
      fits = v.fits;
    },
    λ x. omega (arith, w.completes x, count_in-push x r b.queue),
  )

  -- An access to a valid bank fails no assertion. The bank holds the request then, once more than before,
  -- and it is woken if it rested.
  pub access-Safe :
      (r : Request) {events moves queued : ℕ}
      → IsValid b events moves queued
      → Safe (access m r b) events moves queued (λ x. held x b + one x r)
  unfolding access enqueue
  access-Safe r {events} {moves} {queued} v =
      let idle = is_idle b.state && (is_none b.current && is_empty b.queue) in
      elim (Bool-cases (is_forwarded_in r b.queue)) [
        | inl forwarded ↦
            Safe-eq events moves queued (λ x. held x b + one x r) (if_true _ _ forwarded)
              (notify-Safe r v (forwarded_in-read r b.queue forwarded))
        | inr queued' ↦ elim (Bool-cases (may_join m r b)) [
          | inl joins ↦
              Safe-eq events moves queued (λ x. held x b + one x r)
                (if_false _ _ queued' ∙ if_true _ _ joins)
                (pushed-Safe r m.timestamp _ v (wake_join-Woken idle))
          | inr waits ↦
              Safe-eq events moves queued (λ x. held x b + one x r)
                (if_false _ _ queued' ∙ if_false _ _ waits)
                (pushed-Safe r b.next_pipeline _ v (wake-Woken idle))
        ]
      ]
