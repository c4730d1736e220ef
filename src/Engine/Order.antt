-- ===== src/Engine/Order.antt =====
-- The invariant of the event queue (Engine.cpp): each deque holds the events of one of the next four
-- cycles, the priority queue holds later events in order.
use mathlib.Core.Bool.{true}
use native.Mathlib.Decide.{ℕ_discrete, dec_lt}
use hmmsim_server.Prelude.{
  ℕ, suc, ◌+◌, ◌%◌, ◌≤◌, ◌<◌, ◌≡◌, ◌≢◌, refl, ◌∙◌, List, [], ◌∷◌, All, All-append, All-map,
  All-map₂, word, add64, lt→ltb, not-lt→ltb, arith,
}
use hmmsim_server.Engine.{
  Event, Engine, Call, add, quit, set_slot, insert, due, after_due, add_event, perform, perform,
  perform_all,
}

abbrev pub Sorted : List Event → Type 0
Sorted [] = Unit
Sorted (v ∷ vs) = All (λ u. v.time ≤ u.time) vs × Sorted vs

abbrev pub IsAt : ℕ → Event → Type 0
IsAt t v = (v.time ≡ t) × (v.time < word)

-- The deque of `t + j` holds events of that time only.
abbrev pub Now : ℕ → (ℕ → List Event) → Type 0
Now t slots = (j : ℕ) → j < 4 → All (IsAt (t + j)) (slots ((t + j) % 4))

abbrev pub IsFrom : ℕ → Event → Type 0
IsFrom t v = (t ≤ v.time) × (v.time < word)

pub record IsValid (e : Engine) : Type 0 where
  pub now : Now e.timestamp e.slots
  pub later : All (IsFrom (suc e.timestamp)) e.events
  pub sorted : Sorted e.events
  pub small : e.timestamp < word

pub set_slot_self : (k : ℕ) (l : List Event) (slots : ℕ → List Event) → set_slot k l slots k ≡ l
set_slot_self k l slots = ground arith

pub set_slot_ne :
    (k j : ℕ) (l : List Event) (slots : ℕ → List Event) → j ≢ k → set_slot k l slots j ≡ slots j
set_slot_ne k j l slots n = ground arith

pub Now-set :
    (t : ℕ) (slots : ℕ → List Event) (i : ℕ) (l : List Event)
    → i < 4
    → All (IsAt (t + i)) l
    → Now t slots
    → Now t (set_slot ((t + i) % 4) l slots)
Now-set t slots i l hi hl h j hj = elim (ℕ_discrete j i) [
  | yes e ↦ rw (e, set_slot_self ((t + i) % 4) l slots) hl
  | no n ↦ rw (set_slot_ne ((t + i) % 4) ((t + j) % 4) l slots (omega arith)) (h j hj)
]

module _ (P : Event → Type 0) where
  pub insert-All : (v : Event) (l : List Event) → P v → All P l → All P (insert v l)
  unfolding insert
  insert-All v [] p h = (p, tt)
  insert-All v (u ∷ us) p h = ground (arith, insert-All v us p h.1)

  pub after_due-All : (t : ℕ) (l : List Event) → All P l → All P (after_due t l)
  unfolding after_due
  after_due-All t [] h = tt
  after_due-All t (v ∷ vs) h = ground (arith, after_due-All t vs h.1)

insert-Sorted : (v : Event) (l : List Event) → Sorted l → Sorted (insert v l)
unfolding insert
insert-Sorted v [] h = (tt, tt)
insert-Sorted v (u ∷ us) h = elim (dec_lt v.time u.time) [
  | yes p ↦
      let all : All (λ w. v.time ≤ w.time) us = All-map (λ w q. omega arith) us h.0 in ground arith
  | no p ↦
      let all : All (λ w. u.time ≤ w.time) (insert v us) =
        insert-All (λ w. u.time ≤ w.time) v us (omega arith) h.0 in
      let rest = insert-Sorted v us h.1 in ground arith
]

pub due-IsAt : (t : ℕ) (l : List Event) → All (IsFrom t) l → All (IsAt t) (due t l)
unfolding due
due-IsAt t [] h = tt
due-IsAt t (v ∷ vs) h = ground (arith, due-IsAt t vs h.1)

pub after_due-Sorted : (t : ℕ) (l : List Event) → Sorted l → Sorted (after_due t l)
unfolding after_due
after_due-Sorted t [] h = tt
after_due-Sorted t (v ∷ vs) h = ground (arith, after_due-Sorted t vs h.1)

pub after_due-IsFrom :
    (t : ℕ) (l : List Event) → Sorted l → All (IsFrom t) l → All (IsFrom (suc t)) (after_due t l)
unfolding after_due
after_due-IsFrom t [] s h = tt
after_due-IsFrom t (v ∷ vs) s h = elim (ℕ_discrete v.time t) [
  | yes e ↦ ground (arith, after_due-IsFrom t vs s.1 h.1)
  | no n ↦
      let rest : All (IsFrom (suc t)) vs =
        All-map₂ (λ w (p : v.time ≤ w.time) (q : IsFrom t w). (omega arith, q.1)) vs s.0 h.1 in
      ground arith
]

-- `addEvent` keeps the invariant where the addition of the delay does not wrap.
pub add_event-IsValid :
    (delay handler payload : ℕ) {e : Engine}
    → e.timestamp + delay < word
    → IsValid e
    → IsValid (add_event delay handler payload e)
unfolding add_event
add_event-IsValid delay handler payload {e} fits v = elim (dec_lt delay 4) [
  | yes p ↦ rw (lt→ltb delay 4 p) (record {
    now = rw same (
        Now-set e.timestamp e.slots delay _ p
          (All-append (IsAt (e.timestamp + delay)) _ _ (v.now delay p) ((omega arith, fits), tt))
          v.now);
    later = v.later;
    sorted = v.sorted;
    small = v.small;
  })
  | no p ↦ rw (not-lt→ltb delay 4 p) (record {
    now = v.now;
    later = insert-All (IsFrom (suc e.timestamp)) _ _ (omega arith) v.later;
    sorted = insert-Sorted _ _ v.sorted;
    small = v.small;
  })
]
  where
    same : add64 e.timestamp delay ≡ e.timestamp + delay
    same = omega arith

pub timestamp-add_event :
    (delay handler payload : ℕ) (e : Engine)
    → (add_event delay handler payload e).timestamp ≡ e.timestamp
unfolding add_event
timestamp-add_event delay handler payload e = ground arith

-- No call among these adds a delay that wraps, made one after the other at one time.
abbrev pub Fits : ℕ → List Call → Type 0
Fits t [] = Unit
Fits t (add delay handler payload ∷ cs) = (t + delay < word) × Fits t cs
Fits t (quit ∷ cs) = Fits t cs

-- The calls that a handler makes, in their order, leave a valid queue valid, if no delay among them wraps
-- the clock round.
pub perform_all-IsValid :
    (cs : List Call) {e : Engine} → Fits e.timestamp cs → IsValid e → IsValid (perform_all cs e)
unfolding perform_all perform
perform_all-IsValid [] f v = v
perform_all-IsValid (add delay handler payload ∷ cs) {e} f v =
    perform_all-IsValid cs (rw (timestamp-add_event delay handler payload e) f.1)
      (add_event-IsValid delay handler payload f.0 v)
perform_all-IsValid (quit ∷ cs) f v =
    perform_all-IsValid cs f
      (record { now = v.now; later = v.later; sorted = v.sorted; small = v.small })

pub timestamp-perform_all :
    (cs : List Call) (e : Engine) → (perform_all cs e).timestamp ≡ e.timestamp
unfolding perform_all perform
timestamp-perform_all [] e = refl
timestamp-perform_all (add delay handler payload ∷ cs) e =
    timestamp-perform_all cs (add_event delay handler payload e)
    ∙ timestamp-add_event delay handler payload e
timestamp-perform_all (quit ∷ cs) e = timestamp-perform_all cs (record e { done = true })
