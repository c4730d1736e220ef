-- ===== src/Engine/Advance.antt =====
-- The search of `Engine::run` (Engine.cpp) for the next cycle that has an event.
use mathlib.Core.Bool.{Bool, false, true, ◌&&◌}
use native.Mathlib.Decide.{ℕ_discrete}
use mathlib.Core.Path.{subst}
use native.Mathlib.Numerals.{add-one}
use native.Mathlib.Nat.{mod-eq_of_lt, add-zero}
use hmmsim_server.Prelude.{
  ℕ, zero, suc, ◌+◌, ◌-◌, ◌%◌, ◌≤◌, ◌<◌, ◌≡◌, ◌≢◌, refl, sym, ap, ◌∙◌, ◌⊎◌, inl, inr, List, [], ◌∷◌,
  ◌++◌, All, All-map₂, arith,
}
use hmmsim_server.Prelude.Results.{ok}
use hmmsim_server.Engine.{
  Event, Engine, set_slot, due, after_due, refill, jump, scan, advance, is_empty,
  current_events_empty,
}
use hmmsim_server.Engine.Pending.{
  tally, pending, is_before, tally-append, tally-due, pending-set, pending-refill, pending-before,
}
use hmmsim_server.Engine.Order.{
  Sorted, IsAt, IsFrom, IsValid, set_slot_self, set_slot_ne, due-IsAt, after_due-Sorted,
  after_due-IsFrom,
}
use hmmsim_server.Engine.Scanning.{Waiting, Scanning, slot_of, refill-Scanning, refill-IsValid}

-- What the search gives: a valid queue, not earlier, whose current deque holds an event. Of each kind of event as
-- many wait as before, so that its time is the first at which one waited.
pub record Advanced (e e' : Engine) : Type 0 where
  pub valid : IsValid e'
  pub onward : e.timestamp ≤ e'.timestamp
  pub first : Event
  pub rest : List Event
  pub held : e'.slots (e'.timestamp % 4) ≡ first ∷ rest
  pub at : first.time ≡ e'.timestamp
  pub kept : (test : Event → Bool) → pending test e' ≡ pending test e
  pub none_before : pending (is_before e'.timestamp) e ≡ 0

-- The last three follow from the others.
advanced :
    {e e' : Engine} (v : Event) (vs : List Event)
    → IsValid e'
    → e.timestamp ≤ e'.timestamp
    → e'.slots (e'.timestamp % 4) ≡ v ∷ vs
    → ((test : Event → Bool) → pending test e' ≡ pending test e)
    → Advanced e e'
advanced {e} {e'} v vs valid onward held kept = record {
  valid = valid;
  onward = onward;
  first = v;
  rest = vs;
  held = held;
  at = there.0.0 ∙ add-zero e'.timestamp;
  kept = kept;
  none_before = sym (kept (is_before e'.timestamp)) ∙ pending-before e' valid;
}
  where
    there : All (IsAt (e'.timestamp + 0)) (v ∷ vs)
    there =
        subst (All (IsAt (e'.timestamp + 0)))
          (ap (λ t. e'.slots (t % 4)) (add-zero e'.timestamp) ∙ held) (valid.now 0 (omega arith))

all_gone : {e : Engine} → Scanning 4 e → (m : ℕ) → m < 4 → e.slots m ≡ []
all_gone {e} s m hm =
    let j = (m + 4 - e.timestamp % 4) % 4 in
    let there : m ≡ (e.timestamp + j) % 4 = omega arith in ap e.slots there ∙ s.gone j (omega arith)

jump-found :
    {e : Engine} (v : Event) (vs : List Event)
    → e.events ≡ v ∷ vs
    → Scanning 4 e
    → (e' : Engine) × (jump e ≡ ok e') × Advanced e e'
unfolding jump
jump-found {e} v vs p s = (
  record e {
    timestamp = v.time;
    slots = set_slot k (e.slots k ++ v ∷ due v.time vs) e.slots;
    events = after_due v.time vs;
  },
  ground arith,
  advanced v (due v.time vs)
      (record {
        now = λ j hj. elim (ℕ_discrete j 0) [
          | yes q ↦
              rw (q, add-zero, set_slot_self k _ e.slots, all_gone s k (omega arith))
                ((refl, h.0.1), due-IsAt v.time vs later)
          | no q ↦
              rw
                (
                  set_slot_ne k ((v.time + j) % 4) _ e.slots (omega arith),
                  all_gone s ((v.time + j) % 4) (omega arith),
                )
                tt
        ];
        later = after_due-IsFrom v.time vs sorted.1 later;
        sorted = after_due-Sorted _ _ sorted.1;
        small = h.0.1;
      })
      (omega (arith, h.0)) (rw (set_slot_self k _ e.slots, all_gone s k (omega arith)) refl) jumped,
)
  where
    k : ℕ
    k = v.time % 4

    h : All (IsFrom (e.timestamp + 4)) (v ∷ vs)
    h = rw p at s.beyond

    sorted : Sorted (v ∷ vs)
    sorted = rw p at s.sorted

    later : All (IsFrom v.time) vs
    later =
        All-map₂ (λ w (q : v.time ≤ w.time) (r : IsFrom (e.timestamp + 4) w). (q, r.1)) vs sorted.0
          h.1

    jumped :
        (test : Event → Bool)
        → pending test (record e {
          timestamp = v.time;
          slots = set_slot k (e.slots k ++ v ∷ due v.time vs) e.slots;
          events = after_due v.time vs;
        })
          ≡ pending test e
    jumped test =
        pending-set test k (e.slots k ++ v ∷ due v.time vs) (after_due v.time vs) e (omega arith) (
          omega (
            arith,
            tally-append test (e.slots k) (v ∷ due v.time vs),
            tally-due test v.time vs,
            ap (tally test) p,
          ))

List-cases : (l : List Event) → (l ≡ []) ⊎ ((v : Event) × (vs : List Event) × (l ≡ v ∷ vs))
List-cases [] = inl refl
List-cases (v ∷ vs) = inr (v, vs, refl)

not_drained : (e : Engine) → Waiting 4 e → e.events ≢ []
not_drained e (inl h) = h
not_drained e (inr (j, ij, j4, h)) = absurd (omega arith)

jump-Advanced : {e : Engine} → Scanning 4 e → (e' : Engine) × (jump e ≡ ok e') × Advanced e e'
jump-Advanced {e} s = elim (List-cases e.events) [
  | inl drained ↦ absurd (not_drained e s.waiting drained)
  | inr (v, vs, p) ↦ jump-found v vs p s
]

Advanced-refill : (i : ℕ) {e e' : Engine} → Advanced (refill i e) e' → Advanced e e'
unfolding refill
Advanced-refill i {e} a =
    advanced a.first a.rest a.valid a.onward a.held (λ test. a.kept test ∙ pending-refill test i e)

scan-Advanced :
    (rounds i : ℕ) {e : Engine}
    → rounds + i ≡ 4
    → Scanning i e
    → (e' : Engine) × (scan rounds i e ≡ ok e') × Advanced e e'
unfolding scan
scan-Advanced zero i {e} four s = jump-Advanced (subst (λ k. Scanning k e) (omega arith) s)
scan-Advanced (suc rounds) i {e} four s =
    elim (List-cases ((refill i e).slots ((e.timestamp + i) % 4))) [
      | inl empty ↦
          let (e', run, a) =
            scan-Advanced rounds (suc i) (omega arith) (refill-Scanning i (omega arith) s empty) in
          (e', rw (slot_of e.timestamp i, empty, add-one) run, Advanced-refill i a)
      | inr (v, vs, found) ↦
          let (valid, fits) = refill-IsValid i (omega arith) s found in
          (
            record (refill i e) { timestamp = e.timestamp + i },
            rw (slot_of e.timestamp i, found, mod-eq_of_lt fits) refl,
            advanced v vs valid (omega arith) found (λ test. pending-refill test i e),
          )
    ]

-- Not every deque and the priority queue are empty.
abbrev pub HasEvent : Engine → Type 0
HasEvent e = (current_events_empty e && is_empty e.events) ≡ false

true-ne-false : true ≢ false
true-ne-false h = cc

some_deque :
    (e : Engine)
    → current_events_empty e ≡ false
    → (j : ℕ) × (0 ≤ j) × (j < 4) × (e.slots ((e.timestamp + j) % 4) ≢ [])
unfolding current_events_empty
some_deque e h = elim (held 0) [
  | inr (v, vs, p) ↦ (0, omega arith, omega arith, λ q. cc)
  | inl p0 ↦ elim (held 1) [
    | inr (v, vs, p) ↦ (1, omega arith, omega arith, λ q. cc)
    | inl p1 ↦ elim (held 2) [
      | inr (v, vs, p) ↦ (2, omega arith, omega arith, λ q. cc)
      | inl p2 ↦ elim (held 3) [
        | inr (v, vs, p) ↦ (3, omega arith, omega arith, λ q. cc)
        | inl p3 ↦ absurd (
            true-ne-false (
              rw
                (
                  slot_of e.timestamp 0,
                  slot_of e.timestamp 1,
                  slot_of e.timestamp 2,
                  slot_of e.timestamp 3,
                  p0,
                  p1,
                  p2,
                  p3,
                )
                at h))
      ]
    ]
  ]
]
  where
    held :
        (j : ℕ)
        → (e.slots ((e.timestamp + j) % 4) ≡ [])
          ⊎ ((v : Event) × (vs : List Event) × (e.slots ((e.timestamp + j) % 4) ≡ v ∷ vs))
    held j = List-cases (e.slots ((e.timestamp + j) % 4))

HasEvent-Waiting : (e : Engine) → HasEvent e → Waiting 0 e
HasEvent-Waiting e h = elim (List-cases e.events) [
  | inl empty ↦ inr (some_deque e (ground arith))
  | inr (v, vs, p) ↦ inl (λ q. cc)
]

IsValid-Scanning :
    {e : Engine} → IsValid e → HasEvent e → e.slots (e.timestamp % 4) ≡ [] → Scanning 1 e
IsValid-Scanning {e} v h empty = record {
  gone = λ j hj. rw (first j hj) empty;
  now = v.now;
  beyond = rw add-one v.later;
  sorted = v.sorted;
  small = v.small;
  waiting = go (HasEvent-Waiting e h);
}
  where
    first : (j : ℕ) → j < 1 → (e.timestamp + j) % 4 ≡ e.timestamp % 4
    first j hj = omega arith

    go : Waiting 0 e → Waiting 1 e
    go (inl p) = inl p
    go (inr (j, _, j4, p)) = elim (ℕ_discrete j 0) [
      | yes q ↦ absurd (p (rw (first j (omega arith)) empty))
      | no q ↦ inr (j, omega arith, j4, p)
    ]

-- In a valid queue with an event, the search reads no empty queue. It gives a valid queue at a timestamp not
-- earlier, which is the time of the event that is first in the deque there. Of the events that waited
-- none is lost and none comes twice, by any test, and none of them is of an earlier time.
pub advance-Advanced :
    {e : Engine} → IsValid e → HasEvent e → (e' : Engine) × (advance e ≡ ok e') × Advanced e e'
unfolding advance
advance-Advanced {e} v h = elim (List-cases (e.slots (e.timestamp % 4))) [
  | inl empty ↦ rw empty (scan-Advanced 3 1 (omega arith) (IsValid-Scanning v h empty))
  | inr (u, us, held) ↦ (e, rw held refl, advanced u us v (omega arith) held (λ test. refl))
]
