-- ===== src/Engine/Scanning.antt =====
-- The deques and the priority queue while `Engine::run` (Engine.cpp) looks for the next cycle with an event.
use native.Mathlib.Decide.{ℕ_discrete, dec_lt}
use native.Mathlib.Nat.{mod-eq_of_lt, add-suc, add_assoc}
use hmmsim_server.Prelude.{
  ℕ, suc, ◌+◌, ◌-◌, ◌%◌, ◌≤◌, ◌<◌, ◌≡◌, ◌≢◌, refl, sym, ◌∙◌, ◌⊎◌, inl, inr, List, [], ◌∷◌, ◌++◌,
  All, All-append, word, arith,
}
use hmmsim_server.Engine.{Event, Engine, due, after_due, refill}
use hmmsim_server.Engine.Order.{
  Sorted, IsAt, Now, IsFrom, IsValid, set_slot_self, set_slot_ne, Now-set, due-IsAt,
  after_due-Sorted, after_due-IsFrom,
}

-- An event waits, at `timestamp + i` or later.
abbrev pub Waiting : ℕ → Engine → Type 0
Waiting i e =
    (e.events ≢ []) ⊎ ((j : ℕ) × (i ≤ j) × (j < 4) × (e.slots ((e.timestamp + j) % 4) ≢ []))

-- The deques of the first `i` cycles are empty, and the priority queue holds nothing for them.
pub record Scanning (i : ℕ) (e : Engine) : Type 0 where
  pub gone : (j : ℕ) → j < i → e.slots ((e.timestamp + j) % 4) ≡ []
  pub now : Now e.timestamp e.slots
  pub beyond : All (IsFrom (e.timestamp + i)) e.events
  pub sorted : Sorted e.events
  pub small : e.timestamp < word
  pub waiting : Waiting i e

beyond_last : (t : ℕ) (l : List Event) → word ≤ t → All (IsFrom t) l → l ≡ []
beyond_last t [] w h = refl
beyond_last t (v ∷ vs) w h = absurd (omega arith)

-- An addition that wraps finds nothing.
due-IsAt_wrapped : (t : ℕ) (l : List Event) → All (IsFrom t) l → All (IsAt t) (due (t % word) l)
unfolding due
due-IsAt_wrapped t l h = elim (dec_lt t word) [
  | yes p ↦ rw (mod-eq_of_lt p) (due-IsAt t l h)
  | no p ↦ rw (beyond_last t l (omega arith) h) tt
]

after_due-IsFrom_wrapped :
    (t : ℕ) (l : List Event)
    → Sorted l
    → All (IsFrom t) l
    → All (IsFrom (suc t)) (after_due (t % word) l)
unfolding after_due
after_due-IsFrom_wrapped t l s h = elim (dec_lt t word) [
  | yes p ↦ rw (mod-eq_of_lt p) (after_due-IsFrom t l s h)
  | no p ↦ rw (beyond_last t l (omega arith) h) tt
]

append-eq-nil : (xs ys : List Event) → xs ++ ys ≡ [] → (xs ≡ []) × (ys ≡ [])
append-eq-nil [] ys h = (refl, h)
append-eq-nil (x ∷ xs) ys h = cc

after_due_of_due-nil : (t : ℕ) (l : List Event) → due t l ≡ [] → after_due t l ≡ l
unfolding due after_due
after_due_of_due-nil t [] h = refl
after_due_of_due-nil t (v ∷ vs) h = ground arith

pub slot_of : (t i : ℕ) → (t + i) % word % 4 ≡ (t + i) % 4
slot_of t i = omega arith

refill-now : (i : ℕ) {e : Engine} → i < 4 → Scanning i e → Now e.timestamp (refill i e).slots
unfolding refill
refill-now i {e} hi s = rw (slot_of e.timestamp i) (
    Now-set e.timestamp e.slots i _ hi
      (All-append (IsAt (e.timestamp + i)) _ _
        (due-IsAt_wrapped (e.timestamp + i) e.events s.beyond) (s.now i hi))
      s.now)

module _ (i : ℕ) {e : Engine} (hi : i < 4) (s : Scanning i e) where
  refill-gone : (j : ℕ) → j < i → (refill i e).slots ((e.timestamp + j) % 4) ≡ []
  unfolding refill
  refill-gone j hj =
      rw
        (
          slot_of e.timestamp i,
          set_slot_ne ((e.timestamp + i) % 4) ((e.timestamp + j) % 4) _ e.slots (omega arith),
        )
        (s.gone j hj)

  slot-refill :
      (refill i e).slots ((e.timestamp + i) % 4)
      ≡ due ((e.timestamp + i) % word) e.events ++ e.slots ((e.timestamp + i) % 4)
  unfolding refill
  slot-refill = rw (slot_of e.timestamp i) (set_slot_self ((e.timestamp + i) % 4) _ e.slots)

  refill-Waiting : (refill i e).slots ((e.timestamp + i) % 4) ≡ [] → Waiting (suc i) (refill i e)
  unfolding refill
  refill-Waiting empty = go s.waiting
    where
      none_here :
          (due ((e.timestamp + i) % word) e.events ≡ []) × (e.slots ((e.timestamp + i) % 4) ≡ [])
      none_here = append-eq-nil _ _ (sym slot-refill ∙ empty)

      go : Waiting i e → Waiting (suc i) (refill i e)
      go (inl h) = inl (rw (after_due_of_due-nil _ e.events none_here.0) h)
      go (inr (j, ij, j4, h)) = elim (ℕ_discrete j i) [
        | yes p ↦ absurd (h (rw p none_here.1))
        | no p ↦ inr (
          j,
          omega arith,
          j4,
          rw
              (
                slot_of e.timestamp i,
                set_slot_ne ((e.timestamp + i) % 4) ((e.timestamp + j) % 4) _ e.slots (omega arith),
              )
              h,
        )
      ]

  pub refill-Scanning :
      (refill i e).slots ((e.timestamp + i) % 4) ≡ [] → Scanning (suc i) (refill i e)
  unfolding refill
  refill-Scanning empty = record {
    gone =
        λ j hj. elim (ℕ_discrete j i) [ yes p ↦ rw p empty | no p ↦ refill-gone j (omega arith) ];
    now = refill-now i hi s;
    beyond = rw add-suc (after_due-IsFrom_wrapped (e.timestamp + i) e.events s.sorted s.beyond);
    sorted = after_due-Sorted _ _ s.sorted;
    small = s.small;
    waiting = refill-Waiting empty;
  }

  -- The deque that the search stops at makes its cycle the current one.
  pub refill-IsValid :
      {v : Event} {vs : List Event}
      → (refill i e).slots ((e.timestamp + i) % 4) ≡ v ∷ vs
      → IsValid (record (refill i e) { timestamp = e.timestamp + i }) × (e.timestamp + i < word)
  unfolding refill
  refill-IsValid {v} {vs} found = (
    record {
      now = λ j hj. elim (dec_lt (i + j) 4) [
        | yes p ↦ rw add_assoc (refill-now i hi s (i + j) p)
        | no p ↦
            let back : (e.timestamp + i + j) % 4 ≡ (e.timestamp + (i + j - 4)) % 4 = omega arith in
            rw (back, refill-gone (i + j - 4) (omega arith)) tt
      ];
      later = after_due-IsFrom_wrapped (e.timestamp + i) e.events s.sorted s.beyond;
      sorted = after_due-Sorted _ _ s.sorted;
      small = fits;
    },
    fits,
  )
    where
      there : All (IsAt (e.timestamp + i)) (v ∷ vs)
      there = rw found at (refill-now i hi s i hi)

      fits : e.timestamp + i < word
      fits = omega (arith, there.0)
