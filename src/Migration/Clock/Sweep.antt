-- ===== src/Migration/Clock/Sweep.antt =====
-- The loop that turns the hand of the clock (Migration.cpp).
use native.Mathlib.Nat.{le_refl, le_trans}
use hmmsim_server.Prelude.{
  ℕ, zero, suc, ◌+◌, ◌≤◌, ◌<◌, ◌≡◌, refl, ◌∙◌, inl, inr, Bool, true, false, Bool-cases, Option,
  Option-cases, none, some, List, [], ◌∷◌, if◌then◌else◌, arith,
}
use hmmsim_server.Prelude.Results.{ok}
use hmmsim_server.Migration.Store.{Entry, Nodes, find, update, begin, next}
use hmmsim_server.Migration.Clock.{go_round, sweep}

-- How many pages have their bit set.
abbrev pub refs : Nodes Bool → ℕ
refs [] = 0
refs ((i, e) ∷ q) = (if e.body then 1 else 0) + refs q

-- The nodes without their bits.
abbrev pub shape : Nodes Bool → List (ℕ × ℕ × ℕ)
shape [] = []
shape ((i, e) ∷ q) = (i, e.pid, e.addr) ∷ shape q

abbrev clear : Bool → Bool
clear _ = false

shape-update : (i : ℕ) (q : Nodes Bool) → shape (update i clear q) ≡ shape q
unfolding update
shape-update i [] = refl
shape-update i ((j, e) ∷ q) = ground (arith, shape-update i q)

refs-update-le : (i : ℕ) (q : Nodes Bool) → refs (update i clear q) ≤ refs q
unfolding update
refs-update-le i [] = omega arith
refs-update-le i ((j, e) ∷ q) = ground (arith, refs-update-le i q)

refs-update-lt :
    (i : ℕ) (e : Entry Bool) (q : Nodes Bool)
    → find i q ≡ some e
    → e.body ≡ true
    → refs (update i clear q) < refs q
unfolding find update
refs-update-lt i e [] h b = cc
refs-update-lt i e ((j, f) ∷ q) h b = ground (arith, refs-update-le i q, refs-update-lt i e q)

abbrev is_some : Option (Entry Bool) → Bool
is_some none = false
is_some (some e) = true

is_some-of : (o : Option (Entry Bool)) → is_some o ≡ true → (e : Entry Bool) × (o ≡ some e)
is_some-of none h = cc
is_some-of (some e) h = (e, refl)

find-update : (i j : ℕ) (q : Nodes Bool) → is_some (find j (update i clear q)) ≡ is_some (find j q)
unfolding find update
find-update i j [] = refl
find-update i j ((k, f) ∷ q) = ground (arith, find-update i j q)

begin-find : (j : ℕ) (q : Nodes Bool) → begin q ≡ some j → is_some (find j q) ≡ true
unfolding begin find
begin-find j [] h = cc
begin-find j ((k, f) ∷ q) h = ground arith

next-find : (i j : ℕ) (q : Nodes Bool) → next i q ≡ some j → is_some (find j q) ≡ true
unfolding next find
next-find i j [] h = cc
next-find i j ((k, f) ∷ q) h = ground (arith, begin-find j q, next-find i j q)

begin-some : (i : ℕ) (q : Nodes Bool) → is_some (find i q) ≡ true → (j : ℕ) × (begin q ≡ some j)
unfolding begin find
begin-some i [] h = cc
begin-some i ((k, f) ∷ q) h = (k, refl)

-- The hand stays in the list.
go_round-find :
    (i : ℕ) (q : Nodes Bool)
    → is_some (find i q) ≡ true
    → (j : ℕ) × (go_round i q ≡ some j) × (is_some (find j q) ≡ true)
unfolding go_round
go_round-find i q h = elim (Option-cases (next i q)) [
  | inl at_end ↦ let (j, b) = begin-some i q h in (j, rw (go_round, at_end, b), begin-find j q b)
  | inr (j, n) ↦ (j, rw (go_round, n), next-find i j q n)
]

-- From a hand at a page of the list, and with more rounds than bits that are set, the loop stops.
-- It stops at a page of the list with its bit clear, and it changes nothing but bits, of which no
-- more are set behind it than before.
pub sweep-total :
    (fuel : ℕ) (q : Nodes Bool) (i : ℕ) (e : Entry Bool)
    → find i q ≡ some e
    → refs q < fuel
    → (q' : Nodes Bool) × (j : ℕ) × (victim : Entry Bool) × (sweep fuel q (some i)
        ≡ ok (q', j, victim))
      × (find j q' ≡ some victim)
      × (victim.body ≡ false)
      × (shape q' ≡ shape q)
      × (refs q' ≤ refs q)
unfolding sweep
sweep-total zero q i e h m = absurd (omega arith)
sweep-total (suc fuel) q i e h m = elim (Bool-cases e.body) [
  | inr clear_bit ↦ (q, i, e, rw (h, clear_bit), h, clear_bit, refl, le_refl (refs q))
  | inl set_bit ↦
      let kept : is_some (find i (update i clear q)) ≡ true = rw (find-update i i q, h) refl in
      let (j, hand, stays) = go_round-find i (update i clear q) kept in
      let (g, held) = is_some-of (find j (update i clear q)) stays in
      let (q', k, victim, run, found, bit, same, less) =
        sweep-total fuel (update i clear q) j g held
          (omega (arith, refs-update-lt i e q h set_bit)) in
      (
        q',
        k,
        victim,
        rw (h, set_bit, hand) run,
        found,
        bit,
        same ∙ shape-update i q,
        le_trans less (refs-update-le i q),
      )
]
