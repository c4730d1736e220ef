-- ===== src/CacheSet/Victim.antt =====
-- The block that `Set::allocate` takes (Cache.cpp): one that is not valid, or else the least recently
-- used of those that are not pinned.
use hmmsim_server.Prelude.{
  ℕ, suc, ◌+◌, ◌≤◌, ◌<◌, ◌≡◌, refl, sym, true, false, not, ◌&&◌, List, [], ◌∷◌, Option, none, some,
  get_elem?, ltb, All, if_true, if_false, Bool-cases, inl, inr, ◌⊎◌, arith,
}
use mathlib.Core.Path.{subst}
use mathlib.Core.Option.{map}
use hmmsim_server.CacheSet.{Block, first_invalid, is_pinned, least_recent}

-- A block that may be taken was last used no earlier than `time`.
abbrev pub NotBefore : List ℕ → ℕ → Block → Type 0
NotBefore pinned time b = is_pinned b.tag pinned ≡ false → time ≤ b.timestamp

-- The block of an index may be taken, and no other that may was used earlier.
abbrev pub IsVictim : List ℕ → List Block → ℕ → Block → Type 0
IsVictim pinned bs k b =
    (get_elem? bs k ≡ some b)
    × (is_pinned b.tag pinned ≡ false)
    × All (NotBefore pinned b.timestamp) bs

abbrev pub Least : List ℕ → ℕ → ℕ → Option ℕ → List Block → Option ℕ → Type 0
Least pinned i earliest victim bs none = (victim ≡ none) × All (NotBefore pinned earliest) bs
Least pinned i earliest victim bs (some v) =
    ((victim ≡ some v) × All (NotBefore pinned earliest) bs)
    ⊎ ((k : ℕ) × (b : Block) × (v ≡ i + k) × (b.timestamp < earliest) × IsVictim pinned bs k b)

index_of : (i v : ℕ) → some i ≡ some v → v ≡ i + 0
index_of i v h = let same : i ≡ v = cc in omega arith

le_refl : {n : ℕ} → n ≤ n
le_refl = omega arith

module _ (pinned : List ℕ) (i earliest : ℕ) (victim : Option ℕ) (b : Block) (bs : List Block) where
  better :
      (o : Option ℕ)
      → b.timestamp < earliest
      → is_pinned b.tag pinned ≡ false
      → Least pinned (i + 1) b.timestamp (some i) bs o
      → Least pinned i earliest victim (b ∷ bs) o
  better none earlier free (h, rest) = cc
  better (some v) earlier free (inl (h, rest)) =
      inr (0, b, index_of i v h, earlier, (refl, free, ((λ f. le_refl), rest)))
  better (some v) earlier free (inr (k, c, place, less, (at, free', rest))) =
      inr (suc k, c, omega arith, omega arith, (at, free', ((λ f. omega arith), rest)))

  worse :
      (o : Option ℕ)
      → NotBefore pinned earliest b
      → Least pinned (i + 1) earliest victim bs o
      → Least pinned i earliest victim (b ∷ bs) o
  worse none here (h, rest) = (h, (here, rest))
  worse (some v) here (inl (h, rest)) = inl (h, (here, rest))
  worse (some v) here (inr (k, c, place, less, (at, free, rest))) =
      inr (suc k, c, omega arith, less, (at, free, ((λ f. omega (arith, here f)), rest)))

pub least_recent-Least :
    (pinned : List ℕ) (i earliest : ℕ) (victim : Option ℕ) (bs : List Block)
    → Least pinned i earliest victim bs (least_recent pinned i earliest victim bs)
unfolding least_recent
least_recent-Least pinned i earliest none [] = (refl, tt)
least_recent-Least pinned i earliest (some v) [] = inl (refl, tt)
least_recent-Least pinned i earliest victim (b ∷ bs) =
    elim (Bool-cases (ltb b.timestamp earliest && not (is_pinned b.tag pinned))) [
      | inl yes' ↦ rw yes' (
          better pinned i earliest victim b bs _ (ground arith) (ground arith)
            (least_recent-Least pinned (i + 1) b.timestamp (some i) bs))
      | inr no' ↦ rw no' (
          worse pinned i earliest victim b bs _ (λ f. ground arith)
            (least_recent-Least pinned (i + 1) earliest victim bs))
    ]

-- The first block that is not valid, or the lack of one.
abbrev pub Vacant : List Block → Option ℕ → Type 0
Vacant bs none = All (λ b. b.valid ≡ true) bs
Vacant bs (some i) = (b : Block) × (get_elem? bs i ≡ some b) × (b.valid ≡ false)

next-Vacant :
    (b : Block) (bs : List Block) (o : Option ℕ)
    → b.valid ≡ true
    → Vacant bs o
    → Vacant (b ∷ bs) (map suc o)
next-Vacant b bs none v h = (v, h)
next-Vacant b bs (some i) v h = h

pub first_invalid-Vacant : (bs : List Block) → Vacant bs (first_invalid bs)
unfolding first_invalid
first_invalid-Vacant [] = tt
first_invalid-Vacant (b ∷ bs) = elim (Bool-cases b.valid) [
  | inl valid ↦
      subst (Vacant (b ∷ bs)) (sym (if_true _ _ valid))
        (next-Vacant b bs _ valid (first_invalid-Vacant bs))
  | inr free ↦ subst (Vacant (b ∷ bs)) (sym (if_false _ _ free)) (b, refl, free)
]
