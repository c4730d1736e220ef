-- ===== src/CacheSet/Lookup.antt =====
-- What a search of a cache set (`Set::access` and the like, Cache.cpp) finds and leaves: a set holds a tag
-- in one valid block at most.
use hmmsim_server.Prelude.{
  ℕ, zero, suc, ◌≡◌, refl, sym, ap, ◌∙◌, true, false, List, [], ◌∷◌, Option, none, some, get_elem?,
  set, All, if_true, if_false, Bool-cases, inl, inr, arith,
}
use mathlib.Core.Path.{subst}
use hmmsim_server.CacheSet.{Block, holds, after_first, change_first}

-- No valid block of a list holds a tag.
abbrev pub Absent : ℕ → List Block → Type 0
Absent tag = All (λ b. holds tag b ≡ false)

-- Each tag is in one valid block at most.
abbrev pub Distinct : List Block → Type 0
Distinct [] = Unit
Distinct (b ∷ bs) = (b.valid ≡ true → Absent b.tag bs) × Distinct bs

-- What a search comes to: no block holds the tag, or the first that does is changed, and only that.
abbrev pub Searched : (Block → Block) → ℕ → List Block → Option (ℕ × List Block) → Type 0
Searched change tag bs none = Absent tag bs
Searched change tag bs (some (i, bs')) =
    (b : Block) × (get_elem? bs i ≡ some b) × (holds tag b ≡ true) × (bs' ≡ set bs i (change b))

after_first-Searched :
    (change : Block → Block) (tag : ℕ) (b : Block) (bs : List Block) (o : Option (ℕ × List Block))
    → holds tag b ≡ false
    → Searched change tag bs o
    → Searched change tag (b ∷ bs) (after_first b o)
after_first-Searched change tag b bs none other h = (other, h)
after_first-Searched change tag b bs (some (i, bs')) other (c, at, held, same) =
    (c, at, held, ap (λ (t : List Block). b ∷ t) same)

pub change_first-Searched :
    (change : Block → Block) (tag : ℕ) (bs : List Block)
    → Searched change tag bs (change_first change tag bs)
unfolding change_first
change_first-Searched change tag [] = tt
change_first-Searched change tag (b ∷ bs) = elim (Bool-cases (holds tag b)) [
  | inl here ↦ subst (Searched change tag (b ∷ bs)) (sym (if_true _ _ here)) (b, refl, here, refl)
  | inr other ↦
      subst (Searched change tag (b ∷ bs)) (sym (if_false _ _ other))
        (after_first-Searched change tag b bs _ other (change_first-Searched change tag bs))
]

pub some_inj {ℓ} : {A : Type ℓ} {a a' : A} → some a ≡ some a' → a ≡ a'
some_inj h = cc

-- A block that is put in the place of another: what it holds is held by no other.
pub set-Absent :
    (tag : ℕ) (bs : List Block) (i : ℕ) (c : Block)
    → Absent tag bs
    → holds tag c ≡ false
    → Absent tag (set bs i c)
set-Absent tag [] i c h g = tt
set-Absent tag (b ∷ bs) zero c h g = (g, h.1)
set-Absent tag (b ∷ bs) (suc i) c h g = (h.0, set-Absent tag bs i c h.1 g)

pub get-Absent :
    (tag : ℕ) (bs : List Block) (i : ℕ) (b : Block)
    → Absent tag bs
    → get_elem? bs i ≡ some b
    → holds tag b ≡ false
get-Absent tag [] i b h at = cc
get-Absent tag (c ∷ bs) zero b h at = subst (λ c. holds tag c ≡ false) (some_inj at) h.0
get-Absent tag (c ∷ bs) (suc i) b h at = get-Absent tag bs i b h.1 at

-- A block whose tag no other holds may be put anywhere.
pub set-Distinct_new :
    (bs : List Block) (i : ℕ) (c : Block) → Distinct bs → Absent c.tag bs → Distinct (set bs i c)
set-Distinct_new [] i c h g = tt
set-Distinct_new (b ∷ bs) zero c h g = (λ v. g.1, h.1)
set-Distinct_new (b ∷ bs) (suc i) c h g =
    (λ v. set-Absent b.tag bs i c (h.0 v) (ground (arith, g.0)), set-Distinct_new bs i c h.1 g.1)

-- A block may be put in the place of one with its tag, if it is not valid where that was not.
pub set-Distinct_same :
    (bs : List Block) (i : ℕ) (b c : Block)
    → get_elem? bs i ≡ some b
    → c.tag ≡ b.tag
    → (c.valid ≡ true → b.valid ≡ true)
    → Distinct bs
    → Distinct (set bs i c)
set-Distinct_same [] i b c at same less h = tt
set-Distinct_same (a ∷ bs) zero b c at same less h =
    let e : a ≡ b = some_inj at in
    (
      λ v.
          subst (λ t. Absent t bs) (ap (λ a. a.tag) e ∙ sym same)
            (h.0 (ap (λ a. a.valid) e ∙ less v)),
      h.1,
    )
set-Distinct_same (a ∷ bs) (suc i) b c at same less h = (
  λ v. set-Absent a.tag bs i c (h.0 v) (ground (arith, get-Absent a.tag bs i b (h.0 v) at)),
  set-Distinct_same bs i b c at same less h.1,
)

pub get-set {ℓ} :
    {A : Type ℓ} (xs : List A) (i : ℕ) (x y : A)
    → get_elem? xs i ≡ some x
    → get_elem? (set xs i y) i ≡ some y
get-set [] i x y at = cc
get-set (z ∷ xs) zero x y at = refl
get-set (z ∷ xs) (suc i) x y at = get-set xs i x y at

-- What a search finds in a list that lacked the tag, once a block with the tag is put at `i`: that one.
found_at_set :
    (tag : ℕ) (bs : List Block) (i j : ℕ) (b c : Block)
    → Absent tag bs
    → get_elem? (set bs i c) j ≡ some b
    → holds tag b ≡ true
    → j ≡ i
found_at_set tag [] i j b c h at held = cc
found_at_set tag (a ∷ bs) zero zero b c h at held = refl
found_at_set tag (a ∷ bs) zero (suc j) b c h at held = cc (get-Absent tag bs j b h.1 at)
found_at_set tag (a ∷ bs) (suc i) zero b c h at held = cc (ap (holds tag) (some_inj at), h.0)
found_at_set tag (a ∷ bs) (suc i) (suc j) b c h at held =
    ap suc (found_at_set tag bs i j b c h.1 at held)

-- The search of such a list finds the new block.
pub search_set :
    (change : Block → Block) (tag : ℕ) (bs : List Block) (i : ℕ) (b c : Block)
    → Absent tag bs
    → get_elem? bs i ≡ some b
    → holds tag c ≡ true
    → (bs' : List Block) × (change_first change tag (set bs i c) ≡ some (i, bs'))
search_set change tag bs i b c absent at held =
    found_or (change_first change tag (set bs i c)) (change_first-Searched change tag (set bs i c))
  where
    found_or :
        (o : Option (ℕ × List Block))
        → Searched change tag (set bs i c) o
        → (bs' : List Block) × (o ≡ some (i, bs'))
    found_or none missing = cc (get-Absent tag (set bs i c) i c missing (get-set bs i b c at))
    found_or (some (j, bs')) (d, there, held', same) =
        (bs', ap (λ (k : ℕ). some (k, bs')) (found_at_set tag bs i j d c absent there held'))
