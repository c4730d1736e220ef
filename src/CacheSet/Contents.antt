-- ===== src/CacheSet/Contents.antt =====
-- The tags that a cache set holds (`Set`, Cache.cpp), and how an access and an allocation change them.
use hmmsim_server.Prelude.{
  ℕ, zero, suc, ◌<◌, ◌≡◌, refl, sym, ap, ◌∙◌, Bool, true, false, ◌&&◌, ◌||◌, not, List, [], ◌∷◌,
  Option, none, some, get_elem?, set, All, arith,
}
use mathlib.Core.Path.{subst}
use mathlib.Core.Option.{map}
use hmmsim_server.CacheSet.{Block, Set, holds, touched, change_first, access}
use hmmsim_server.CacheSet.Lookup.{
  some_inj, Absent, Distinct, get-Absent, set-Distinct_same, Searched, change_first-Searched,
}

abbrev pub has : ℕ → List Block → Bool
has tag [] = false
has tag (b ∷ bs) = holds tag b || has tag bs

pub Absent-has : (tag : ℕ) (bs : List Block) → Absent tag bs → has tag bs ≡ false
Absent-has tag [] h = refl
Absent-has tag (b ∷ bs) h = rw (h.0) (Absent-has tag bs h.1)

pub has-Absent : (tag : ℕ) (bs : List Block) → has tag bs ≡ false → Absent tag bs
has-Absent tag [] h = tt
has-Absent tag (b ∷ bs) h = (ground arith, has-Absent tag bs (ground arith))

pub has_at :
    (tag : ℕ) (bs : List Block) (i : ℕ) (b : Block)
    → get_elem? bs i ≡ some b
    → holds tag b ≡ true
    → has tag bs ≡ true
has_at tag [] i b at held = cc
has_at tag (c ∷ bs) zero b at held = ground (arith, ap (holds tag) (some_inj at))
has_at tag (c ∷ bs) (suc i) b at held = ground (arith, has_at tag bs i b at held)

-- A tag that a valid block has is in no other block.
others_lack :
    (t : ℕ) (a b : Block) (bs : List Block) (i : ℕ)
    → (a.valid ≡ true → Absent a.tag bs)
    → get_elem? bs i ≡ some b
    → holds t a ≡ true
    → holds t b ≡ false
others_lack t a b bs i alone at held =
    let same : a.tag ≡ t = ground arith in
    subst (λ u. holds u b ≡ false) same (get-Absent a.tag bs i b (alone (ground arith)) at)

others_lack_all :
    (t : ℕ) (a : Block) (bs : List Block)
    → (a.valid ≡ true → Absent a.tag bs)
    → holds t a ≡ true
    → has t bs ≡ false
others_lack_all t a bs alone held =
    let same : a.tag ≡ t = ground arith in
    subst (λ u. has u bs ≡ false) same (Absent-has a.tag bs (alone (ground arith)))

-- Where a block is put in the place of another, its tag is held and that of the other is not.
pub has-set :
    (t : ℕ) (bs : List Block) (i : ℕ) (b c : Block)
    → Distinct bs
    → get_elem? bs i ≡ some b
    → has t (set bs i c) ≡ (holds t c || (has t bs && not (holds t b)))
has-set t [] i b c h at = cc
has-set t (a ∷ bs) zero b c h at =
    let e : holds t a ≡ holds t b = ap (holds t) (some_inj at) in
    ground (arith, others_lack_all t a bs h.0)
has-set t (a ∷ bs) (suc i) b c h at =
    ground (arith, others_lack t a b bs i h.0 at, has-set t bs i b c h.1 at)

-- The tags of the valid blocks are below a bound.
abbrev pub Below : ℕ → List Block → Type 0
Below n = All (λ b. b.valid ≡ true → b.tag < n)

pub set-Below :
    (n : ℕ) (bs : List Block) (i : ℕ) (c : Block)
    → Below n bs
    → (c.valid ≡ true → c.tag < n)
    → Below n (set bs i c)
set-Below n [] i c h g = tt
set-Below n (b ∷ bs) zero c h g = (g, h.1)
set-Below n (b ∷ bs) (suc i) c h g = (h.0, set-Below n bs i c h.1 g)

pub get-Below :
    (n : ℕ) (bs : List Block) (i : ℕ) (b : Block)
    → Below n bs
    → get_elem? bs i ≡ some b
    → b.valid ≡ true
    → b.tag < n
get-Below n [] i b h at v = cc
get-Below n (c ∷ bs) zero b h at v =
    let e : c ≡ b = some_inj at in
    subst (λ (x : Block). x.tag < n) e (h.0 (ap (λ (x : Block). x.valid) e ∙ v))
get-Below n (c ∷ bs) (suc i) b h at v = get-Below n bs i b h.1 at v

-- A set that holds the tag is as it was, but for the time and the state of a block.
pub record Hit (n tag : ℕ) (s s' : Set) : Type 0 where
  pub held : has tag s.blocks ≡ true
  pub same : (t : ℕ) → has t s'.blocks ≡ has t s.blocks
  pub distinct : Distinct s'.blocks
  pub below : Below n s'.blocks

abbrev pub Search : ℕ → ℕ → Set → Option (ℕ × Set) → Type 0
Search n tag s none = Absent tag s.blocks
Search n tag s (some (i, s')) = Hit n tag s s'

module _ (n tag now : ℕ) (read : Bool) (s : Set) (distinct : Distinct s.blocks)
    (below : Below n s.blocks) where
  touched-Hit :
      (i : ℕ) (b : Block)
      → get_elem? s.blocks i ≡ some b
      → holds tag b ≡ true
      → Hit n tag s (record s { blocks = set s.blocks i (touched now read b) })
  touched-Hit i b at held = record {
    held = has_at tag s.blocks i b at held;
    same = λ t.
        ground (
          arith,
          has_at t s.blocks i b at,
          has-set t s.blocks i b (touched now read b) distinct at,
        );
    distinct = set-Distinct_same s.blocks i b (touched now read b) at refl (λ v. v) distinct;
    below = set-Below n s.blocks i (touched now read b) below (get-Below n s.blocks i b below at);
  }

  found-Search :
      (o : Option (ℕ × List Block))
      → Searched (touched now read) tag s.blocks o
      → Search n tag s (map (λ p. (p.0, record s { blocks = p.1 })) o)
  found-Search none h = h
  found-Search (some (i, bs)) (b, at, held, same) =
      subst (λ (x : List Block). Hit n tag s (record s { blocks = x })) (sym same)
        (touched-Hit i b at held)

  pub access-Search : Search n tag s (access tag now read s)
  unfolding access
  access-Search =
      found-Search (change_first (touched now read) tag s.blocks)
        (change_first-Searched (touched now read) tag s.blocks)
