-- ===== src/CacheSet/Allocation.antt =====
-- What `Set::allocate` (Cache.cpp) does under the least recently used policy, the only one that it supports.
use hmmsim_server.Prelude.{
  ℕ, zero, suc, ◌-◌, ◌≡◌, refl, ap, ◌∙◌, Bool, true, false, List, [], ◌∷◌, Option, none, some,
  if◌then◌else◌, get_elem?, set, All, Bool-cases, inl, inr, ◌⊎◌, arith, word,
}
use mathlib.Core.Path.{subst}
use hmmsim_server.Prelude.Results.{ok, ◌>>=◌}
use hmmsim_server.CacheSet.{
  Block, Set, Allocated, lru, invalid, holds, touched, change_first, access, first_invalid,
  choose_in, result_of, filled, put_in, allocate,
}
use hmmsim_server.CacheSet.Lookup.{
  some_inj, Absent, Distinct, get-Absent, set-Distinct_new, search_set,
}
use hmmsim_server.CacheSet.Victim.{
  NotBefore, IsVictim, Least, least_recent-Least, Vacant, first_invalid-Vacant,
}

abbrev pub AllValid : List Block → Type 0
AllValid = All (λ b. b.valid ≡ true)

-- Why a block was taken: it held nothing, or no block was free of a valid one and it is the victim.
abbrev pub Chosen : Set → ℕ → Block → Type 0
Chosen s i old = (old.valid ≡ false) ⊎ (AllValid s.blocks × IsVictim s.pinned s.blocks i old)

-- The block of index `i`, formerly `old`, was given to the tag.
pub record Taken (tag now : ℕ) (read : Bool) (s : Set) (i : ℕ) (old : Block) (a : Allocated)
    (s' : Set) : Type 0 where
  pub place : get_elem? s.blocks i ≡ some old
  pub chosen : Chosen s i old
  pub result : a.result ≡ result_of old
  pub evicted : a.evicted ≡ (if old.valid then some old.tag else none)
  pub found :
      (later : ℕ) (read : Bool) → (after : Set) × (access tag later read s' ≡ some (i, after))
  pub kept : s'.blocks ≡ set s.blocks i (filled tag now read)
  pub gone : old.valid ≡ true → Absent old.tag s'.blocks
  pub distinct : Distinct s'.blocks

-- No block may be taken: the set is as it was.
pub record Refused (s : Set) (a : Allocated) (s' : Set) : Type 0 where
  pub result : a.result ≡ invalid
  pub evicted : a.evicted ≡ none
  pub same : s' ≡ s
  pub full : AllValid s.blocks
  pub held : All (NotBefore s.pinned (word - 1)) s.blocks

-- What an allocation comes to, by the index that it returns.
abbrev pub Allocation : ℕ → ℕ → Bool → Set → Option ℕ → Allocated → Set → Type 0
Allocation tag now read s none a s' = Refused s a s'
Allocation tag now read s (some i) a s' = (old : Block) × Taken tag now read s i old a s'

holds_apart :
    (a b : Block)
    → (a.valid ≡ true → holds a.tag b ≡ false)
    → b.valid ≡ true
    → holds b.tag a ≡ false
holds_apart a b apart v = elim (Bool-cases a.valid) [
  | inl here ↦ ground (arith, apart here)
  | inr not_here ↦ ground arith
]

-- The tag of a valid block that another takes the place of is in no block.
set-gone :
    (bs : List Block) (i : ℕ) (b c : Block)
    → get_elem? bs i ≡ some b
    → b.valid ≡ true
    → holds b.tag c ≡ false
    → Distinct bs
    → Absent b.tag (set bs i c)
set-gone [] i b c at v other h = tt
set-gone (a ∷ bs) zero b c at v other h =
    let e : a ≡ b = some_inj at in
    (other, subst (λ (x : Block). Absent x.tag bs) e (h.0 (ap (λ (x : Block). x.valid) e ∙ v)))
set-gone (a ∷ bs) (suc i) b c at v other h =
    (holds_apart a b (λ w. get-Absent a.tag bs i b (h.0 w) at) v, set-gone bs i b c at v other h.1)

access_found :
    (tag now i : ℕ) (read : Bool) (s : Set) (bs : List Block)
    → change_first (touched now read) tag s.blocks ≡ some (i, bs)
    → access tag now read s ≡ some (i, record s { blocks = bs })
unfolding access
access_found tag now i read s bs h = rw h refl

module _ (tag now : ℕ) (read : Bool) (s : Set) (distinct : Distinct s.blocks)
    (absent : Absent tag s.blocks) where
  filled-Taken :
      (i : ℕ) (old : Block)
      → get_elem? s.blocks i ≡ some old
      → Chosen s i old
      → (a : Allocated) × (s' : Set) × (put_in (some i) tag now read s ≡ ok (a, s'))
        × Allocation tag now read s a.block a s'
  filled-Taken i old at chosen = (
    record {
      result = result_of old;
      evicted = if old.valid then some old.tag else none;
      block = some i;
    },
    record s { blocks = set s.blocks i (filled tag now read) },
    rw at refl,
    (
      old,
      record {
        place = at;
        chosen = chosen;
        result = refl;
        evicted = refl;
        found = (λ later again.
            let (bs, held) =
              search_set (touched later again) tag s.blocks i old (filled tag now read) absent at
                (ground arith) in
            (_, access_found tag later i again _ bs held));
        kept = refl;
        gone = λ v.
            set-gone s.blocks i old (filled tag now read) at v
              (ground (arith, get-Absent tag s.blocks i old absent at)) distinct;
        distinct = set-Distinct_new s.blocks i (filled tag now read) distinct absent;
      },
    ),
  )

  choice-Chosen :
      (o : Option ℕ)
      → Least s.pinned 0 (word - 1) none s.blocks o
      → AllValid s.blocks
      → (a : Allocated) × (s' : Set) × (put_in o tag now read s ≡ ok (a, s'))
        × Allocation tag now read s a.block a s'
  choice-Chosen none (h, held) full =
      (_, _, refl, record { result = refl; evicted = refl; same = refl; full = full; held = held })
  choice-Chosen (some v) (inl (h, held)) full = cc
  choice-Chosen (some v) (inr (k, b, place, less, (at, free, least))) full =
      let same : k ≡ v = omega (arith, place) in
      subst
        (λ (i : ℕ).
          (a : Allocated) × (s' : Set) × (put_in (some i) tag now read s ≡ ok (a, s'))
          × Allocation tag now read s a.block a s')
        same (filled-Taken k b at (inr (full, (at, free, least))))

  unused :
      (o : Option ℕ)
      → Vacant s.blocks o
      → (a : Allocated) × (s' : Set) × ((choose_in o lru s >>= λ v. put_in v tag now read s)
          ≡ ok (a, s'))
        × Allocation tag now read s a.block a s'
  unused none full = choice-Chosen _ (least_recent-Least s.pinned 0 (word - 1) none s.blocks) full
  unused (some i) (b, at, free) = filled-Taken i b at (inl free)

  -- In a set whose valid blocks have different tags, `allocate` for a tag that none of them has, by
  -- the policy of the least recent use, ends without a fault. Where it gives a block to the tag,
  -- that block held nothing, or else no block was free and no other one that is not pinned was used
  -- earlier. The tag that it held is reported, and is in no block any more; later accesses find the
  -- new tag in it, and the tags stay different. Where it gives none, all blocks are valid and each
  -- is pinned, or has the latest time there is, and the set is as it was.
  pub allocate-Allocation :
      (a : Allocated) × (s' : Set) × (allocate lru tag now read s ≡ ok (a, s'))
      × Allocation tag now read s a.block a s'
  unfolding allocate
  allocate-Allocation = unused (first_invalid s.blocks) (first_invalid-Vacant s.blocks)
