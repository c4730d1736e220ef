-- ===== src/CacheModel/Contents.antt =====
-- The blocks that a `CacheModel` (Cache.cpp) holds, as a test of addresses, and what the sets make of it.
use hmmsim_server.Prelude.{
  ℕ, zero, suc, ◌-◌, ◌^◌, ◌<◌, ◌≡◌, ◌≢◌, refl, sym, ap, ◌∙◌, Bool, true, false, ◌&&◌, ◌||◌, not,
  List, [], ◌∷◌, Option, none, some, ◌==◌, get_elem?, set, Bool-cases, inl, inr, arith,
}
use hmmsim_server.CacheSet.{Set, lru}
use hmmsim_server.CacheSet.Lookup.{get-set, Distinct}
use hmmsim_server.CacheSet.Contents.{has, Below}
use hmmsim_server.CacheModel.{
  CacheModel, CacheResult, hit, miss_without_eviction, miss_with_eviction, miss_with_writeback,
  miss_without_free_block, Accessed, get_index, get_tag, with_set, tick,
}
use hmmsim_server.CacheModel.Addresses.{Geometry}

abbrev pub has_in : ℕ → Option Set → Bool
has_in t none = false
has_in t (some s) = has t s.blocks

-- The block of an address is in the cache.
unfoldable pub contains : CacheModel → ℕ → Bool
contains c a = has_in (get_tag c a) (get_elem? c.sets (get_index c a))

-- Two addresses are of one block.
unfoldable pub same_block : CacheModel → ℕ → ℕ → Bool
same_block c a b = get_index c a == get_index c b && get_tag c a == get_tag c b

-- A set of the array, whose valid blocks have different tags with a clear top bit.
pub record Good (w : ℕ) (s : Set) : Type 0 where
  pub distinct : Distinct s.blocks
  pub below : Below (2 ^ (w - 1)) s.blocks

-- A cache that remaps no page, with all sets that an index may name.
pub record IsValid (o i w : ℕ) (c : CacheModel) : Type 0 where
  pub geometry : Geometry o i w c
  pub sets : (j : ℕ) → j < 2 ^ i → (s : Set) × (get_elem? c.sets j ≡ some s) × Good w s
  pub policy : c.policy ≡ lru
  pub no_remap : c.remap_table ≡ []
  pub no_inv : c.inv_remap_table ≡ []

-- What an access makes of the blocks, by its result and the address that it evicts.
abbrev pub EffectOf : CacheResult → Option ℕ → CacheModel → ℕ → CacheModel → Type 0
EffectOf hit none c addr c' = (contains c addr ≡ true) × ((a : ℕ) → contains c' a ≡ contains c a)
EffectOf miss_without_free_block none c addr c' =
    (contains c addr ≡ false) × ((a : ℕ) → contains c' a ≡ contains c a)
EffectOf miss_without_eviction none c addr c' =
    (contains c addr ≡ false) × ((a : ℕ) → contains c' a ≡ (same_block c addr a || contains c a))
EffectOf miss_with_eviction (some e) c addr c' =
    (contains c addr ≡ false)
    × (contains c e ≡ true)
    × ((a : ℕ) → contains c' a ≡ (same_block c addr a || (contains c a && not (same_block c e a))))
EffectOf miss_with_writeback (some e) c addr c' =
    (contains c addr ≡ false)
    × (contains c e ≡ true)
    × ((a : ℕ) → contains c' a ≡ (same_block c addr a || (contains c a && not (same_block c e a))))
EffectOf hit (some e) c addr c' = ⊥
EffectOf miss_without_free_block (some e) c addr c' = ⊥
EffectOf miss_without_eviction (some e) c addr c' = ⊥
EffectOf miss_with_eviction none c addr c' = ⊥
EffectOf miss_with_writeback none c addr c' = ⊥

abbrev pub Effect : CacheModel → ℕ → Accessed → CacheModel → Type 0
Effect c addr r c' = EffectOf r.result r.evicted_addr c addr c'

pub get-set_other {ℓ} :
    {A : Type ℓ} (xs : List A) (j k : ℕ) (y : A) → k ≢ j → get_elem? (set xs j y) k ≡ get_elem? xs k
get-set_other [] j k y other = refl
get-set_other (x ∷ xs) zero zero y other = absurd (other refl)
get-set_other (x ∷ xs) zero (suc k) y other = refl
get-set_other (x ∷ xs) (suc j) zero y other = refl
get-set_other (x ∷ xs) (suc j) (suc k) y other = get-set_other xs j k y (λ e. other (ap suc e))

module _ (c : CacheModel) (addr : ℕ) (s s' : Set)
    (here : get_elem? c.sets (get_index c addr) ≡ some s) where
  -- The cache once the set of the address is changed.
  abbrev pub after : CacheModel
  after = with_set (tick c) (get_index c addr) s'

  pub contains_here :
      (a : ℕ) → get_index c a ≡ get_index c addr → contains c a ≡ has (get_tag c a) s.blocks
  unfolding contains
  contains_here a same =
      ap (λ k. has_in (get_tag c a) (get_elem? c.sets k)) same ∙ ap (has_in (get_tag c a)) here

  after_here :
      (a : ℕ) → get_index c a ≡ get_index c addr → contains after a ≡ has (get_tag c a) s'.blocks
  unfolding contains get_index get_tag
  after_here a same =
      ap (λ k. has_in (get_tag c a) (get_elem? after.sets k)) same
      ∙ ap (has_in (get_tag c a)) (get-set c.sets (get_index c addr) s s' here)

  after_other : (a : ℕ) → get_index c a ≢ get_index c addr → contains after a ≡ contains c a
  unfolding contains get_index get_tag
  after_other a other =
      ap (has_in (get_tag c a)) (get-set_other c.sets (get_index c addr) (get_index c a) s' other)

  -- A set with the same tags leaves the cache with the same blocks.
  pub after-same :
      ((t : ℕ) → has t s'.blocks ≡ has t s.blocks) → (a : ℕ) → contains after a ≡ contains c a
  after-same same a = elim (Bool-cases (get_index c a == get_index c addr)) [
    | inl there ↦
        after_here a (ground arith) ∙ same (get_tag c a) ∙ sym (contains_here a (ground arith))
    | inr other ↦ after_other a (ground arith)
  ]

  -- A set with one tag more, that of the address, adds its block.
  pub after-added :
      ((t : ℕ) → has t s'.blocks ≡ (get_tag c addr == t || has t s.blocks))
      → (a : ℕ) → contains after a ≡ (same_block c addr a || contains c a)
  unfolding same_block
  after-added same a = elim (Bool-cases (get_index c a == get_index c addr)) [
    | inl there ↦
        ground
          (arith, after_here a (ground arith), same (get_tag c a), contains_here a (ground arith))
    | inr other ↦ ground (arith, after_other a (ground arith))
  ]

  -- A set with that tag in place of another one holds the block of the address in place of the other's.
  pub after-replaced :
      (e : ℕ)
      → get_index c e ≡ get_index c addr
      → ((t : ℕ)
          → has t s'.blocks ≡ (get_tag c addr == t || (has t s.blocks && not (get_tag c e == t))))
      → (a : ℕ)
      → contains after a ≡ (same_block c addr a || (contains c a && not (same_block c e a)))
  unfolding same_block
  after-replaced e index same a = elim (Bool-cases (get_index c a == get_index c addr)) [
    | inl there ↦
        ground
          (arith, after_here a (ground arith), same (get_tag c a), contains_here a (ground arith))
    | inr other ↦ ground (arith, after_other a (ground arith))
  ]
