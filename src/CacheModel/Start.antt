-- ===== src/CacheModel/Start.antt =====
-- The constructor of `CacheModel` (Cache.cpp).
use native.Mathlib.Nat.{
  div-le_self, div-mul-le_self, mul-le-mul, mul-le-mul_left, one-le-pow, mul_comm,
}
use hmmsim_server.Prelude.{
  ℕ, zero, suc, ◌+◌, ◌-◌, ◌*◌, ◌/◌, ◌^◌, ◌≤◌, ◌<◌, ◌≡◌, refl, ap, ◌∙◌, false, ◌||◌, [], some,
  get_elem?, replicate, ltb, ◌==◌, Bool-cases, inl, inr, arith, if_false, shl32, pow_sum, pow_mono,
}
use hmmsim_server.Prelude.Results.{ok}
use hmmsim_server.Mapping.{logarithm, logb}
use hmmsim_server.Mapping.Sizes.{logarithm-bounds, shl-logb}
use hmmsim_server.CacheSet.{Block, Set, lru}
use hmmsim_server.CacheSet.Lookup.{Distinct}
use hmmsim_server.CacheSet.Contents.{has, Below}
use hmmsim_server.CacheModel.{CacheModel, init, emptied, get_tag, get_index}
use hmmsim_server.CacheModel.Addresses.{small_index}
use hmmsim_server.CacheModel.Contents.{IsValid, contains, has_in}

get-replicate {ℓ} : {A : Type ℓ} (n j : ℕ) (x : A) → j < n → get_elem? (replicate n x) j ≡ some x
get-replicate zero j x small = absurd (omega arith)
get-replicate (suc n) zero x small = refl
get-replicate (suc n) (suc j) x small = get-replicate n j x (omega arith)

-- Blocks that are not valid have no tags.
replicate-Distinct : (n : ℕ) (b : Block) → Distinct (replicate n (emptied b))
replicate-Distinct zero b = tt
replicate-Distinct (suc n) b = (λ v. cc, replicate-Distinct n b)

replicate-Below : (m n : ℕ) (b : Block) → Below m (replicate n (emptied b))
replicate-Below m zero b = tt
replicate-Below m (suc n) b = (λ v. cc, replicate-Below m n b)

has-replicate : (t n : ℕ) (b : Block) → has t (replicate n (emptied b)) ≡ false
has-replicate t zero b = refl
has-replicate t (suc n) b = has-replicate t n b

exponent_below : (x : ℕ) → 2 ^ x < 2 ^ 64 → x < 64
exponent_below x small = elim (Bool-cases (ltb x 64)) [
  | inl less ↦ ground arith
  | inr more ↦ absurd (omega (arith, pow_mono {i = 64} {j = x} (ground arith)))
]

module _ (unset : Block) (cache_size block_size assoc page_size : ℕ) (fits : cache_size < 2 ^ 64)
    (least : 8 ≤ block_size) (word : block_size < 2 ^ 32) (some_assoc : 1 ≤ assoc)
    (enough : 1 ≤ cache_size / shl32 1 (logb block_size) / assoc) where
  abbrev size : ℕ
  size = shl32 1 (logb block_size)

  abbrev num_sets : ℕ
  num_sets = cache_size / size / assoc

  abbrev o : ℕ
  o = logb size

  abbrev i : ℕ
  i = logarithm 64 num_sets

  widths : i + o < 64
  widths =
      let (e, same, at_most, more) = shl-logb block_size (omega arith) word in
      let offset_fits =
        logarithm-bounds 32 size (omega (arith, same, one-le-pow e 2)) (omega (arith, at_most)) in
      let sets : num_sets ≤ cache_size / size = div-le_self (cache_size / size) assoc in
      let sets_fit : num_sets < 2 ^ 64 = omega (arith, sets, div-le_self cache_size size, fits) in
      let index_fits = logarithm-bounds 64 num_sets enough sets_fit in
      let powers : 2 ^ o * 2 ^ i ≤ size * num_sets = mul-le-mul (offset_fits.0) (index_fits.0) in
      let parts : size * num_sets ≤ size * (cache_size / size) = mul-le-mul_left size sets in
      exponent_below (i + o) (
        omega (
          arith,
          pow_sum i o,
          powers,
          parts,
          mul_comm size (cache_size / size),
          div-mul-le_self cache_size size,
          fits,
        ))

  enough_sets : 2 ^ i ≤ num_sets
  enough_sets =
      let sets = div-le_self (cache_size / size) assoc in
      let sets_fit : num_sets < 2 ^ 64 = omega (arith, sets, div-le_self cache_size size, fits) in
      (logarithm-bounds 64 num_sets enough sets_fit).0

  abbrev new_set : Set
  new_set = record { blocks = replicate assoc (emptied unset); pinned = [] }

  -- For a block of 8 bytes or more and sizes that give a set, the constructor ends without an error. Its masks
  -- take an address apart, its sets are those that an index may name, and it holds no block.
  pub init-IsValid :
      (c : CacheModel) × (init unset lru cache_size block_size assoc page_size ≡ ok c)
      × IsValid o i (64 - o - i) c
      × ((a : ℕ) → contains c a ≡ false)
  unfolding init contains
  init-IsValid =
      let big : (ltb block_size 8 || (num_sets == 0 || assoc == 0)) ≡ false =
        ground (arith, least, enough, some_assoc) in
      let g : IsValid o i (64 - o - i) _ = record {
        geometry = record {
          offset = refl;
          index = refl;
          tag = refl;
          whole = omega (arith, widths);
          tagged = omega (arith, widths);
        };
        sets = λ j small. (
          new_set,
          get-replicate num_sets j new_set (omega (arith, enough_sets)),
          record {
            distinct = replicate-Distinct assoc unset;
            below = replicate-Below (2 ^ (64 - o - i - 1)) assoc unset;
          },
        );
        policy = refl;
        no_remap = refl;
        no_inv = refl;
      } in
      (
        _,
        if_false _ _ big,
        g,
        λ a.
            let j_small = small_index o i (64 - o - i) _ g.geometry a in
            ap (has_in (get_tag _ a))
              (get-replicate num_sets (get_index _ a) new_set (omega (arith, enough_sets)))
            ∙ has-replicate (get_tag _ a) assoc unset,
      )
