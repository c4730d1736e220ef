-- ===== src/CacheModel/Addresses.antt =====
-- The addresses of a `CacheModel` (Cache.cpp): the set and the tag of an address, and the address that an
-- evicted block is given.
use Prim.Native.Nat.{bit_and}
use native.Mathlib.Nat.{
  mod-eq_of_lt, mod-lt, div-one, mul-one, one-le-pow, mul-add-div_right, div-eq_of_lt,
  mul-le-mul_right, suc-mul, mul_comm, mul_assoc, add-mul, mul-add-mod_self_right,
}
use hmmsim_server.Prelude.{
  ℕ, suc, ◌+◌, ◌-◌, ◌*◌, ◌/◌, ◌%◌, ◌^◌, ◌≤◌, ◌<◌, ◌≡◌, sym, ap, ◌∙◌, false, not, ◌==◌, arith, word,
  sign_bit, shl64,
}
use hmmsim_server.Prelude.{and-in_place, mod_split, or-high_low, pow_sum, pow_mono}
use hmmsim_server.Mapping.{field, index_in, set_bits}
use hmmsim_server.Mapping.Fields.{run_of_ones, set_bits-mask, index-field}
use hmmsim_server.Mapping.Blocks.{rest_of}
use hmmsim_server.CacheModel.{CacheModel, get_index, get_tag, evicted_address, top_bit}

-- Masks of `o` bits for the bytes of a block, `i` for the set and the `w` above for the tag.
pub record Geometry (o i w : ℕ) (c : CacheModel) : Type 0 where
  pub offset : c.offset ≡ field o 0
  pub index : c.index ≡ field i o
  pub tag : c.tag ≡ field w (i + o)
  pub whole : i + o + w ≡ 64
  pub tagged : 1 ≤ w

quotient : (j r m : ℕ) → r < m → (j * m + r) / m ≡ j
quotient j r m low = mul-add-div_right (omega (arith, low)) j r ∙ omega (arith, div-eq_of_lt low)

-- The complement of a mask on top is the run of ones below it.
below_mask : (k w a : ℕ) → k + w ≡ 64 → bit_and a (word - 1 - set_bits w k 0) ≡ a % 2 ^ k
below_mask k w a all =
    let top : 2 ^ (k + w) ≡ 2 ^ 64 = ap (λ (x : ℕ). 2 ^ x) all in
    let mask : word - 1 - (2 ^ w - 1) * 2 ^ k ≡ (2 ^ k - 1) * 2 ^ 0 =
      omega (arith, run_of_ones w k, top, one-le-pow k 2) in
    ap (λ m. bit_and a (word - 1 - m)) (set_bits-mask w k (omega arith))
    ∙ ap (bit_and a) mask
    ∙ and-in_place k 0 a
    ∙ mul-one ((a / 1) % 2 ^ k)
    ∙ ap (λ x. x % 2 ^ k) (div-one a)

-- What is left of an address without its tag and its byte: the set.
set_part :
    (o i w a : ℕ)
    → i + o + w ≡ 64
    → bit_and (bit_and a (word - 1 - set_bits w (i + o) 0)) (word - 1 - set_bits o 0 0)
      ≡ (a / 2 ^ o) % 2 ^ i * 2 ^ o
set_part o i w a all =
    let j = (a / 2 ^ o) % 2 ^ i in
    let small : j < 2 ^ i = mod-lt (a / 2 ^ o) (omega (arith, one-le-pow i 2)) in
    let low : a % 2 ^ o < 2 ^ o = mod-lt a (omega (arith, one-le-pow o 2)) in
    let order : 2 ^ (i + o) ≡ 2 ^ (o + i) = ap (λ (x : ℕ). 2 ^ x) (omega arith) in
    let split : a % 2 ^ (i + o) ≡ j * 2 ^ o + a % 2 ^ o =
      ap (λ (m : ℕ). a % m) order ∙ mod_split i o a ∙ omega arith in
    let digit : (a % 2 ^ (i + o)) / 2 ^ o ≡ j =
      ap (λ x. x / 2 ^ o) split ∙ quotient j (a % 2 ^ o) (2 ^ o) low in
    let fits : j % 2 ^ (i + w) ≡ j =
      mod-eq_of_lt (omega (arith, small, pow_mono {i = i} {j = i + w} (omega arith))) in
    ap (λ x. bit_and x (word - 1 - set_bits o 0 0)) (below_mask (i + o) w a all)
    ∙ rest_of o (i + w) (a % 2 ^ (i + o)) (omega arith)
    ∙ ap (λ x. x % 2 ^ (i + w) * 2 ^ o) digit
    ∙ ap (λ x. x * 2 ^ o) fits

-- A number below `2 ^ x`, moved up by `y` digits.
moved_below : (x y j : ℕ) → j < 2 ^ x → j * 2 ^ y + 2 ^ y ≤ 2 ^ (x + y)
moved_below x y j small =
    let most : suc j * 2 ^ y ≤ 2 ^ x * 2 ^ y = mul-le-mul_right (2 ^ y) small in
    let order : 2 ^ (y + x) ≡ 2 ^ (x + y) = ap (λ (n : ℕ). 2 ^ n) (omega arith) in
    omega (arith, most, suc-mul j (2 ^ y), pow_sum y x, order)

module _ (o i w : ℕ) (c : CacheModel) (g : Geometry o i w c) where
  pub get_index_lem : (a : ℕ) → get_index c a ≡ (a / 2 ^ o) % 2 ^ i
  unfolding get_index
  get_index_lem a = ap (λ f. index_in f a) g.index ∙ index-field i o a (omega (arith, g.whole))

  pub get_tag_lem : (a : ℕ) → get_tag c a ≡ (a / 2 ^ (i + o)) % 2 ^ w
  unfolding get_tag
  get_tag_lem a = rw (g.tag, g.index, g.offset) (index-field w (i + o) a (omega (arith, g.whole)))

  placed :
      (t a : ℕ) → t < 2 ^ w → evicted_address c t a ≡ t * 2 ^ (i + o) + (a / 2 ^ o) % 2 ^ i * 2 ^ o
  unfolding evicted_address
  placed t a small =
      let j = (a / 2 ^ o) % 2 ^ i in
      let in_set : j < 2 ^ i = mod-lt (a / 2 ^ o) (omega (arith, one-le-pow i 2)) in
      let whole : 2 ^ (w + (i + o)) ≡ 2 ^ 64 =
        ap (λ (n : ℕ). 2 ^ n) {y = 64} (omega (arith, g.whole)) in
      let shifted : shl64 t (i + o) ≡ t * 2 ^ (i + o) =
        mod-eq_of_lt (omega (arith, moved_below w (i + o) t small, whole, one-le-pow (i + o) 2)) in
      let low : j * 2 ^ o < 2 ^ (i + o) = omega (arith, moved_below i o j in_set, one-le-pow o 2) in
      rw (g.tag, g.index, g.offset, set_part o i w a g.whole, shifted)
        (or-high_low (i + o) t (j * 2 ^ o) low)

  -- The parts of the address of an evicted block.
  evicted-parts :
      (t a : ℕ) → t < 2 ^ w → evicted_address c t a ≡ t * 2 ^ (i + o) + get_index c a * 2 ^ o
  evicted-parts t a small =
      placed t a small ∙ ap (λ j. t * 2 ^ (i + o) + j * 2 ^ o) (sym (get_index_lem a))

  pub small_index : (a : ℕ) → get_index c a < 2 ^ i
  small_index a = rw (get_index_lem a) (mod-lt (a / 2 ^ o) (omega (arith, one-le-pow i 2)))

  -- The evicted block's address has its tag, and the set of the address that took its place.
  pub get_tag-evicted : (t a : ℕ) → t < 2 ^ w → get_tag c (evicted_address c t a) ≡ t
  get_tag-evicted t a small =
      let j = get_index c a in
      let low : j * 2 ^ o < 2 ^ (i + o) =
        omega (arith, moved_below i o j (small_index a), one-le-pow o 2) in
      get_tag_lem (evicted_address c t a)
      ∙ ap (λ e. (e / 2 ^ (i + o)) % 2 ^ w) (evicted-parts t a small)
      ∙ ap (λ q. q % 2 ^ w) (quotient t (j * 2 ^ o) (2 ^ (i + o)) low)
      ∙ mod-eq_of_lt small

  pub get_index-evicted :
      (t a : ℕ) → t < 2 ^ w → get_index c (evicted_address c t a) ≡ get_index c a
  get_index-evicted t a small =
      let j = get_index c a in
      let up : t * 2 ^ (i + o) ≡ t * 2 ^ i * 2 ^ o =
        ap (λ n. t * n) (pow_sum i o ∙ mul_comm (2 ^ o) (2 ^ i))
        ∙ sym (mul_assoc t (2 ^ i) (2 ^ o)) in
      let split : t * 2 ^ (i + o) + j * 2 ^ o ≡ (t * 2 ^ i + j) * 2 ^ o + 0 =
        omega (arith, up, add-mul (t * 2 ^ i) j (2 ^ o)) in
      get_index_lem (evicted_address c t a)
      ∙ ap (λ e. (e / 2 ^ o) % 2 ^ i) (evicted-parts t a small ∙ split)
      ∙ ap (λ q. q % 2 ^ i) (quotient (t * 2 ^ i + j) 0 (2 ^ o) (omega (arith, one-le-pow o 2)))
      ∙ mul-add-mod_self_right t (2 ^ i) j
      ∙ mod-eq_of_lt (small_index a)

  -- The top bit of it is clear where that of its tag is.
  pub evicted-low : (t a : ℕ) → t < 2 ^ (w - 1) → top_bit (evicted_address c t a) ≡ false
  evicted-low t a small =
      let e = evicted_address c t a in
      let j = get_index c a in
      let fits : t < 2 ^ w = omega (arith, small, pow_mono {i = w - 1} {j = w} (omega arith)) in
      let whole : 2 ^ (w - 1 + (i + o)) ≡ 2 ^ 63 =
        ap (λ (n : ℕ). 2 ^ n) {y = 63} (omega (arith, g.whole, g.tagged)) in
      let low : e < 2 ^ 63 = omega (
        arith,
        evicted-parts t a fits,
        moved_below (w - 1) (i + o) t small,
        moved_below i o j (small_index a),
        one-le-pow o 2,
        whole,
      ) in
      let bit : bit_and e sign_bit ≡ (e / 2 ^ 63) % 2 ^ 1 * 2 ^ 63 = and-in_place 1 63 e in
      let none_set : bit_and e sign_bit ≡ 0 = omega (arith, bit, low) in
      ap (λ b. not (b == 0)) none_set
