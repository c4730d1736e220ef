-- ===== src/Mapping/Fields.antt =====
-- What the fields of an address are (MemoryMapping, include/Bank.H and the start of Bank.cpp).
use hmmsim_server.Prelude.{
  ℕ, zero, suc, ◌+◌, ◌-◌, ◌*◌, ◌/◌, ◌%◌, ◌^◌, ◌≤◌, ◌<◌, ◌≡◌, ap, sym, ◌∙◌, arith,
}
use hmmsim_server.Prelude.{shl64, or-low_high, and-field, mod_split, pow_sum, pow_mono}
use Prim.Native.Nat.{bit_or}
use native.Mathlib.Nat.{pow-suc, one-le-pow, add-mul, zero-add}
use hmmsim_server.Mapping.{set_bits, field, index_in}

-- A run of `j` ones over `o` zeros, as a number.
pub run_of_ones : (j o : ℕ) → (2 ^ j - 1) * 2 ^ o + 2 ^ o ≡ 2 ^ (o + j)
run_of_ones j o =
    let whole : 2 ^ j - 1 + 1 ≡ 2 ^ j = omega (arith, one-le-pow j 2) in
    let parts = add-mul (2 ^ j - 1) 1 (2 ^ o) in
    let parts' = rw whole at parts in omega (arith, parts', pow_sum o j)

-- A round of the loop puts a one on top.
set_bit :
    (j o : ℕ)
    → o + j < 64
    → bit_or ((2 ^ j - 1) * 2 ^ o) (shl64 1 (o + j)) ≡ (2 ^ (j + 1) - 1) * 2 ^ o
set_bit j o fits =
    let small : 1 * 2 ^ (o + j) < 2 ^ 64 = omega (
      arith,
      pow-suc 2 (o + j),
      one-le-pow (o + j) 2,
      pow_mono {i = suc (o + j)} {j = 64} (omega arith),
    ) in
    let low =
      or-low_high (o + j) 1 ((2 ^ j - 1) * 2 ^ o)
        (omega (arith, run_of_ones j o, one-le-pow o 2)) in
    let top : shl64 1 (o + j) ≡ 1 * 2 ^ (o + j) = omega arith in
    let next : 2 ^ (o + (j + 1)) ≡ 2 ^ (o + j) * 2 =
      ap (λ (x : ℕ). 2 ^ x) (omega arith) ∙ pow-suc 2 (o + j) in
    ap (bit_or ((2 ^ j - 1) * 2 ^ o)) top
    ∙ low
    ∙ omega (arith, next, run_of_ones j o, run_of_ones (j + 1) o)

set_bits-ones :
    (n j o : ℕ)
    → o + j + n ≤ 64
    → set_bits n (o + j) ((2 ^ j - 1) * 2 ^ o) ≡ (2 ^ (j + n) - 1) * 2 ^ o
unfolding set_bits
set_bits-ones zero j o fits = ap (λ (x : ℕ). (2 ^ x - 1) * 2 ^ o) (omega arith)
set_bits-ones (suc n) j o fits =
    let on : o + j + 1 ≡ o + (j + 1) = omega arith in
    ap (set_bits n (o + j + 1)) (set_bit j o (omega arith))
    ∙ ap (λ i. set_bits n i ((2 ^ (j + 1) - 1) * 2 ^ o)) on
    ∙ set_bits-ones n (j + 1) o (omega arith)
    ∙ ap (λ (x : ℕ). (2 ^ x - 1) * 2 ^ o) (omega arith)

pub set_bits-mask : (w o : ℕ) → o + w ≤ 64 → set_bits w o 0 ≡ (2 ^ w - 1) * 2 ^ o
set_bits-mask w o fits =
    let start : o ≡ o + 0 = omega arith in
    let none_yet : 0 ≡ (2 ^ 0 - 1) * 2 ^ o = omega arith in
    ap (λ i. set_bits w i 0) start
    ∙ ap (set_bits w (o + 0)) none_yet
    ∙ set_bits-ones w 0 o (omega arith)
    ∙ ap (λ (x : ℕ). (2 ^ x - 1) * 2 ^ o) (zero-add w)

pub index-field : (w o a : ℕ) → o + w ≤ 64 → index_in (field w o) a ≡ (a / 2 ^ o) % 2 ^ w
index-field w o a fits = rw (set_bits-mask w o fits) (and-field w o a)

-- What the bits up to the end of a field are: those below it, and its index.
pub above : (w o a : ℕ) → o + w ≤ 64 → a % 2 ^ (o + w) ≡ a % 2 ^ o + index_in (field w o) a * 2 ^ o
above w o a fits = mod_split w o a ∙ ap (λ i. a % 2 ^ o + i * 2 ^ o) (sym (index-field w o a fits))
