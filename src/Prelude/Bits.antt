-- ===== src/Prelude/Bits.antt =====
-- `&`, `|` and the shifts of `uint64`, and what they are in arithmetic where a mask is a field of
-- consecutive bits, as in include/Bank.H.
use Prim.Native.Nat.{ℕ, zero, suc, min, max, digits, bit_and, bit_or}
use Prim.Native.Nat.{bit_and-bitwise, bit_or-bitwise, ◌+◌, ◌-◌, ◌*◌, ◌/◌, ◌%◌, ◌^◌, ◌≤◌, ◌<◌}
use mathlib.Core.Path.{◌≡◌, refl, ap, sym, ◌∙◌}
use native.Mathlib.Nat.{
  pow-suc, one-le-pow, div-div-eq-div-mul, mul_comm, mul-one, div-one, mod-add-div', zero-add,
  suc-add, pow-le-pow_right,
}
use native.Mathlib.Omega.{arith}

-- All counts of digits that are the first number or more give the same.
enough_digits :
    (z : ℕ → ℕ) (f : ℕ → ℕ → ℕ) (i j a b : ℕ) → a ≤ i → a ≤ j → digits z f i a b ≡ digits z f j a b
enough_digits z f zero zero zero b h g = refl
enough_digits z f zero (suc j) zero b h g = refl
enough_digits z f (suc i) zero zero b h g = refl
enough_digits z f (suc i) (suc j) zero b h g = refl
enough_digits z f zero j (suc a) b h g = absurd (omega arith)
enough_digits z f (suc i) zero (suc a) b h g = absurd (omega arith)
enough_digits z f (suc i) (suc j) (suc a) b h g =
    ap (λ d. d * 2 + f (suc a % 2) (b % 2))
      (enough_digits z f i j (suc a / 2) (b / 2) (omega arith) (omega arith))

-- The lowest digit of `&` and `|`, and the others.
pub and_halves :
    (a b : ℕ)
    → (bit_and a b / 2 ≡ bit_and (a / 2) (b / 2)) × (bit_and a b % 2 ≡ min (a % 2) (b % 2))
and_halves zero b = simp bit_and-bitwise (ground arith)
and_halves (suc a) b = simp bit_and-bitwise (
    ground (
      arith,
      enough_digits (λ x. 0) min a (suc a / 2) (suc a / 2) (b / 2) (omega arith) (omega arith),
    ))

pub or_halves :
    (a b : ℕ) → (bit_or a b / 2 ≡ bit_or (a / 2) (b / 2)) × (bit_or a b % 2 ≡ max (a % 2) (b % 2))
or_halves zero b = simp bit_or-bitwise (ground arith)
or_halves (suc a) b = simp bit_or-bitwise (
    ground (
      arith,
      enough_digits (λ x. x) max a (suc a / 2) (suc a / 2) (b / 2) (omega arith) (omega arith),
    ))

or-zero : (n a : ℕ) → a ≤ n → bit_or a 0 ≡ a
or-zero zero zero h = simp bit_or-bitwise refl
or-zero zero (suc a) h = absurd (omega arith)
or-zero (suc n) a h = omega (arith, or_halves a 0, or-zero n (a / 2) (omega arith))

and-zero : (n a : ℕ) → a ≤ n → bit_and a 0 ≡ 0
and-zero zero zero h = simp bit_and-bitwise refl
and-zero zero (suc a) h = absurd (omega arith)
and-zero (suc n) a h = omega (arith, and_halves a 0, and-zero n (a / 2) (omega arith))

double : (q k : ℕ) → q * 2 ^ suc k ≡ (q * 2 ^ k) * 2
double q k = omega (arith, ap (λ (x : ℕ). q * x) (pow-suc 2 k))

-- `|` of a multiple of `2 ^ k` and a number below it adds them, whichever comes first.
pub or-low_high : (k q r : ℕ) → r < 2 ^ k → bit_or r (q * 2 ^ k) ≡ q * 2 ^ k + r
or-low_high zero q zero low = simp bit_or-bitwise (omega arith)
or-low_high zero q (suc r) low = absurd (omega arith)
or-low_high (suc k) q r low =
    let low' : r / 2 < 2 ^ k = omega (arith, pow-suc 2 k) in
    let half : (q * 2 ^ suc k) / 2 ≡ q * 2 ^ k = omega (arith, double q k) in
    let (high, digit) = or_halves r (q * 2 ^ suc k) in
    omega (arith, rw half at high, digit, double q k, or-low_high k q (r / 2) low')

pub or-high_low : (k q r : ℕ) → r < 2 ^ k → bit_or (q * 2 ^ k) r ≡ q * 2 ^ k + r
or-high_low zero q zero low = omega (arith, or-zero (q * 1) (q * 1) (omega arith))
or-high_low zero q (suc r) low = absurd (omega arith)
or-high_low (suc k) q r low =
    let low' : r / 2 < 2 ^ k = omega (arith, pow-suc 2 k) in
    let half : (q * 2 ^ suc k) / 2 ≡ q * 2 ^ k = omega (arith, double q k) in
    let (high, digit) = or_halves (q * 2 ^ suc k) r in
    omega (arith, rw half at high, digit, double q k, or-high_low k q (r / 2) low')

-- `<<` of `uint64` and of `unsigned`, by less than their width, and `>>`.
abbrev pub shl64 : ℕ → ℕ → ℕ
shl64 a k = (a * 2 ^ k) % 2 ^ 64

abbrev pub shl32 : ℕ → ℕ → ℕ
shl32 a k = (a * 2 ^ k) % 2 ^ 32

abbrev pub shr : ℕ → ℕ → ℕ
shr a k = a / 2 ^ k

pub pow_sum : (o j : ℕ) → 2 ^ (o + j) ≡ 2 ^ j * 2 ^ o
pow_sum zero j = rw (zero-add j) (omega arith)
pow_sum (suc o) j =
    rw (suc-add o j) (omega (arith, pow-suc 2 (o + j), pow_sum o j, double (2 ^ j) o))

pub pow_mono : {i j : ℕ} → i ≤ j → 2 ^ i ≤ 2 ^ j
pow_mono = pow-le-pow_right (omega arith)

-- The lowest bit, and the `w` above it.
split_one : (w a : ℕ) → a % 2 ^ suc w ≡ a % 2 + (a / 2) % 2 ^ w * 2
split_one w a =
    let same : a / 2 ^ suc w ≡ a / 2 / 2 ^ w =
      ap (λ m. a / m) (pow-suc 2 w ∙ mul_comm (2 ^ w) 2) ∙ sym (div-div-eq-div-mul a 2 (2 ^ w)) in
    let whole = mod-add-div' a (2 ^ suc w) in
    let whole' = rw same at whole in
    omega (arith, whole', mod-add-div' (a / 2) (2 ^ w), double (a / 2 / 2 ^ w) w)

shift_one : (o a : ℕ) → a / 2 ^ suc o ≡ a / 2 / 2 ^ o
shift_one o a =
    ap (λ m. a / m) (pow-suc 2 o ∙ mul_comm (2 ^ o) 2) ∙ sym (div-div-eq-div-mul a 2 (2 ^ o))

-- The lowest bits of a number: `o` of them, and `w` above those.
pub mod_split : (w o a : ℕ) → a % 2 ^ (o + w) ≡ a % 2 ^ o + (a / 2 ^ o) % 2 ^ w * 2 ^ o
mod_split w zero a = rw (zero-add w, div-one a) (omega arith)
mod_split w (suc o) a =
    rw (suc-add o w, shift_one o a)
      (omega (
        arith,
        split_one (o + w) a,
        split_one o a,
        mod_split w o (a / 2),
        double ((a / 2 / 2 ^ o) % 2 ^ w) o,
      ))

-- `&` with `w` ones is the remainder by `2 ^ w`.
and-ones : (w a : ℕ) → bit_and a (2 ^ w - 1) ≡ a % 2 ^ w
and-ones zero a = omega (arith, and-zero a a (omega arith))
and-ones (suc w) a =
    let half : (2 ^ suc w - 1) / 2 ≡ 2 ^ w - 1 = omega (arith, pow-suc 2 w, one-le-pow w 2) in
    let (high, digit) = and_halves a (2 ^ suc w - 1) in
    let split : a % 2 ^ suc w ≡ a % 2 + (a / 2) % 2 ^ w * 2 = split_one w a in
    omega (arith, rw half at high, digit, pow-suc 2 w, one-le-pow w 2, and-ones w (a / 2), split)

-- `&` with `w` ones over `o` zeros, and a shift by `o`.
pub and-field : (w o a : ℕ) → bit_and a ((2 ^ w - 1) * 2 ^ o) / 2 ^ o ≡ (a / 2 ^ o) % 2 ^ w
and-field w zero a =
    ap (λ m. bit_and a m / 1) (mul-one (2 ^ w - 1))
    ∙ div-one (bit_and a (2 ^ w - 1))
    ∙ and-ones w a
    ∙ ap (λ x. x % 2 ^ w) (sym (div-one a))
and-field w (suc o) a =
    let mask = (2 ^ w - 1) * 2 ^ suc o in
    let half : mask / 2 ≡ (2 ^ w - 1) * 2 ^ o = omega (arith, double (2 ^ w - 1) o) in
    let (high, _) = and_halves a mask in
    shift_one o (bit_and a mask)
    ∙ ap (λ x. x / 2 ^ o) (high ∙ ap (bit_and (a / 2)) half)
    ∙ and-field w o (a / 2)
    ∙ ap (λ x. x % 2 ^ w) (sym (shift_one o a))

-- Such an `&` alone keeps the field in its place.
pub and-in_place : (w o a : ℕ) → bit_and a ((2 ^ w - 1) * 2 ^ o) ≡ (a / 2 ^ o) % 2 ^ w * 2 ^ o
and-in_place w zero a =
    ap (bit_and a) (mul-one (2 ^ w - 1))
    ∙ and-ones w a
    ∙ ap (λ x. x % 2 ^ w) (sym (div-one a))
    ∙ sym (mul-one ((a / 1) % 2 ^ w))
and-in_place w (suc o) a =
    let mask = (2 ^ w - 1) * 2 ^ suc o in
    let half : mask / 2 ≡ (2 ^ w - 1) * 2 ^ o = omega (arith, double (2 ^ w - 1) o) in
    let (high, digit) = and_halves a mask in
    let rest = high ∙ ap (bit_and (a / 2)) half ∙ and-in_place w o (a / 2) in
    let moved = ap (λ x. x % 2 ^ w * 2 ^ suc o) (shift_one o a) in
    omega (arith, rest, digit, moved, double (2 ^ w - 1) o, double ((a / 2 / 2 ^ o) % 2 ^ w) o)
