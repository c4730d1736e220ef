-- ===== src/Mapping/Sizes.antt =====
-- The sizes that the constructor of MemoryMapping rounds to (start of Bank.cpp).
use native.Mathlib.Nat.{pow-suc}
use hmmsim_server.Prelude.{
  ℕ, zero, suc, ◌*◌, ◌/◌, ◌^◌, ◌≤◌, ◌<◌, ◌≡◌, ◌∙◌, true, false, inl, inr, arith, shl32,
}
use hmmsim_server.Prelude.{Bool-cases, ltb, if_true, if_false}
use hmmsim_server.Mapping.{MappingType, logarithm, logb, init, build}

module _ (fuel n : ℕ) where
  small-log : ltb n 2 ≡ true → logarithm (suc fuel) n ≡ 0
  unfolding logarithm
  small-log h = if_true _ _ h

  large-log : ltb n 2 ≡ false → logarithm (suc fuel) n ≡ suc (logarithm fuel (n / 2))
  unfolding logarithm
  large-log h = if_false _ _ h ∙ omega arith

-- The logarithm is the one rounded down.
pub logarithm-bounds :
    (fuel n : ℕ)
    → 1 ≤ n
    → n < 2 ^ fuel
    → (2 ^ logarithm fuel n ≤ n) × (n < 2 ^ suc (logarithm fuel n))
logarithm-bounds zero n low high = absurd (omega arith)
logarithm-bounds (suc fuel) n low high = elim (Bool-cases (ltb n 2)) [
  | inl one ↦ rw (small-log fuel n one) (omega arith, ground arith)
  | inr more ↦
      let high' : n / 2 < 2 ^ fuel = omega (arith, pow-suc 2 fuel) in
      let (low, high) = logarithm-bounds fuel (n / 2) (ground arith) high' in
      let l = logarithm fuel (n / 2) in
      rw (large-log fuel n more)
        (omega (arith, pow-suc 2 l), omega (arith, pow-suc 2 l, pow-suc 2 (suc l)))
]

-- The greatest power of two that is no more than a size.
abbrev pub Rounded : ℕ → ℕ → Type 0
Rounded size rounded = (e : ℕ) × (rounded ≡ 2 ^ e) × (rounded ≤ size) × (size < 2 * rounded)

pub shl-logb : (n : ℕ) → 1 ≤ n → n < 2 ^ 32 → Rounded n (shl32 1 (logb n))
shl-logb n low high =
    let (l, h) = logarithm-bounds 32 n low high in
    let same : shl32 1 (logb n) ≡ 2 ^ logb n = omega arith in
    (logb n, same, omega arith, omega (arith, pow-suc 2 (logb n)))

-- The constructor rounds each of the five sizes that it is given to the greatest power of two that is no
-- more than it, if the size is an `unsigned` and not 0.
pub init_lem :
    (kind : MappingType) (ranks banks rows blocks size : ℕ)
    → (1 ≤ ranks) × (ranks < 2 ^ 32)
    → (1 ≤ banks) × (banks < 2 ^ 32)
    → (1 ≤ rows) × (rows < 2 ^ 32)
    → (1 ≤ blocks) × (blocks < 2 ^ 32)
    → (1 ≤ size) × (size < 2 ^ 32)
    → let m = init kind ranks banks rows blocks size in
      Rounded ranks m.num_ranks
      × Rounded banks m.banks_per_rank
      × Rounded rows m.rows_per_bank
      × Rounded blocks m.blocks_per_row
      × Rounded size m.block_size
unfolding init build
init_lem kind ranks banks rows blocks size (r, r') (b, b') (w, w') (c, c') (k, k') = (
  shl-logb ranks r r',
  shl-logb banks b b',
  shl-logb rows w w',
  shl-logb blocks c c',
  shl-logb size k k',
)
