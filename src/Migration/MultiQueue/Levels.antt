-- ===== src/Migration/MultiQueue/Levels.antt =====
-- Which queue `MultiQueueMigrationPolicy` (Migration.cpp) gives a page, by its access count.
use native.Mathlib.Nat.{add-suc, pow-succ', add-zero, zero-add, le_refl}
use hmmsim_server.Prelude.{
  ℕ, zero, suc, ◌+◌, ◌^◌, ◌≤◌, ◌<◌, ◌≡◌, refl, inl, inr, Bool-cases, none, some, ltb, ltb→lt, arith,
}
use hmmsim_server.Migration.MultiQueue.{Config, init_thresholds, first_below, level_of}

pow_le : (i n : ℕ) → 2 ^ i ≤ 2 ^ (i + n)
pow_le i zero = rw (add-zero i) (le_refl (2 ^ i))
pow_le i (suc n) = rw (add-suc i n, pow-succ' 2 (i + n)) (omega (arith, pow_le i n))

first_below-init :
    (n i count : ℕ)
    → 2 ^ i ≤ count
    → count < 2 ^ (i + n)
    → (l : ℕ) × (first_below count i (init_thresholds n i) ≡ some l)
      × (2 ^ l ≤ count)
      × (count < 2 ^ (l + 1))
unfolding init_thresholds first_below
first_below-init zero i count low high = absurd (ground arith)
first_below-init (suc zero) i count low high = (i, ground arith, low, high)
first_below-init (suc (suc n)) i count low high = elim (Bool-cases (ltb count (2 ^ (i + 1)))) [
  | inl here ↦ (i, rw here, low, ltb→lt _ _ here)
  | inr later ↦
      let (l, found, low', high') =
        first_below-init (suc n) (i + 1) count (ground arith) (ground arith) in
      (l, rw later found, low', high')
]

first_below-hot :
    (n i count : ℕ) → 2 ^ (i + n) ≤ count → first_below count i (init_thresholds n i) ≡ none
unfolding init_thresholds first_below
first_below-hot zero i count high = refl
first_below-hot (suc zero) i count high = ground arith
first_below-hot (suc (suc n)) i count high =
    let more = pow_le (i + 1) (suc n) in
    ground (arith, first_below-hot (suc n) (i + 1) count (ground arith))

module _ (n : ℕ) (c : Config) (started : c.thresholds ≡ init_thresholds n 0) where
  -- With the thresholds of the constructor, for `n + 1` queues, a count that is not 0 and is below
  -- `2 ^ n` goes to the queue of its logarithm to the base two.
  pub level_of_lem :
      (count : ℕ)
      → 1 ≤ count
      → count < 2 ^ n
      → (2 ^ level_of count c ≤ count) × (count < 2 ^ (level_of count c + 1))
  unfolding level_of
  level_of_lem count low high =
      let (l, found, low', high') = first_below-init n 0 count low (rw (zero-add n) high) in
      rw (level_of, started, found) (low', high')

  -- With the thresholds of the constructor, for `n + 1` queues, a count of `2 ^ n` or more goes to the
  -- queue 0, that of the pages with the fewest accesses.
  pub level_of-hot : (count : ℕ) → 2 ^ n ≤ count → level_of count c ≡ 0
  unfolding level_of
  level_of-hot count high = rw (level_of, started, first_below-hot n 0 count (rw (zero-add n) high))
