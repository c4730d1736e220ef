-- ===== src/Partition/Rates.antt =====
-- Which rates `OfflinePartition::calculate` (Partition.cpp) chooses.
use hmmsim_server.Prelude.{
  ℕ, zero, suc, ◌+◌, ◌-◌, ◌<◌, ◌≡◌, refl, ◌∙◌, ap, ◌⊎◌, inl, inr, false, Bool-cases, [], ◌∷◌, All,
  length, sub64, word, ltb, ◌==◌, if_true, if_false, add64, arith,
}
use hmmsim_server.Counter.{
  Counter, Row, Readings, find_key, find_reading, value_or_zero, value_at, value_between, sum_range,
  lower_bound, get_total_value,
}
use hmmsim_server.Partition.{
  PeriodType, cycles, instructions, other, OfflinePartition, search_rates, search, choose,
  set_rates, cycles_key, calculate_for, calculate,
}

-- The values of a row are of the type `uint64`.
abbrev pub RowFits : Row → Type 0
RowFits = All (λ r. r.1 < word)

abbrev pub Fits : Readings → Type 0
Fits = All (λ r. RowFits r.1)

find_key-lt : (key : ℕ) (row : Row) → RowFits row → value_or_zero (find_key key row) < word
unfolding find_key
find_key-lt key [] h = ground arith
find_key-lt key ((k, v) ∷ row) h = ground (arith, find_key-lt key row h.1)

value_at-lt : (instr key : ℕ) (m : Readings) → Fits m → value_at instr key m < word
unfolding value_at find_reading
value_at-lt instr key [] h = ground arith
value_at-lt instr key ((k, row) ∷ m) h = elim (Bool-cases (k == instr)) [
  | inl here ↦ rw here (find_key-lt key row h.0)
  | inr later ↦ rw later (value_at-lt instr key m h.1)
]

sum_range-lt :
    (key stop : ℕ) (m : Readings) (value : ℕ) → value < word → sum_range key stop m value < word
unfolding sum_range
sum_range-lt key stop [] value h = h
sum_range-lt key stop ((k, row) ∷ m) value h =
    ground (
      arith,
      sum_range-lt key stop m (add64 value (value_or_zero (find_key key row))) (ground arith),
    )

value_between-lt : (lo hi key : ℕ) (m : Readings) → value_between lo hi key m < word
unfolding value_between
value_between-lt lo hi key m =
    ground (arith, sum_range-lt key (length (lower_bound hi m)) (lower_bound lo m) 0 (ground arith))

module _ (value : ℕ → ℕ) (fits : (j : ℕ) → value j < word) where
  search_rates-keeps : (n j : ℕ) → search_rates value n j (word - 1, 0) ≡ (word - 1, 0)
  unfolding search_rates
  search_rates-keeps zero j = refl
  search_rates-keeps (suc n) j =
      let low : ltb (word - 1) (value j) ≡ false = let h = fits j in ground arith in
      rw low (search_rates-keeps n (j + 1))

  search-keeps : (size n : ℕ) → search value size n (word - 1, 0) ≡ (word - 1, 0)
  unfolding search
  search-keeps size zero = refl
  search-keeps size (suc n) = rw (search_rates-keeps size 0) (search-keeps size n)

  choose-zero : (size : ℕ) → choose value size ≡ 0
  unfolding choose
  choose-zero size = rw (choose, search-keeps size size)

calculate_for-fixed :
    (t : PeriodType) (readers : ℕ → Readings) (now : ℕ) (counter : Counter) (s : OfflinePartition)
    → ((j : ℕ) → Fits (readers j))
    → (calculate_for t readers now counter s ≡ s)
      ⊎ (calculate_for t readers now counter s ≡ set_rates 0 s)
unfolding calculate_for
calculate_for-fixed cycles readers now counter s fits = elim (Bool-cases (now == 0)) [
  | inl start ↦ inl (if_true _ _ start)
  | inr runs ↦ elim (Bool-cases (counter.value == 0)) [
    | inl idle ↦ inr (if_false _ _ runs ∙ if_true _ _ idle)
    | inr busy ↦ inr (
        if_false _ _ runs
        ∙ if_false _ _ busy
        ∙ ap (λ j. set_rates j s)
            (choose-zero (λ j. value_between first last cycles_key (readers j))
              (λ j. value_between-lt first last cycles_key (readers j)) s.rate_space_size))
  ]
]
  where
    first : ℕ
    first = get_total_value counter

    last : ℕ
    last = sub64 (add64 first counter.value) 1
calculate_for-fixed instructions readers now counter s fits = inr (
    ap (λ j. set_rates j s)
      (choose-zero (λ j. value_at (get_total_value counter) cycles_key (readers j))
        (λ j. value_at-lt (get_total_value counter) cycles_key (readers j) (fits j))
        s.rate_space_size))
calculate_for-fixed other readers now counter s fits = inl refl

-- Whatever the traces hold, if each number in them fits into 64 bits, the partition stays as it is,
-- or gets the rates 10 and 90 percent: the search for the least cycles never finds any, since it
-- asks for more than the highest number.
pub calculate-fixed :
    (readers : ℕ → Readings) (now : ℕ) (counter : Counter) (s : OfflinePartition)
    → ((j : ℕ) → Fits (readers j))
    → (calculate readers now counter s ≡ s)
      ⊎ ((calculate readers now counter s ≡ set_rates 0 s)
          × ((set_rates 0 s).rate_per_pid ≡ 10 ∷ 90 ∷ []))
unfolding calculate set_rates
calculate-fixed readers now counter s fits =
    elim (calculate_for-fixed s.period_type readers now counter s fits) [
      | inl same ↦ inl same
      | inr first ↦ inr (first, refl)
    ]
