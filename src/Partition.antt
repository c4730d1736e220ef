-- ===== src/Partition.antt =====
-- `OfflinePartition::calculate` (Partition.cpp): it is to choose the rates of two processes by the
-- cycles that traces of earlier runs took.
pub mod Rates
use hmmsim_server.Prelude.{
  ℕ, zero, suc, ◌+◌, ◌-◌, ◌*◌, Bool, true, false, List, [], ◌∷◌, word, ltb, ◌==◌, if◌then◌else◌,
  add64, sub64,
}
use hmmsim_server.Counter.{Counter, Readings, value_at, value_between, get_total_value}

-- `periodType`; any other string does nothing, since the assertion there is on a string literal.
pub data PeriodType : Type 0 where
  cycles instructions other : PeriodType

-- The rates in percent; the source divides them by 100.
pub record OfflinePartition : Type 0 where
  pub period_type : PeriodType
  pub rate_space_size : ℕ
  pub rate_per_pid : List ℕ

-- `rateSpace[j]` and `rateSpaceReversed[j]`.
abbrev pub rate_space : ℕ → ℕ
rate_space j = 10 + 10 * j

abbrev pub rate_space_reversed : ℕ → ℕ
rate_space_reversed j = 90 - 10 * j

-- The loop over `j`, `n` more from `j` on, at `min` and `minj`; `value j` is what the reader says.
unfoldable pub search_rates : (ℕ → ℕ) → ℕ → ℕ → ℕ × ℕ → ℕ × ℕ
search_rates value zero j best = best
search_rates value (suc n) j (min, minj) =
    search_rates value n (j + 1) (if ltb min (value j) then (value j, j) else (min, minj))

-- The loop over `i`, which the value does not depend on.
unfoldable pub search : (ℕ → ℕ) → ℕ → ℕ → ℕ × ℕ → ℕ × ℕ
search value size zero best = best
search value size (suc n) best = search value size n (search_rates value size 0 best)

-- `numeric_limits<uint64>::max()` and 0 are what the search starts from.
unfoldable pub choose : (ℕ → ℕ) → ℕ → ℕ
choose value size = (search value size size (word - 1, 0)).1

unfoldable pub set_rates : ℕ → OfflinePartition → OfflinePartition
set_rates j s = record s { rate_per_pid = rate_space j ∷ rate_space_reversed j ∷ [] }

-- The trace's key "cycles".
abbrev pub cycles_key : ℕ
cycles_key = 0

-- The branches of `calculate`; `readers j` is the reader of the row 8 for the rate `j`.
unfoldable pub calculate_for :
    PeriodType → (ℕ → Readings) → ℕ → Counter → OfflinePartition → OfflinePartition
calculate_for cycles readers now counter s =
    let start = get_total_value counter in
    let stop = sub64 (add64 start counter.value) 1 in
    let j = choose (λ j. value_between start stop cycles_key (readers j)) s.rate_space_size in
    if now == 0 then s else if counter.value == 0 then set_rates 0 s else set_rates j s
calculate_for instructions readers now counter s =
    let start = get_total_value counter in
    set_rates (choose (λ j. value_at start cycles_key (readers j)) s.rate_space_size) s
calculate_for other readers now counter s = s

-- `calculate`
unfoldable pub calculate : (ℕ → Readings) → ℕ → Counter → OfflinePartition → OfflinePartition
calculate readers now counter s = calculate_for s.period_type readers now counter s
