-- ===== src/Tests/Counts.antt =====
-- The counters, the rates and the limits (Counter.cpp, Partition.cpp, Migration.cpp) at small states.
use hmmsim_server.Prelude.{◌%◌, ◌≡◌, ◌⊎◌, true, false, none, [], ◌∷◌, word, arith}
use hmmsim_server.Counter.{Counter, Readings, value_between}
use hmmsim_server.Counter.Ranges.{total_in, value_between-total}
use hmmsim_server.Partition.{OfflinePartition, instructions, set_rates, calculate}
use hmmsim_server.Partition.Rates.{calculate-fixed}
use hmmsim_server.Migration.Base.{Base, dram_first, complete}
use hmmsim_server.Migration.Base.Completion.{complete-none}

abbrev counter : Counter
counter = record { value = 5; total_value = 7; handled = true; interrupt_value = 8 }

abbrev readings : Readings
readings = (10, (0, 3) ∷ []) ∷ (20, (1, 9) ∷ (0, 4) ∷ []) ∷ (30, (0, 5) ∷ []) ∷ []

value_between-total_example : value_between 10 30 0 readings ≡ total_in 10 30 0 readings % word
value_between-total_example =
    value_between-total 10 30 0 readings
      ((ground arith, (ground arith, tt)), ((ground arith, tt), (tt, tt))) (ground arith)

abbrev partition : OfflinePartition
partition = record { period_type = instructions; rate_space_size = 9; rate_per_pid = 50 ∷ 50 ∷ [] }

calculate-fixed_example :
    (calculate (λ _. readings) 6 counter partition ≡ partition)
    ⊎ ((calculate (λ _. readings) 6 counter partition ≡ set_rates 0 partition)
        × ((set_rates 0 partition).rate_per_pid ≡ 10 ∷ 90 ∷ []))
calculate-fixed_example =
    calculate-fixed (λ _. readings) 6 counter partition
      (λ _. ((ground arith, tt), ((ground arith, (ground arith, tt)), ((ground arith, tt), tt))))

abbrev base : Base
base = record {
  dram_pages = 8;
  policy = dram_first;
  num_pids = 1;
  complete_threshold = 4;
  rollback_timeout = 100;
  dram_pages_left = 3;
  max_free_dram_pages = 2;
  dram_full = false;
  progress = record { pid = 0; page = 6; blocks_left = 1; start_time = 20 } ∷ [];
}

complete-none_example : complete base ≡ none
complete-none_example = complete-none base
