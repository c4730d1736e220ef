-- ===== src/Tests/Mapping.antt =====
-- `MemoryMapping` (start of Bank.cpp) with the sizes of the DRAM that sim.cpp sets by default: 8 ranks of
-- 8 banks of 16384 rows of 64 blocks of 64 bytes.
use hmmsim_server.Prelude.{◌+◌, ◌*◌, ◌<◌, ◌≡◌, arith}
use hmmsim_server.Mapping.{
  MemoryMapping, row_rank_bank_col, row_col_rank_bank, build, init, get_bank_id,
}
use hmmsim_server.Mapping.{
  get_rank_index, get_bank_index, get_row_index, get_column_index, get_block_index,
}
use hmmsim_server.Mapping.Address.{address_of, address_of_lem, get_bank_id_lem}
use hmmsim_server.Mapping.Sizes.{Rounded, init_lem}

abbrev default_dram : MemoryMapping
default_dram = build row_rank_bank_col 3 3 14 6 6

address_of_lem_example :
    address_of default_dram
      (get_rank_index default_dram 3735928559)
      (get_bank_index default_dram 3735928559)
      (get_row_index default_dram 3735928559)
      (get_column_index default_dram 3735928559)
      (get_block_index default_dram 3735928559)
    ≡ 3735928559
unfolding build
address_of_lem_example =
    address_of_lem row_rank_bank_col 3 3 14 6 6 3735928559 (ground arith) (ground arith)
      (ground arith) (ground arith) (ground arith) (ground arith)

get_bank_id_lem_example :
    (get_bank_id default_dram 3735928559
      ≡ get_rank_index default_dram 3735928559 * default_dram.banks_per_rank
        + get_bank_index default_dram 3735928559)
    × (get_bank_id default_dram 3735928559 < default_dram.num_banks)
get_bank_id_lem_example =
    get_bank_id_lem row_rank_bank_col 3 3 14 6 6 3735928559 (ground arith) (ground arith)

abbrev odd_sizes : MemoryMapping
odd_sizes = init row_col_rank_bank 9 8 20000 100 64

init_lem_example :
    Rounded 9 odd_sizes.num_ranks
    × Rounded 8 odd_sizes.banks_per_rank
    × Rounded 20000 odd_sizes.rows_per_bank
    × Rounded 100 odd_sizes.blocks_per_row
    × Rounded 64 odd_sizes.block_size
init_lem_example =
    init_lem row_col_rank_bank 9 8 20000 100 64 (ground arith, ground arith)
      (ground arith, ground arith) (ground arith, ground arith) (ground arith, ground arith)
      (ground arith, ground arith)
