-- ===== src/Mapping.antt =====
-- The mapping of addresses to ranks, banks, rows, columns and blocks (MemoryMapping, include/Bank.H and
-- the start of Bank.cpp). The width, the offset and the mask of each are a `Field` here. A shift by as
-- much as a word has bits and the logarithm of 0 are undefined in the source.
pub mod Fields
pub mod Address
pub mod Sizes
pub mod Blocks
use hmmsim_server.Prelude.{
  ℕ, zero, suc, ◌+◌, ◌*◌, ◌/◌, ◌%◌, ◌^◌, ltb, if◌then◌else◌, word, ◌-◌, mul64, shl64, shl32, shr,
}
use Prim.Native.Nat.{bit_and, bit_or}

pub data MappingType : Type 0 where
  row_rank_bank_col row_col_rank_bank rank_bank_row_col : MappingType

pub record Field : Type 0 where
  pub width : ℕ
  pub offset : ℕ
  pub mask : ℕ

pub record Offsets : Type 0 where
  pub rank : ℕ
  pub bank : ℕ
  pub row : ℕ
  pub column : ℕ
  pub block : ℕ

pub record MemoryMapping : Type 0 where
  pub num_ranks : ℕ
  pub banks_per_rank : ℕ
  pub rows_per_bank : ℕ
  pub blocks_per_row : ℕ
  pub block_size : ℕ
  pub num_banks : ℕ
  pub total_size : ℕ
  pub rank : Field
  pub bank : Field
  pub row : Field
  pub column : Field
  pub block : Field

-- `(unsigned)logb(n)`: the exponent of a number that `double` holds exactly, by halving it.
unfoldable pub logarithm : ℕ → ℕ → ℕ
logarithm zero n = 0
logarithm (suc fuel) n = let rest = logarithm fuel (n / 2) in if ltb n 2 then 0 else rest + 1

-- An `unsigned` has at most 32 digits.
abbrev pub logb : ℕ → ℕ
logb n = logarithm 32 n

-- The offsets in the order that the type of the mapping gives.
abbrev pub layout : MappingType → (rank bank row column block : ℕ) → Offsets
layout row_rank_bank_col r b w c k = record {
  block = 0;
  column = k;
  bank = k + c;
  rank = k + c + b;
  row = k + c + b + r;
}
layout row_col_rank_bank r b w c k = record {
  block = 0;
  bank = k;
  rank = k + b;
  column = k + b + r;
  row = k + b + r + c;
}
layout rank_bank_row_col r b w c k = record {
  block = 0;
  column = k;
  row = k + c;
  bank = k + c + w;
  rank = k + c + w + b;
}

-- The loop that builds a mask, over the bits that are left from bit `i` on.
unfoldable pub set_bits : ℕ → ℕ → ℕ → ℕ
set_bits zero i mask = mask
set_bits (suc n) i mask = set_bits n (i + 1) (bit_or mask (shl64 1 i))

abbrev pub field : ℕ → ℕ → Field
field width offset = record { width = width; offset = offset; mask = set_bits width offset 0 }

-- The constructor from the widths on.
unfoldable pub build : MappingType → (rank bank row column block : ℕ) → MemoryMapping
build kind r b w c k =
    let banks = (shl32 1 r * shl32 1 b) % 2 ^ 32 in
    let at = layout kind r b w c k in
    record {
      num_ranks = shl32 1 r;
      banks_per_rank = shl32 1 b;
      rows_per_bank = shl32 1 w;
      blocks_per_row = shl32 1 c;
      block_size = shl32 1 k;
      num_banks = banks;
      total_size = mul64 (mul64 (mul64 banks (shl32 1 w)) (shl32 1 c)) (shl32 1 k);
      rank = field r at.rank;
      bank = field b at.bank;
      row = field w at.row;
      column = field c at.column;
      block = field k at.block;
    }

unfoldable pub init : MappingType → (ranks banks rows blocks size : ℕ) → MemoryMapping
init kind ranks banks rows blocks size =
    build kind (logb ranks) (logb banks) (logb rows) (logb blocks) (logb size)

abbrev pub index_in : Field → ℕ → ℕ
index_in f addr = shr (bit_and addr f.mask) f.offset

abbrev pub get_rank_index : MemoryMapping → ℕ → ℕ
get_rank_index m = index_in m.rank

abbrev pub get_bank_index : MemoryMapping → ℕ → ℕ
get_bank_index m = index_in m.bank

abbrev pub get_row_index : MemoryMapping → ℕ → ℕ
get_row_index m = index_in m.row

abbrev pub get_column_index : MemoryMapping → ℕ → ℕ
get_column_index m = index_in m.column

abbrev pub get_block_index : MemoryMapping → ℕ → ℕ
get_block_index m = index_in m.block

unfoldable pub get_bank_id : MemoryMapping → ℕ → ℕ
get_bank_id m addr =
    bit_or (shl64 (get_rank_index m addr) m.bank.width) (get_bank_index m addr) % 2 ^ 32

-- `addr & ~blockMask`: the complement has the other bits of an `addrint`.
unfoldable pub get_block_address : MemoryMapping → ℕ → ℕ
get_block_address m addr = bit_and addr (word - 1 - m.block.mask)
