-- ===== src/Mapping/Blocks.antt =====
-- `getBlockAddress` and `getBlockIndex` of MemoryMapping (include/Bank.H).
use Prim.Native.Nat.{bit_and}
use native.Mathlib.Nat.{mod-eq_of_lt, mul-mod_left, div-one, one-le-pow}
use hmmsim_server.Prelude.{ℕ, ◌+◌, ◌-◌, ◌*◌, ◌/◌, ◌%◌, ◌^◌, ◌<◌, ◌≡◌, ap, ◌∙◌, arith, word, shl32}
use hmmsim_server.Prelude.{and-in_place, mod_split}
use hmmsim_server.Mapping.{
  MappingType, field, index_in, set_bits, build, get_block_address, get_block_index,
}
use hmmsim_server.Mapping.{row_rank_bank_col, row_col_rank_bank, rank_bank_row_col}
use hmmsim_server.Mapping.Fields.{run_of_ones, set_bits-mask, index-field}
use hmmsim_server.Mapping.Address.{shl-one}

-- The complement of `k` ones is a run of ones above them.
complement : (k n : ℕ) → k + n ≡ 64 → word - 1 - (2 ^ k - 1) * 1 ≡ (2 ^ n - 1) * 2 ^ k
complement k n all =
    let top : 2 ^ (k + n) ≡ 2 ^ 64 = ap (λ (x : ℕ). 2 ^ x) all in
    omega (arith, run_of_ones n k, top, one-le-pow k 2)

-- What is left of an address without its `k` lowest bits.
pub rest_of :
    (k n a : ℕ) → k + n ≡ 64 → bit_and a (word - 1 - set_bits k 0 0) ≡ (a / 2 ^ k) % 2 ^ n * 2 ^ k
rest_of k n a all =
    let mask = set_bits-mask k 0 (omega arith) in
    ap (λ m. bit_and a (word - 1 - m)) mask
    ∙ ap (bit_and a) (complement k n all)
    ∙ and-in_place n k a

block_parts :
    (k n a : ℕ)
    → k + n ≡ 64
    → k < 32
    → a < word
    → let rest = bit_and a (word - 1 - set_bits k 0 0) in
      (rest + index_in (field k 0) a ≡ a) × (rest % shl32 1 k ≡ 0)
block_parts k n a all small fits =
    let top : a % 2 ^ (k + n) ≡ a = ap (λ (x : ℕ). a % 2 ^ x) all ∙ mod-eq_of_lt fits in
    let low : index_in (field k 0) a ≡ a % 2 ^ k =
      index-field k 0 a (omega arith) ∙ ap (λ x. x % 2 ^ k) (div-one a) in
    let rest = rest_of k n a all in
    (
      omega (arith, rest, low, top, mod_split n k a),
      ap (λ x. x % shl32 1 k) rest
          ∙ ap (λ m. ((a / 2 ^ k) % 2 ^ n * 2 ^ k) % m) (shl-one k small)
          ∙ mul-mod_left ((a / 2 ^ k) % 2 ^ n) (2 ^ k),
    )

-- The block address and the block index of an address add up to it, and the block address is a
-- multiple of the block size, whatever the type of the mapping, if the block size is an `unsigned`.
pub get_block_address_lem :
    (kind : MappingType) (r b w c k addr : ℕ)
    → k < 32
    → addr < word
    → let m = build kind r b w c k in
      (get_block_address m addr + get_block_index m addr ≡ addr)
      × (get_block_address m addr % m.block_size ≡ 0)
unfolding get_block_address build
get_block_address_lem row_rank_bank_col r b w c k addr small fits =
    block_parts k (64 - k) addr (omega arith) small fits
get_block_address_lem row_col_rank_bank r b w c k addr small fits =
    block_parts k (64 - k) addr (omega arith) small fits
get_block_address_lem rank_bank_row_col r b w c k addr small fits =
    block_parts k (64 - k) addr (omega arith) small fits
