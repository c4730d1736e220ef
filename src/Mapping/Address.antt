-- ===== src/Mapping/Address.antt =====
-- The indices of an address, and what they say of it (MemoryMapping, include/Bank.H and the start of
-- Bank.cpp).
use mathlib.Core.Path.{subst}
use Prim.Native.Nat.{bit_or}
use native.Mathlib.Nat.{
  one-le-pow, mul-le-mul_right, mod-lt, div-one, pow-suc, mul_comm, suc-mul, mod-eq_of_lt,
}
use hmmsim_server.Prelude.{ℕ, suc, ◌+◌, ◌*◌, ◌/◌, ◌%◌, ◌^◌, ◌≤◌, ◌<◌, ◌≡◌, ap, sym, ◌∙◌, arith}
use hmmsim_server.Prelude.{shl32, shl64, mul64, or-high_low, pow_sum, pow_mono}
use hmmsim_server.Mapping.{MappingType, row_rank_bank_col, row_col_rank_bank, rank_bank_row_col}
use hmmsim_server.Mapping.{MemoryMapping, layout, field, index_in, build, get_bank_id}
use hmmsim_server.Mapping.{
  get_rank_index, get_bank_index, get_row_index, get_column_index, get_block_index,
}
use hmmsim_server.Mapping.Fields.{above, index-field}

-- The numbers that the indices stand for, at their offsets.
unfoldable pub address_of : MemoryMapping → (rank bank row column block : ℕ) → ℕ
address_of m rank bank row column block =
    rank * 2 ^ m.rank.offset
    + bank * 2 ^ m.bank.offset
    + row * 2 ^ m.row.offset
    + column * 2 ^ m.column.offset
    + block * 2 ^ m.block.offset

indices_of : MemoryMapping → ℕ → ℕ
unfolding address_of
indices_of m addr =
    address_of m (get_rank_index m addr) (get_bank_index m addr) (get_row_index m addr)
      (get_column_index m addr) (get_block_index m addr)

lowest : (k a : ℕ) → k ≤ 64 → a % 2 ^ k ≡ index_in (field k 0) a
lowest k a fits = sym (index-field k 0 a (omega arith) ∙ ap (λ x. x % 2 ^ k) (div-one a))

address-low :
    (kind : MappingType) (r b w c k a : ℕ)
    → r + b + w + c + k ≤ 64
    → indices_of (build kind r b w c k) a ≡ a % 2 ^ (r + b + w + c + k)
unfolding indices_of address_of build
address-low row_rank_bank_col r b w c k a fits =
    let order : k + c + b + r + w ≡ r + b + w + c + k = omega arith in
    omega (
      arith,
      lowest k a (omega arith),
      above c k a (omega arith),
      above b (k + c) a (omega arith),
      above r (k + c + b) a (omega arith),
      above w (k + c + b + r) a (omega arith),
      ap (λ (n : ℕ). a % 2 ^ n) order,
    )
address-low row_col_rank_bank r b w c k a fits =
    let order : k + b + r + c + w ≡ r + b + w + c + k = omega arith in
    omega (
      arith,
      lowest k a (omega arith),
      above b k a (omega arith),
      above r (k + b) a (omega arith),
      above c (k + b + r) a (omega arith),
      above w (k + b + r + c) a (omega arith),
      ap (λ (n : ℕ). a % 2 ^ n) order,
    )
address-low rank_bank_row_col r b w c k a fits =
    let order : k + c + w + b + r ≡ r + b + w + c + k = omega arith in
    omega (
      arith,
      lowest k a (omega arith),
      above c k a (omega arith),
      above w (k + c) a (omega arith),
      above b (k + c + w) a (omega arith),
      above r (k + c + w + b) a (omega arith),
      ap (λ (n : ℕ). a % 2 ^ n) order,
    )

-- A size of fewer than 2 ^ 32, and of 2 ^ 64.
below : {i j : ℕ} → i < j → 2 ^ i < 2 ^ j
below {i} {j} h =
    omega (arith, pow-suc 2 i, one-le-pow i 2, pow_mono {i = suc i} {j = j} (omega arith))

pub shl-one : (x : ℕ) → x < 32 → shl32 1 x ≡ 2 ^ x
shl-one x h = omega (arith, below {i = x} {j = 32} h)

mul-powers : (x y : ℕ) → x + y < 64 → mul64 (2 ^ x) (2 ^ y) ≡ 2 ^ (x + y)
mul-powers x y h =
    ap (λ n. n % 2 ^ 64) (mul_comm (2 ^ x) (2 ^ y) ∙ sym (pow_sum x y))
    ∙ omega (arith, below {i = x + y} {j = 64} h)

banks-power : (r b : ℕ) → r + b < 32 → (shl32 1 r * shl32 1 b) % 2 ^ 32 ≡ 2 ^ (r + b)
banks-power r b h =
    rw (shl-one r (omega arith), shl-one b (omega arith))
      (ap (λ n. n % 2 ^ 32) (mul_comm (2 ^ r) (2 ^ b) ∙ sym (pow_sum r b))
        ∙ omega (arith, below {i = r + b} {j = 32} h))

total-size :
    (kind : MappingType) (r b w c k : ℕ)
    → r + b < 32
    → w < 32
    → c < 32
    → k < 32
    → r + b + w + c + k < 64
    → (build kind r b w c k).total_size ≡ 2 ^ (r + b + w + c + k)
unfolding build
total-size kind r b w c k banks rows columns blocks fits =
    rw
      (
        banks-power r b banks,
        shl-one w rows,
        shl-one c columns,
        shl-one k blocks,
        mul-powers (r + b) w (omega arith),
        mul-powers (r + b + w) c (omega arith),
      )
      (mul-powers (r + b + w + c) k fits)

-- For a mapping of any of the three types, whose sizes and whose total size fit into the types that
-- hold them, every address below the total size is the one that its rank, bank, row, column and
-- block indices make up at their offsets: no two addresses have the same indices.
pub address_of_lem :
    (kind : MappingType) (r b w c k addr : ℕ)
    → r + b < 32
    → w < 32
    → c < 32
    → k < 32
    → r + b + w + c + k < 64
    → addr < (build kind r b w c k).total_size
    → let m = build kind r b w c k in
      address_of m
        (get_rank_index m addr)
        (get_bank_index m addr)
        (get_row_index m addr)
        (get_column_index m addr)
        (get_block_index m addr)
      ≡ addr
unfolding indices_of
address_of_lem kind r b w c k addr banks rows columns blocks fits inside =
    address-low kind r b w c k addr (omega arith)
    ∙ mod-eq_of_lt
        (subst (λ n. addr < n) (total-size kind r b w c k banks rows columns blocks fits) inside)

layout-fits :
    (kind : MappingType) (r b w c k : ℕ)
    → r + b + w + c + k < 64
    → let at = layout kind r b w c k in (at.rank + r ≤ 64) × (at.bank + b ≤ 64)
layout-fits row_rank_bank_col r b w c k fits = (omega arith, omega arith)
layout-fits row_col_rank_bank r b w c k fits = (omega arith, omega arith)
layout-fits rank_bank_row_col r b w c k fits = (omega arith, omega arith)

-- An index is below the number of values of its field.
pub index-lt : (w o a : ℕ) → o + w ≤ 64 → index_in (field w o) a < 2 ^ w
index-lt w o a fits =
    subst (λ i. i < 2 ^ w) (sym (index-field w o a fits))
      (mod-lt (a / 2 ^ o) (omega (arith, one-le-pow w 2)))

-- Two numbers side by side.
side_by_side :
    (r b i j : ℕ)
    → r + b < 32
    → i < 2 ^ r
    → j < 2 ^ b
    → (bit_or (shl64 i b) j % 2 ^ 32 ≡ i * 2 ^ b + j) × (i * 2 ^ b + j < 2 ^ (r + b))
side_by_side r b i j small rank bank =
    let most : suc i * 2 ^ b ≤ 2 ^ r * 2 ^ b = mul-le-mul_right (2 ^ b) rank in
    let sum : i * 2 ^ b + j < 2 ^ (r + b) =
      omega (arith, most, suc-mul i (2 ^ b), mul_comm (2 ^ r) (2 ^ b), pow_sum r b) in
    let whole : i * 2 ^ b + j < 2 ^ 32 = omega (arith, sum, below {i = r + b} {j = 32} small) in
    let shifted : shl64 i b ≡ i * 2 ^ b = mod-eq_of_lt (omega (arith, whole)) in
    (
      ap (λ x. bit_or x j % 2 ^ 32) shifted
          ∙ ap (λ x. x % 2 ^ 32) (or-high_low b i j bank)
          ∙ mod-eq_of_lt whole,
      sum,
    )

-- The number of the bank of an address counts the banks of the ranks before its own, and is below
-- the number of banks, the length of the array that it is an index of. This holds for every mapping
-- and address where the number of banks fits into an `unsigned` and the total size into 64 bits.
pub get_bank_id_lem :
    (kind : MappingType) (r b w c k addr : ℕ)
    → r + b < 32
    → r + b + w + c + k < 64
    → let m = build kind r b w c k in
      (get_bank_id m addr ≡ get_rank_index m addr * m.banks_per_rank + get_bank_index m addr)
      × (get_bank_id m addr < m.num_banks)
unfolding get_bank_id build
get_bank_id_lem kind r b w c k addr small fits =
    let (rank_fits, bank_fits) = layout-fits kind r b w c k fits in
    let at = layout kind r b w c k in
    let i = index_in (field r at.rank) addr in
    let j = index_in (field b at.bank) addr in
    let (same, inside) =
      side_by_side r b i j small (index-lt r at.rank addr rank_fits)
        (index-lt b at.bank addr bank_fits) in
    (
      same ∙ ap (λ n. i * n + j) (sym (shl-one b (omega arith))),
      omega (arith, same, inside, banks-power r b small),
    )
