-- ===== src/CacheModel.antt =====
-- `CacheModel` (Cache.cpp, include/Cache.H): the sets of a cache, the masks of an address, and the pages that
-- stay in the sets of another page (`remapTable`), under an address with the top bit set. The count of a
-- remap entry is pointed to by the inverse table; entries are numbered, and a pointer is such a number.
-- Statistics are left out, and `access` returns the block, from which the source makes `internalAddr`.
pub mod Remap
pub mod Addresses
pub mod Contents
pub mod Accesses
pub mod Refinement
pub mod Start
use hmmsim_server.Prelude.{
  ℕ, zero, suc, ◌+◌, ◌-◌, ◌*◌, ◌/◌, ◌%◌, ◌^◌, Bool, true, false, ◌&&◌, ◌||◌, not, List, [], ◌∷◌,
  Option, none, some, ltb, leb, ◌==◌, if◌then◌else◌, get_elem?, set, replicate, word, sign_bit,
  add64, shl64, shl32, shr,
}
use hmmsim_server.Prelude.Results.{Result, ok, fault, dangling, stopped, deref, assert, ◌>>=◌, ◌>>◌}
use Prim.Native.Nat.{bit_and, bit_or}
use hmmsim_server.Mapping.{Field, field, index_in, logarithm, logb}
use hmmsim_server.CacheSet
use hmmsim_server.CacheSet.{
  Block, Set, ReplacementPolicy, SetResult, invalid, no_eviction, eviction, writeback, Allocated,
  allocate,
}

pub data CacheResult : Type 0 where
  hit miss_without_eviction miss_with_eviction miss_with_writeback miss_without_free_block :
      CacheResult

pub record RemapEntry : Type 0 where
  pub page : ℕ
  pub node : ℕ
  pub addr : ℕ
  pub count : ℕ

pub record InvRemapEntry : Type 0 where
  pub page : ℕ
  pub addr : ℕ
  pub count_ptr : ℕ

pub record CacheModel : Type 0 where
  pub block_size : ℕ
  pub page_size : ℕ
  pub policy : ReplacementPolicy
  pub offset : Field
  pub index : Field
  pub tag : Field
  pub page_offset : Field
  pub page_index : Field
  pub sets : List Set
  pub timestamp : ℕ
  pub remap_table : List RemapEntry
  pub inv_remap_table : List InvRemapEntry
  pub next_node : ℕ

-- A block that holds nothing; its other fields are as they were.
abbrev pub emptied : Block → Block
emptied b = record b { valid = false }

-- The constructor, with what the fields of a block hold that it does not set. A `double` holds the number
-- of sets that the logarithm is taken of.
unfoldable pub init :
    Block → ReplacementPolicy → (cache_size block_size assoc page_size : ℕ) → Result CacheModel
init unset policy cache_size block_size assoc page_size =
    let size = shl32 1 (logb block_size) in
    let num_sets = cache_size / size / assoc in
    let o = logb size in
    let i = logarithm 64 num_sets in
    let p = logb page_size in
    if ltb block_size 8 || (num_sets == 0 || assoc == 0)
    then fault stopped
    else ok (record {
      block_size = size;
      page_size = shl32 1 p;
      policy = policy;
      offset = field o 0;
      index = field i o;
      tag = field (64 - o - i) (i + o);
      page_offset = field p 0;
      page_index = field (64 - p) p;
      sets = replicate num_sets (record { blocks = replicate assoc (emptied unset); pinned = [] });
      timestamp = 0;
      remap_table = [];
      inv_remap_table = [];
      next_node = 0;
    })

unfoldable pub get_index : CacheModel → ℕ → ℕ
get_index c addr = index_in c.index addr

unfoldable pub get_tag : CacheModel → ℕ → ℕ
get_tag c addr = shr (bit_and addr c.tag.mask) (c.index.width + c.offset.width)

unfoldable pub get_block_address : CacheModel → ℕ → ℕ
get_block_address c addr = bit_and addr (word - 1 - c.offset.mask)

unfoldable pub get_page_index : CacheModel → ℕ → ℕ
get_page_index c addr = shr addr c.page_offset.width

unfoldable pub get_page_offset : CacheModel → ℕ → ℕ
get_page_offset c addr = bit_and addr (word - 1 - c.page_index.mask)

unfoldable pub get_page_address : CacheModel → ℕ → ℕ → ℕ
unfolding get_page_offset
get_page_address c page offset = bit_or (shl64 page c.page_offset.width) (get_page_offset c offset)

abbrev pub top_bit : ℕ → Bool
top_bit addr = not (bit_and addr sign_bit == 0)

unfoldable pub find_remap : ℕ → List RemapEntry → Option RemapEntry
find_remap page [] = none
find_remap page (e ∷ es) = if e.page == page then some e else find_remap page es

unfoldable pub find_inv : ℕ → List InvRemapEntry → Option InvRemapEntry
find_inv page [] = none
find_inv page (e ∷ es) = if e.page == page then some e else find_inv page es

-- The address of a block of a page, where the page is remapped.
abbrev pub actual_in : CacheModel → ℕ → Option RemapEntry → Result ℕ
actual_in c addr none = ok addr
actual_in c addr (some e) =
    let moved = get_page_address c e.addr (get_page_offset c addr) in
    do assert (top_bit moved); ok moved

unfoldable pub get_actual_address : CacheModel → ℕ → Result ℕ
get_actual_address c addr = do
  assert (not (top_bit addr))
  actual_in c addr (find_remap (get_page_index c addr) c.remap_table)

-- A set of the array.
unfoldable pub set_at : CacheModel → ℕ → Result Set
set_at c i = deref (get_elem? c.sets i)

abbrev pub with_set : CacheModel → ℕ → Set → CacheModel
with_set c i s = record c { sets = set c.sets i s }

-- The counts of the entries.
unfoldable pub revise_count : (ℕ → ℕ) → ℕ → List RemapEntry → List RemapEntry
revise_count change node [] = []
revise_count change node (e ∷ es) =
    if e.node == node
    then record e { count = change e.count } ∷ es
    else e ∷ revise_count change node es

unfoldable pub count_of : ℕ → List RemapEntry → Result ℕ
count_of node [] = fault dangling
count_of node (e ∷ es) = if e.node == node then ok e.count else count_of node es

abbrev pub one_more : ℕ → ℕ
one_more n = (n + 1) % 2 ^ 32

abbrev pub one_less : ℕ → ℕ
one_less n = (n + 2 ^ 32 - 1) % 2 ^ 32

-- A miss for a remapped page counts.
abbrev pub count_miss : Option RemapEntry → CacheModel → CacheModel
count_miss none c = c
count_miss (some e) c = record c { remap_table = revise_count one_more e.node c.remap_table }

-- The address that an evicted block has in its set.
unfoldable pub evicted_address : CacheModel → ℕ → ℕ → ℕ
evicted_address c tag actual =
    bit_or (shl64 tag (c.index.width + c.offset.width))
      (bit_and (bit_and actual (word - 1 - c.tag.mask)) (word - 1 - c.offset.mask))

-- The address that the evicted block is known by. The last one of a remapped page ends the entries, whose
-- iterator is read once more after that.
abbrev pub known_address : CacheModel → ℕ → Option InvRemapEntry → Result (ℕ × CacheModel)
known_address c addr none = ok (addr, c)
known_address c addr (some e) = do
  assert (top_bit addr)
  n ← count_of e.count_ptr c.remap_table
  if one_less n == 0
      then fault dangling
      else ok (
        get_page_address c e.addr (get_page_offset c addr),
        record c { remap_table = revise_count one_less e.count_ptr c.remap_table },
      )

-- What an access returns, the evicted block's address and the block of the set.
pub record Accessed : Type 0 where
  pub result : CacheResult
  pub evicted_addr : Option ℕ
  pub block : Option ℕ

abbrev pub evict :
    CacheResult → Option ℕ → ℕ → Option ℕ → CacheModel → Result (Accessed × CacheModel)
evict result none actual block c = fault dangling
evict result (some tag) actual block c = do
  let evicted = evicted_address c tag actual
  (addr, c') ← known_address c evicted (find_inv (get_page_index c evicted) c.inv_remap_table)
  assert (not (top_bit addr))
  ok (record { result = result; evicted_addr = some addr; block = block }, c')

abbrev pub missed : SetResult → Allocated → ℕ → CacheModel → Result (Accessed × CacheModel)
missed no_eviction a actual c =
    ok (record { result = miss_without_eviction; evicted_addr = none; block = a.block }, c)
missed invalid a actual c =
    ok (record { result = miss_without_free_block; evicted_addr = none; block = none }, c)
missed eviction a actual c = evict miss_with_eviction a.evicted actual a.block c
missed writeback a actual c = evict miss_with_writeback a.evicted actual a.block c

-- After the search of the set.
abbrev pub looked_up :
    Option (ℕ × Set)
    → Set
    → Bool
    → Option RemapEntry
    → ℕ
    → CacheModel
    → Result (Accessed × CacheModel)
looked_up (some (i, s')) s read entry actual c = ok (
  record { result = hit; evicted_addr = none; block = some i },
  with_set c (get_index c actual) s',
)
looked_up none s read entry actual c = do
  (a, s') ← allocate c.policy (get_tag c actual) c.timestamp read s
  missed a.result a actual (count_miss entry (with_set c (get_index c actual) s'))

abbrev pub tick : CacheModel → CacheModel
tick c = record c { timestamp = add64 c.timestamp 1 }

unfoldable pub access : ℕ → Bool → CacheModel → Result (Accessed × CacheModel)
access addr read c = do
  actual ← get_actual_address c addr
  s ← set_at c (get_index c actual)
  let now = add64 c.timestamp 1
  looked_up (CacheSet.access (get_tag c actual) now read s) s read
      (find_remap (get_page_index c addr) c.remap_table) actual (tick c)

-- A method of the set of an address.
abbrev pub on_set : (ℕ → Set → Set) → ℕ → CacheModel → Result CacheModel
on_set method addr c = do
  s ← set_at c (get_index c addr)
  ok (with_set c (get_index c addr) (method (get_tag c addr) s))

unfoldable pub pin : ℕ → CacheModel → Result CacheModel
pin addr c = do actual ← get_actual_address c addr; on_set CacheSet.pin actual c

unfoldable pub unpin : ℕ → CacheModel → Result CacheModel
unpin addr c = do actual ← get_actual_address c addr; on_set CacheSet.unpin actual c

unfoldable pub make_dirty : ℕ → CacheModel → Result CacheModel
make_dirty addr c = do actual ← get_actual_address c addr; on_set CacheSet.make_dirty actual c

-- The address itself is flushed, also where its page is remapped.
unfoldable pub flush : ℕ → CacheModel → Result (SetResult × CacheModel)
flush addr c = do
  s ← set_at c (get_index c addr)
  let (result, s') = CacheSet.flush (get_tag c addr) s
  ok (result, with_set c (get_index c addr) s')

abbrev pub retagged : ℕ → ℕ → CacheModel → Result (Bool × CacheModel)
retagged old new c = do
  s ← set_at c (get_index c old)
  let (changed, s') = CacheSet.change_tag (get_tag c old) (get_tag c new) s
  ok (changed, with_set c (get_index c old) s')

unfoldable pub change_tag : ℕ → ℕ → CacheModel → Result (Bool × CacheModel)
change_tag old new c =
    if get_index c old == get_index c new then retagged old new c else fault stopped
