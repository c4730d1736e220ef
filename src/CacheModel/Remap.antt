-- ===== src/CacheModel/Remap.antt =====
-- `CacheModel::remap` (Cache.cpp): the blocks of a page get the tags of another page, or stay where they are
-- under an entry of the remap tables.
use hmmsim_server.Prelude.{
  ℕ, zero, suc, ◌+◌, ◌%◌, ◌^◌, Bool, true, false, not, List, [], ◌∷◌, ◌++◌, Option, none, some,
  length, ltb, ◌==◌, if◌then◌else◌, sign_bit,
}
use hmmsim_server.Prelude.Results.{Result, ok, fault, endless, asserted, assert, ◌>>=◌, ◌>>◌}
use Prim.Native.Nat.{bit_and, bit_or}
use hmmsim_server.CacheModel.{
  CacheModel, RemapEntry, InvRemapEntry, get_index, get_page_index, get_page_address, find_remap,
  find_inv, change_tag,
}

abbrev pub note : Bool → ℕ → List ℕ → List ℕ
note changed addr present = if changed then present ++ addr ∷ [] else present

-- The loop over the blocks of a page from `offset` on, by its rounds.
unfoldable pub retag : ℕ → (old new offset : ℕ) → List ℕ → CacheModel → Result (List ℕ × CacheModel)
retag zero old new offset present c = fault endless
retag (suc fuel) old new offset present c = elim (ltb offset c.page_size) [
  | true ↦ do
    let addr = get_page_address c old offset
    (changed, c') ← change_tag addr (get_page_address c new offset) c
    retag fuel old new ((offset + c.block_size) % 2 ^ 64) (note changed addr present) c'
  | false ↦ ok (present, c)
]

-- An `unsigned` page size is never reached in more rounds than it has bytes.
abbrev pub retag_page : ℕ → ℕ → CacheModel → Result (List ℕ × CacheModel)
retag_page old new c = retag (suc c.page_size) old new 0 [] c

unfoldable pub emplace_remap : RemapEntry → List RemapEntry → RemapEntry × List RemapEntry
emplace_remap e [] = (e, e ∷ [])
emplace_remap e (d ∷ ds) =
    let (there, rest) = emplace_remap e ds in
    if d.page == e.page then (d, d ∷ ds) else (there, d ∷ rest)

unfoldable pub erase_remap : ℕ → List RemapEntry → List RemapEntry
erase_remap page [] = []
erase_remap page (d ∷ ds) =
    let rest = erase_remap page ds in if d.page == page then ds else d ∷ rest

unfoldable pub emplace_inv : InvRemapEntry → List InvRemapEntry → List InvRemapEntry
emplace_inv e [] = e ∷ []
emplace_inv e (d ∷ ds) =
    let rest = emplace_inv e ds in if d.page == e.page then d ∷ ds else d ∷ rest

unfoldable pub erase_inv : ℕ → List InvRemapEntry → List InvRemapEntry
erase_inv page [] = []
erase_inv page (d ∷ ds) = let rest = erase_inv page ds in if d.page == page then ds else d ∷ rest

-- The entry of the inverse table gets another page and another pointer.
unfoldable pub repoint : (page addr ptr : ℕ) → List InvRemapEntry → List InvRemapEntry
repoint page addr ptr [] = []
repoint page addr ptr (d ∷ ds) =
    let rest = repoint page addr ptr ds in
    if d.page == page then record d { addr = addr; count_ptr = ptr } ∷ ds else d ∷ rest

abbrev pub entry : CacheModel → (page addr count : ℕ) → RemapEntry
entry c page addr count = record { page = page; node = c.next_node; addr = addr; count = count }

-- The blocks that are present stay in the set of their page.
abbrev pub keep_blocks : (new kept : ℕ) → List ℕ × CacheModel → List ℕ × CacheModel
keep_blocks new kept (present, c) =
    let (e, table) = emplace_remap (entry c new kept (length present % 2 ^ 32)) c.remap_table in
    if ltb 0 (length present % 2 ^ 32)
    then (
      present,
      record c {
        remap_table = table;
        inv_remap_table =
            emplace_inv (record { page = kept; addr = new; count_ptr = e.node }) c.inv_remap_table;
        next_node = c.next_node + 1;
      },
    )
    else (present, c)

abbrev pub same_sets : CacheModel → ℕ → ℕ → Bool
same_sets c old new =
    get_index c (get_page_address c old 0) == get_index c (get_page_address c new 0)

abbrev pub stay : (old new kept : ℕ) → CacheModel → Result (List ℕ × CacheModel)
stay old new kept c = do
  assert (get_page_index c (bit_or (get_page_address c old 0) sign_bit) == kept)
  moved ← retag_page old kept c
  ok (keep_blocks new kept moved)

abbrev pub remap_first : (old new : ℕ) → CacheModel → Result (List ℕ × CacheModel)
remap_first old new c =
    if same_sets c old new
    then retag_page old new c
    else stay old new (bit_or old (get_page_index c sign_bit)) c

-- The number of blocks found is the count of the entry, and is not 0.
abbrev pub checked : RemapEntry → List ℕ → Result (Unit {0})
checked e present = do
  assert (length present % 2 ^ 32 == e.count)
  assert (not (length present % 2 ^ 32 == 0))

abbrev pub move_entry : RemapEntry → ℕ → List ℕ → CacheModel → CacheModel
move_entry e new present c =
    let (there, table) =
      emplace_remap (entry c new e.addr (length present % 2 ^ 32))
        (erase_remap e.page c.remap_table) in
    record c {
      remap_table = table;
      inv_remap_table = repoint e.addr new there.node c.inv_remap_table;
      next_node = c.next_node + 1;
    }

-- The blocks go to the set of the new page, and the entries end.
abbrev pub end_entry : RemapEntry → ℕ → CacheModel → Result (List ℕ × CacheModel)
end_entry e new c = do
  (present, c') ← retag_page e.addr new c
  checked e present
  ok (
    present,
    record c' {
      remap_table = erase_remap e.page c'.remap_table;
      inv_remap_table = erase_inv e.addr c'.inv_remap_table;
    },
  )

-- The blocks stay once more.
abbrev pub renew_entry : RemapEntry → ℕ → CacheModel → Result (List ℕ × CacheModel)
renew_entry e new c = do
  assert (not (bit_and e.addr (get_page_index c sign_bit) == 0))
  (present, c') ← retag_page e.addr e.addr c
  checked e present
  ok (present, move_entry e new present c')

abbrev pub remap_again : RemapEntry → ℕ → CacheModel → Result (List ℕ × CacheModel)
remap_again e new c = do
  inv ← asserted (find_inv e.addr c.inv_remap_table)
  if same_sets c e.addr new then end_entry e new c else renew_entry e new c

abbrev pub remap_from :
    Option RemapEntry → (old new : ℕ) → CacheModel → Result (List ℕ × CacheModel)
remap_from none old new c = remap_first old new c
remap_from (some e) old new c = remap_again e new c

-- The addresses that were present, which is what the source leaves in `present`; it returns false.
unfoldable pub remap : (old new : ℕ) → CacheModel → Result (List ℕ × CacheModel)
remap old new c = remap_from (find_remap old c.remap_table) old new c
