-- ===== src/Migration/TwoLru.antt =====
-- `OldTwoLRUMigrationPolicy` (Migration.cpp, include/Migration.H): two lists by recency, one for DRAM
-- and one for PCM.
pub mod Invariant
pub mod Migrate
use hmmsim_server.Prelude.{
  ℕ, ◌^◌, ◌%◌, ◌+◌, ◌≡◌, ◌↔◌, refl, Bool, true, false, ◌&&◌, Option, none, some, List, [], ◌∷◌, ltb,
  ◌==◌, if◌then◌else◌, add64, sub64, is_nonpositive, arith, not,
}
use hmmsim_server.Prelude.Results.{
  Result, ok, fault, dangling, assert, deref, asserted, ◌>>=◌, ◌>>◌,
}
use hmmsim_server.Migration.Base.{PageType}
use hmmsim_server.Migration.OldBase
use hmmsim_server.Migration.OldBase.{OldBase, is_dram}
use hmmsim_server.Migration.Store.{
  Tagged, Entry, Nodes, find, last, Place, front, Store, link, unlink,
}

-- `ListType`
pub data ListType : Type 0 where
  dram_list pcm_list : ListType

abbrev pub same_list : ListType → ListType → Bool
same_list dram_list dram_list = true
same_list pcm_list pcm_list = true
same_list dram_list pcm_list = false
same_list pcm_list dram_list = false

pub same_list_iff : (t u : ListType) → (same_list t u ≡ true) ↔ (t ≡ u)
same_list_iff t u = ground arith

instance abbrev pub list_tags : Tagged ListType
list_tags = record { same = same_list; same_iff = same_list_iff }

-- The body of an `AccessEntry` is its `hitCount`, an `int`.
pub record TwoLru : Type 0 where
  pub base : OldBase
  pub store : Store ListType ℕ

-- `hitCount++`
abbrev pub hit : ℕ → ℕ
hit n = (n + 1) % 2 ^ 32

-- `hitCount > 1000`
abbrev pub is_hot : ℕ → Bool
is_hot n = ltb 1000 n && ltb n (2 ^ 31)

-- The map of a process: `pages[index]`, which exists if `index` is below `numPids`.
unfoldable pub page_of : ℕ → ℕ → TwoLru → Result (Option (ListType × ℕ))
page_of index addr s =
    if ltb index s.base.num_pids then ok (s.store.pages index addr) else fault dangling

unfoldable pub index_of : ℕ → OldBase → ℕ
index_of pid b = if b.num_pids == 1 then 0 else pid

-- `pages[index].emplace(…)` and the assertion behind it.
abbrev pub is_new : Option (ListType × ℕ) → Bool
is_new none = true
is_new (some p) = false

-- `allocate`
unfoldable pub allocate : PageType → ℕ → ℕ → TwoLru → Result (PageType × TwoLru)
allocate hint pid addr s = do
  (ret, base) ← OldBase.allocate hint s.base
  let index = index_of pid s.base
  old ← page_of index addr s
  assert (is_new old)
  let list = if is_dram ret then dram_list else pcm_list
  let entry : Entry ℕ = record { pid = pid; addr = addr; body = 0 }
  ok (ret, record { base = base; store = link front list index addr entry s.store })

-- `monitor`: the page becomes the first of its list.
unfoldable pub monitor : ℕ → ℕ → TwoLru → Result TwoLru
monitor pid addr s = do
  let index = index_of pid s.base
  found ← page_of index addr s
  (list, it) ← asserted found
  entry ← deref (find it (s.store.lists list))
  let temp = record entry { body = hit entry.body }
  ok (record s { store = link front list index addr temp (unlink list it s.store) })

-- `selectPage`, to PCM: the last page of the DRAM list.
unfoldable pub demote : TwoLru → Result (Option (ℕ × ℕ) × TwoLru)
demote s = do
  (dram_it, victim) ← asserted (last (s.store.lists dram_list))
  found ← page_of victim.pid victim.addr s
  (list, it) ← asserted found
  assert (it == dram_it)
  let entry : Entry ℕ = record { pid = 0; addr = victim.addr; body = 0 }
  ok (
    some (victim.pid, victim.addr),
    record {
      base = record s.base { dram_pages_left = add64 s.base.dram_pages_left 1 };
      store = unlink dram_list dram_it (link front pcm_list victim.pid victim.addr entry s.store);
    },
  )

-- `selectPage`, to DRAM: the first page of the PCM list, if it is hot.
unfoldable pub promote_first : Nodes ℕ → TwoLru → Result (Option (ℕ × ℕ) × TwoLru)
promote_first [] s = assert false >> ok (none, s)
promote_first ((pcm_it, first) ∷ _) s =
    let moved = (do
      found ← page_of first.pid first.addr s
      (list, it) ← asserted found
      let entry : Entry ℕ = record { pid = first.pid; addr = first.addr; body = 0 }
      ok (
        some (first.pid, first.addr),
        record {
          base = record s.base { dram_pages_left = sub64 s.base.dram_pages_left 1 };
          store = link front dram_list first.pid first.addr entry (unlink pcm_list pcm_it s.store);
        },
      )) in
    if is_hot first.body then moved else ok (none, s)

-- `selectPage`
unfoldable pub select_page : TwoLru → Result (Option (ℕ × ℕ) × TwoLru)
select_page s =
    if is_nonpositive s.base.dram_pages_left
    then demote s
    else promote_first (s.store.lists pcm_list) s

-- `migrate` of the base class, with this policy's `selectPage`.
unfoldable pub migrate : TwoLru → Result (Option (ℕ × ℕ) × TwoLru)
migrate s = OldBase.migrate s.base select_page s
