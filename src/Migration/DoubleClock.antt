-- ===== src/Migration/DoubleClock.antt =====
-- `OldDoubleClockMigrationPolicy` (Migration.cpp, include/Migration.H): a clock over the DRAM pages,
-- and an active and an inactive list of PCM pages.
pub mod Promotion
pub mod Retiring
pub mod Demotion
use hmmsim_server.Prelude.{
  ℕ, ◌^◌, ◌%◌, suc, ◌≡◌, ◌↔◌, Bool, true, false, Option, none, some, List, [], ◌∷◌, length, ltb,
  ◌==◌, if◌then◌else◌, add64, sub64, is_nonpositive, arith,
}
use hmmsim_server.Prelude.Results.{
  Result, ok, fault, dangling, assert, deref, asserted, ◌>>=◌, ◌>>◌,
}
use hmmsim_server.Migration.Base.{PageType}
use hmmsim_server.Migration.OldBase
use hmmsim_server.Migration.OldBase.{OldBase, is_dram}
use hmmsim_server.Migration.Clock.{go_round, sweep, after_erase}
use hmmsim_server.Migration.Store.{
  Tagged, Entry, Nodes, find, begin, next, back, before, Store, link, unlink, revise, set_list,
}

-- `ListType`
pub data ListType : Type 0 where
  dram_list active_list inactive_list : ListType

abbrev pub same_list : ListType → ListType → Bool
same_list dram_list dram_list = true
same_list active_list active_list = true
same_list inactive_list inactive_list = true
same_list _ _ = false

pub same_list_iff : (t u : ListType) → (same_list t u ≡ true) ↔ (t ≡ u)
same_list_iff t u = ground arith

instance abbrev pub list_tags : Tagged ListType
list_tags = record { same = same_list; same_iff = same_list_iff }

-- The body of an `AccessEntry` is its `ref`; `hand` is `currentDramIt`.
pub record DoubleClock : Type 0 where
  pub base : OldBase
  pub store : Store ListType Bool
  pub hand : Option ℕ

abbrev pub Lists : Type 0
Lists = Store ListType Bool

-- The map of a process, `pages[index]`, of `num_pids` maps.
unfoldable pub page_of : ℕ → ℕ → ℕ → Lists → Result (Option (ListType × ℕ))
page_of num_pids index addr s =
    if ltb index num_pids then ok (s.pages index addr) else fault dangling

unfoldable pub index_of : ℕ → OldBase → ℕ
index_of pid b = if b.num_pids == 1 then 0 else pid

abbrev pub is_new : Option (ListType × ℕ) → Bool
is_new none = true
is_new (some p) = false

-- `allocate`
unfoldable pub allocate : PageType → ℕ → ℕ → DoubleClock → Result (PageType × DoubleClock)
allocate hint pid addr s = do
  (ret, base) ← OldBase.allocate hint s.base
  let index = index_of pid s.base
  old ← page_of s.base.num_pids index addr s.store
  assert (is_new old)
  let entry : Entry Bool = record { pid = pid; addr = addr; body = false }
  let in_dram = link (before s.hand) dram_list index addr entry s.store
  let in_pcm = link back inactive_list index addr entry s.store
  ok (
    ret,
    (if is_dram ret
        then record {
          base = base;
          store = in_dram;
          hand = go_round s.store.fresh (in_dram.lists dram_list);
        }
        else record { base = base; store = in_pcm; hand = s.hand }),
  )

-- The branches of `monitor`, at the page's list.
unfoldable pub touch : ListType → ℕ → ℕ → ℕ → ℕ → Lists → Result Lists
touch dram_list it index pid addr s = do
  _ ← deref (find it (s.lists dram_list))
  ok (revise dram_list it (λ _. true) s)
touch active_list it index pid addr s = do
  _ ← deref (find it (s.lists active_list))
  ok (revise active_list it (λ _. true) s)
touch inactive_list it index pid addr s = do
  _ ← deref (find it (s.lists inactive_list))
  let entry : Entry Bool = record { pid = pid; addr = addr; body = true }
  ok (link back active_list index addr entry (unlink inactive_list it s))

-- `monitor`
unfoldable pub monitor : ℕ → ℕ → DoubleClock → Result DoubleClock
monitor pid addr s = do
  let index = index_of pid s.base
  found ← page_of s.base.num_pids index addr s.store
  (list, it) ← asserted found
  store ← touch list it index pid addr s.store
  ok (record s { store = store })

-- `AccessEntry(it->first, false)`: the address is taken for a pid, cut to an `int`, and `false` for an
-- address.
abbrev pub demoted_entry : ℕ → Entry Bool
demoted_entry addr = record { pid = addr % 2 ^ 32; addr = 0; body = false }

-- The policy after the page `victim` at the hand goes to the inactive list; `dram` is the swept list.
abbrev pub demoted : ℕ → Nodes Bool → Entry Bool → DoubleClock → DoubleClock
demoted at_hand dram victim s =
    let swept = record s.store { lists = set_list dram_list dram s.store.lists } in
    let moved =
      unlink dram_list at_hand
        (link back inactive_list victim.pid victim.addr (demoted_entry victim.addr) swept) in
    record {
      base = record s.base { dram_pages_left = add64 s.base.dram_pages_left 1 };
      store = moved;
      hand = after_erase at_hand dram (moved.lists dram_list);
    }

-- `selectPage`, to PCM.
unfoldable pub demote : DoubleClock → Result (Option (ℕ × ℕ) × DoubleClock)
demote s = do
  (dram, at_hand, victim) ←
      sweep (suc (length (s.store.lists dram_list))) (s.store.lists dram_list) s.hand
  found ← page_of s.base.num_pids victim.pid victim.addr s.store
  (list, it) ← asserted found
  assert (it == at_hand)
  ok (some (victim.pid, victim.addr), demoted at_hand dram victim s)

-- The loop over the active list that looks for a page to promote: `found` is the first page with its
-- bit set. The others lose their bit, and pages without it become inactive.
unfoldable pub scan_active :
    ℕ → Nodes Bool → Option (ℕ × ℕ) → Lists → Result (Option (ℕ × ℕ) × Lists)
scan_active num_pids [] found s = ok (found, s)
scan_active num_pids ((i, e) ∷ rest) found s =
    let entry : Entry Bool = record { pid = e.pid; addr = e.addr; body = false } in
    let chosen = scan_active num_pids rest (some (e.pid, e.addr)) (unlink active_list i s) in
    let cleared = scan_active num_pids rest found (revise active_list i (λ _. false) s) in
    let retired = (do
      page ← page_of num_pids e.pid e.addr s
      _ ← asserted page
      scan_active num_pids rest found
          (unlink active_list i (link back inactive_list e.pid e.addr entry s))) in
    if e.body then elim found [ none ↦ chosen | some _ ↦ cleared ] else retired

-- `selectPage`, to DRAM, with the page that the loop has found.
unfoldable pub promote_found : Option (ℕ × ℕ) → DoubleClock → Result (Option (ℕ × ℕ) × DoubleClock)
promote_found none s = ok (none, s)
promote_found (some (pid, addr)) s = do
  page ← page_of s.base.num_pids pid addr s.store
  _ ← asserted page
  let entry : Entry Bool = record { pid = pid; addr = addr; body = false }
  ok (
    some (pid, addr),
    record s {
      base = record s.base { dram_pages_left = sub64 s.base.dram_pages_left 1 };
      store = link (before s.hand) dram_list pid addr entry s.store;
    },
  )

-- `selectPage`, to DRAM.
unfoldable pub promote : DoubleClock → Result (Option (ℕ × ℕ) × DoubleClock)
promote s = do
  (found, store) ← scan_active s.base.num_pids (s.store.lists active_list) none s.store
  promote_found found (record s { store = store })

-- `selectPage`
unfoldable pub select_page : DoubleClock → Result (Option (ℕ × ℕ) × DoubleClock)
select_page s = if is_nonpositive s.base.dram_pages_left then demote s else promote s
