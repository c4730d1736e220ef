-- ===== src/Migration/FirstTouch.antt =====
-- `OldFirstTouchMigrationPolicy` (Migration.cpp, include/Migration.H): a clock over the DRAM pages, and
-- the PCM page that was accessed last.
pub mod Demotion
use hmmsim_server.Prelude.{
  ℕ, suc, Bool, true, false, ◌&&◌, Option, none, some, List, [], ◌∷◌, length, ltb, ◌==◌,
  if◌then◌else◌, add64, sub64, is_nonpositive,
}
use hmmsim_server.Prelude.Results.{
  Result, ok, fault, dangling, assert, deref, asserted, ◌>>=◌, ◌>>◌,
}
use hmmsim_server.Migration.Base.{PageType, dram, pcm}
use hmmsim_server.Migration.OldBase
use hmmsim_server.Migration.OldBase.{OldBase, is_dram}
use hmmsim_server.Migration.Clock.{go_round, sweep, after_erase}
use hmmsim_server.Migration.Store.{Entry, Nodes, find, erase, update, before, emplace}

-- `PageEntry`; a PCM page has the iterator `queue.end()`.
pub record PageEntry : Type 0 where
  pub type : PageType
  pub access_it : Option ℕ

abbrev pub Pages : Type 0
Pages = ℕ → ℕ → Option PageEntry

-- `hand` is `currentIt`, `fresh` the number of the next node; `last_pcm` is none where
-- `lastPcmAccessValid` is false.
pub record FirstTouch : Type 0 where
  pub base : OldBase
  pub queue : Nodes Bool
  pub hand : Option ℕ
  pub pages : Pages
  pub fresh : ℕ
  pub last_pcm : Option (ℕ × ℕ)

abbrev pub set_entry : ℕ → ℕ → PageEntry → Pages → Pages
set_entry p a v pages q b = if p == q && a == b then some v else pages q b

unfoldable pub page_of : ℕ → ℕ → FirstTouch → Result (Option PageEntry)
page_of index addr s = if ltb index s.base.num_pids then ok (s.pages index addr) else fault dangling

unfoldable pub index_of : ℕ → OldBase → ℕ
index_of pid b = if b.num_pids == 1 then 0 else pid

abbrev pub is_new : Option PageEntry → Bool
is_new none = true
is_new (some p) = false

-- A page in front of the hand.
abbrev pub insert : ℕ → ℕ → FirstTouch → Nodes Bool
insert pid addr s =
    emplace (before s.hand) s.fresh (record { pid = pid; addr = addr; body = false }) s.queue

-- `allocate`
unfoldable pub allocate : PageType → ℕ → ℕ → FirstTouch → Result (PageType × FirstTouch)
allocate hint pid addr s = do
  (ret, base) ← OldBase.allocate hint s.base
  let index = index_of pid s.base
  old ← page_of index addr s
  assert (is_new old)
  let queue = insert pid addr s
  let in_dram : PageEntry = record { type = ret; access_it = some s.fresh }
  let in_pcm : PageEntry = record { type = ret; access_it = none }
  ok (
    ret,
    (if is_dram ret
        then record s {
          base = base;
          queue = queue;
          hand = go_round s.fresh queue;
          pages = set_entry index addr in_dram s.pages;
          fresh = suc s.fresh;
        }
        else record s { base = base; pages = set_entry index addr in_pcm s.pages }),
  )

-- `monitor`: `accessIt->ref = true` comes before the test of the type.
unfoldable pub monitor : ℕ → ℕ → FirstTouch → Result FirstTouch
monitor pid addr s = do
  found ← page_of (index_of pid s.base) addr s
  page ← asserted found
  it ← deref page.access_it
  _ ← deref (find it s.queue)
  ok (record s {
    queue = update it (λ _. true) s.queue;
    last_pcm = if is_dram page.type then s.last_pcm else some (pid, addr);
  })

abbrev pub at_node : Option ℕ → ℕ → Bool
at_node none j = false
at_node (some i) j = i == j

-- The policy after the page `victim` at the hand goes to PCM; `swept` is the swept queue.
abbrev pub demoted : ℕ → Nodes Bool → Entry Bool → FirstTouch → FirstTouch
demoted at_hand swept victim s =
    let left = erase at_hand swept in
    record s {
      base = record s.base { dram_pages_left = add64 s.base.dram_pages_left 1 };
      queue = left;
      hand = after_erase at_hand swept left;
      pages = set_entry victim.pid victim.addr (record { type = pcm; access_it = none }) s.pages;
      last_pcm = none;
    }

-- `selectPage`, to PCM.
unfoldable pub demote : FirstTouch → Result (Option (ℕ × ℕ) × FirstTouch)
demote s = do
  (swept, at_hand, victim) ← sweep (suc (length s.queue)) s.queue s.hand
  found ← page_of victim.pid victim.addr s
  page ← asserted found
  assert (at_node page.access_it at_hand)
  ok (some (victim.pid, victim.addr), demoted at_hand swept victim s)

-- `selectPage`, to DRAM.
unfoldable pub promote : Option (ℕ × ℕ) → FirstTouch → Result (Option (ℕ × ℕ) × FirstTouch)
promote none s = ok (none, s)
promote (some (pid, addr)) s = do
  found ← page_of pid addr s
  _ ← asserted found
  let entry : PageEntry = record { type = dram; access_it = some s.fresh }
  ok (
    some (pid, addr),
    record s {
      base = record s.base { dram_pages_left = sub64 s.base.dram_pages_left 1 };
      queue = insert pid addr s;
      pages = set_entry pid addr entry s.pages;
      fresh = suc s.fresh;
      last_pcm = none;
    },
  )

-- `selectPage`
unfoldable pub select_page : FirstTouch → Result (Option (ℕ × ℕ) × FirstTouch)
select_page s = if is_nonpositive s.base.dram_pages_left then demote s else promote s.last_pcm s
