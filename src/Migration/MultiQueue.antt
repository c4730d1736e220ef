-- ===== src/Migration/MultiQueue.antt =====
-- `MultiQueueMigrationPolicy` (Migration.cpp, include/Migration.H): queues by access count for DRAM and
-- for PCM, a list of victims and a history.
pub mod Levels
pub mod Invariant
pub mod Monitor
pub mod Demotion
pub mod Promotion
use hmmsim_server.Prelude.{
  ℕ, zero, suc, ◌+◌, ◌-◌, ◌*◌, ◌/◌, ◌%◌, ◌^◌, ◌≡◌, ◌↔◌, refl, Bool, true, false, ◌&&◌, ◌||◌, not,
  Option, none, some, List, [], ◌∷◌, ◌++◌, length, ltb, leb, ◌==◌, if◌then◌else◌, word, add64,
  sub64, is_positive, greater_signed, arith,
}
use hmmsim_server.Prelude.Results.{
  Result, ok, fault, dangling, division, assertion, assert, deref, asserted, ◌>>=◌, ◌>>◌,
}
use hmmsim_server.Migration.Base
use hmmsim_server.Migration.Base.{Base, PageType, dram, pcm, invalid, ProgressEntry}
use hmmsim_server.Migration.Store.{Tagged, Entry, Nodes, find, back, Store, link, unlink, revise}

-- The list that a page entry stands for: `queues[type][queue]`, or `victims` for the queue -1 and
-- `history` for -2. The source gives the queue -1 to DRAM pages only, and -2 to PCM pages only.
pub data Position : Type 0 where
  queues : PageType → ℕ → Position
  victims history : Position

abbrev pub same_type : PageType → PageType → Bool
same_type dram dram = true
same_type pcm pcm = true
same_type invalid invalid = true
same_type _ _ = false

pub same_type_iff : (t u : PageType) → (same_type t u ≡ true) ↔ (t ≡ u)
same_type_iff t u = ground arith

abbrev pub same_position : Position → Position → Bool
same_position (queues t l) (queues u m) = same_type t u && l == m
same_position victims victims = true
same_position history history = true
same_position _ _ = false

pub same_position_iff : (p q : Position) → (same_position p q ≡ true) ↔ (p ≡ q)
same_position_iff (queues t l) (queues u m) = ground (arith, same_type_iff t u)
same_position_iff (queues t l) victims = ground arith
same_position_iff (queues t l) history = ground arith
same_position_iff victims (queues u m) = ground arith
same_position_iff victims victims = ground arith
same_position_iff victims history = ground arith
same_position_iff history (queues u m) = ground arith
same_position_iff history victims = ground arith
same_position_iff history history = ground arith

instance abbrev pub position_tags : Tagged Position
position_tags = record { same = same_position; same_iff = same_position_iff }

abbrev pub type_of : Position → PageType
type_of (queues t l) = t
type_of victims = dram
type_of history = pcm

-- The rest of an `AccessEntry`.
pub record Access : Type 0 where
  pub expiration_time : ℕ
  pub count : ℕ
  pub demoted : Bool
  pub migrating : Bool

pub record Config : Type 0 where
  pub threshold_queue : ℕ
  pub lifetime : ℕ
  pub logical_time : Bool
  pub second_demotion_eviction : Bool
  pub aging : Bool
  pub use_history : Bool
  pub use_pending_list : Bool
  pub enable_rollback : Bool
  pub promotion_filter : Bool
  pub demotion_attempts : ℕ
  pub thresholds : List ℕ

pub record MultiQueue : Type 0 where
  pub base : Base
  pub config : Config
  pub store : Store Position Access
  pub pending : List (ℕ × ℕ)
  pub current_time : ℕ
  pub tries : ℕ

-- `CountEntry`, of which the policies read these fields.
pub record CountEntry : Type 0 where
  pub pid : ℕ
  pub page : ℕ
  pub reads : ℕ

-- The loop of the constructor that fills `thresholds`, from the index `i` for `n` more, and the last
-- one.
unfoldable pub init_thresholds : ℕ → ℕ → List ℕ
init_thresholds zero i = (word - 1) ∷ []
init_thresholds (suc n) i = (2 ^ (i + 1)) ∷ init_thresholds n (i + 1)

-- The loop over `thresholds[i]`, for `i < numQueues - 1`.
unfoldable pub first_below : ℕ → ℕ → List ℕ → Option ℕ
first_below count i [] = none
first_below count i (t ∷ []) = none
first_below count i (t ∷ u ∷ ts) =
    if ltb count t then some i else first_below count (i + 1) (u ∷ ts)

-- The queue of a page with the count: `queue = 0` is what the loop starts from.
unfoldable pub level_of : ℕ → Config → ℕ
level_of count c = elim (first_below count 0 c.thresholds) [ none ↦ 0 | some i ↦ i ]

unfoldable pub index_of : ℕ → Base → ℕ
index_of pid b = if b.num_pids == 1 then 0 else pid

unfoldable pub page_of : ℕ → ℕ → MultiQueue → Result (Option (Position × ℕ))
page_of index addr s =
    if ltb index s.base.num_pids then ok (s.store.pages index addr) else fault dangling

-- The time that entries expire by, and the expiration of a new one.
abbrev pub now : ℕ → MultiQueue → ℕ
now timestamp s = if s.config.logical_time then s.current_time else timestamp

abbrev pub expiration : ℕ → MultiQueue → ℕ
expiration timestamp s = add64 (now timestamp s) s.config.lifetime

abbrev pub is_new : Option (Position × ℕ) → Bool
is_new none = true
is_new (some p) = false

abbrev pub new_entry : ℕ → ℕ → ℕ → Entry Access
new_entry pid addr exp = record {
  pid = pid;
  addr = addr;
  body = record { expiration_time = exp; count = 0; demoted = false; migrating = false };
}

-- The list of a new page, and its `expirationTime`.
unfoldable pub first_list : PageType → ℕ → Result (Position × ℕ)
first_list dram exp = ok (queues dram 0, exp)
first_list pcm exp = ok (history, 0)
first_list invalid exp = fault assertion

-- `allocate`
unfoldable pub allocate : ℕ → ℕ → ℕ → MultiQueue → Result (PageType × MultiQueue)
allocate timestamp pid addr s = do
  (ret, base) ← Base.allocate s.base
  let index = index_of pid s.base
  (list, exp) ← first_list ret (expiration timestamp s)
  old ← page_of index addr s
  assert (is_new old)
  ok (
    ret,
    record s { base = base; store = link back list index addr (new_entry pid addr exp) s.store },
  )

-- An entry leaves its list, and another stands for its page from now on, at the end of its list.
abbrev pub move :
    {B : Type 0} → Position → ℕ → Position → ℕ → ℕ → Entry B → Store Position B → Store Position B
move from it to index addr entry s = link back to index addr entry (unlink from it s)

-- `it->second.queue >= thresholdQueue`
abbrev pub is_above : ℕ → Position → Bool
is_above threshold (queues t l) = leb threshold l
is_above threshold _ = false

-- A page goes to the DRAM queue of its count.
abbrev pub promoted : Position → ℕ → ℕ → ℕ → Entry Access → MultiQueue → MultiQueue
promoted pos it index addr e s = record s {
  base = record s.base { dram_pages_left = sub64 s.base.dram_pages_left 1 };
  store =
      move pos it (queues dram (level_of e.body.count s.config)) index addr
        (record e { body = record e.body { migrating = true } }) s.store;
}

-- `migrate`, where a DRAM page is left.
unfoldable pub promote : ℕ → ℕ → MultiQueue → Result (Bool × MultiQueue)
promote pid addr s = do
  found ← page_of (index_of pid s.base) addr s
  (pos, it) ← asserted found
  assert (same_type (type_of pos) pcm)
  e ← deref (find it (s.store.lists pos))
  assert (e.pid == pid)
  assert (e.addr == addr)
  assert (not e.body.migrating)
  ok (
      if not s.config.promotion_filter || is_above s.config.threshold_queue pos
      then (true, promoted pos it (index_of pid s.base) addr e s)
      else (false, s))

-- `migrate`
unfoldable pub migrate : ℕ → ℕ → MultiQueue → Result (Bool × MultiQueue)
migrate pid addr s =
    if is_positive s.base.dram_pages_left then promote pid addr s else ok (false, s)

-- `done`
unfoldable pub done : ℕ → ℕ → MultiQueue → Result MultiQueue
done pid addr s = do
  found ← page_of (index_of pid s.base) addr s
  (pos, it) ← asserted found
  e ← deref (find it (s.store.lists pos))
  assert e.body.migrating
  ok (record s { store = revise pos it (λ a. record a { migrating = false }) s.store })

-- `oldCount` after the periods since the entry expired.
abbrev pub aged_count : ℕ → Access → ℕ → Config → ℕ
aged_count timestamp a old_count c =
    let periods = sub64 timestamp a.expiration_time / c.lifetime in
    old_count / 2 ^ (if leb 64 periods then 63 else periods)

unfoldable pub aged : ℕ → Access → ℕ → Config → Result ℕ
aged timestamp a old_count c =
    if c.lifetime == 0 then fault division else ok (aged_count timestamp a old_count c)

-- `oldCount` of the branches of `monitor`, at the list of the page.
unfoldable pub old_count : ℕ → ℕ → Access → Position → Config → Result ℕ
old_count timestamp count a history c =
    if c.use_history
    then if c.aging then aged timestamp a (add64 a.count count) c else ok (add64 a.count count)
    else ok count
old_count timestamp count a victims c =
    if c.aging then aged timestamp a (add64 a.count count) c else ok (add64 a.count count)
old_count timestamp count a (queues t l) c = ok (add64 a.count count)

-- `pending` of the branch for a page in a queue.
unfoldable pub add_pending : Position → ℕ → ℕ → ℕ → MultiQueue → List (ℕ × ℕ)
add_pending (queues t l) old index addr s = elim (first_below old 0 s.config.thresholds) [
  | none ↦ s.pending
  | some i ↦
      if s.config.use_pending_list && leb s.config.threshold_queue i
      then s.pending ++ ((index, addr) ∷ [])
      else s.pending
]
add_pending _ old index addr s = s.pending

-- A page goes to the queue of its count.
abbrev pub requeue : ℕ → CountEntry → Position → ℕ → Bool → ℕ → MultiQueue → MultiQueue
requeue timestamp c pos it migrating old s =
    let index = index_of c.pid s.base in
    let entry : Entry Access = record {
      pid = c.pid;
      addr = c.page;
      body = record {
        expiration_time = expiration timestamp s;
        count = old;
        demoted = false;
        migrating = migrating;
      };
    } in
    let to = queues (type_of pos) (level_of old s.config) in
    record s {
      store = move pos it to index c.page entry s.store;
      pending = add_pending pos old index c.page s;
    }

abbrev pub tick : MultiQueue → MultiQueue
tick s = record s { current_time = add64 s.current_time 1 }

-- The first part of a round of `monitor`.
unfoldable pub recount : ℕ → CountEntry → MultiQueue → Result MultiQueue
recount timestamp c s = do
  found ← page_of (index_of c.pid s.base) c.page s
  (pos, it) ← asserted found
  e ← deref (find it (s.store.lists pos))
  old ← old_count timestamp c.reads e.body pos s.config
  ok (requeue timestamp c pos it e.body.migrating old (tick s))

-- `victims` or `history`, for a page that leaves the queues.
abbrev pub evicted : PageType → Position
evicted dram = victims
evicted pcm = history
evicted invalid = history

-- Where an entry at the front of a queue of the type goes when it expires, and its `demoted`.
unfoldable pub lower : Config → PageType → Access → Position → Result (Position × Bool)
lower c t a (queues u zero) = ok (evicted u, false)
lower c t a (queues u (suc l)) =
    if c.second_demotion_eviction && a.demoted then ok (evicted u, false) else ok (queues t l, true)
lower c t a _ = fault assertion

-- The entry of a page that expired.
abbrev pub expired : ℕ → Entry Access → Bool → Access → MultiQueue → Entry Access
expired timestamp front demoted a s = record {
  pid = front.pid;
  addr = front.addr;
  body = record {
    expiration_time = expiration timestamp s;
    count = if s.config.aging then a.count / 2 else a.count;
    demoted = demoted;
    migrating = a.migrating;
  };
}

-- The front entry of a queue of the type has expired.
unfoldable pub expire_entry : ℕ → PageType → Entry Access → MultiQueue → Result MultiQueue
expire_entry timestamp t front s = do
  found ← page_of front.pid front.addr s
  (pos, it) ← asserted found
  e ← deref (find it (s.store.lists pos))
  (to, demoted) ← lower s.config t e.body pos
  ok (record s {
    store = move pos it to front.pid front.addr (expired timestamp front demoted e.body s) s.store;
  })

-- The body of the loop of `monitor` over the queues, at the queue of a type and a level.
unfoldable pub expire_front : ℕ → PageType → Nodes Access → MultiQueue → Result MultiQueue
expire_front timestamp t [] s = ok s
expire_front timestamp t ((i, front) ∷ rest) s =
    if ltb front.body.expiration_time (now timestamp s)
    then expire_entry timestamp t front s
    else ok s

-- The loop over the queues of one type, `n` of them from the level `l`.
unfoldable pub expire : ℕ → PageType → ℕ → ℕ → MultiQueue → Result MultiQueue
expire timestamp t zero l s = ok s
expire timestamp t (suc n) l s = do
  s' ← expire_front timestamp t (s.store.lists (queues t l)) s
  expire timestamp t n (l + 1) s'

abbrev pub num_queues : MultiQueue → ℕ
num_queues s = length s.config.thresholds

-- A round of the loop of `monitor`.
unfoldable pub count_page : ℕ → CountEntry → MultiQueue → Result MultiQueue
count_page timestamp c s = do
  s₁ ← recount timestamp c s
  s₂ ← expire timestamp dram (num_queues s) 0 s₁
  expire timestamp pcm (num_queues s) 0 s₂

-- `monitor`
unfoldable pub monitor_counts : ℕ → List CountEntry → MultiQueue → Result MultiQueue
monitor_counts timestamp [] s = ok s
monitor_counts timestamp (c ∷ cs) s = do
  s' ← count_page timestamp c s
  monitor_counts timestamp cs s'

unfoldable pub monitor : ℕ → List CountEntry → List ProgressEntry → MultiQueue → Result MultiQueue
monitor timestamp counts progress s = do
  s' ← monitor_counts timestamp counts s
  ok (record s' { base = Base.monitor progress s'.base })

-- The first entry of a list, or the first that is not migrating where there is no rollback.
unfoldable pub first_idle : Bool → Nodes Access → Option (ℕ × Entry Access)
first_idle rollback [] = none
first_idle rollback ((i, e) ∷ q) =
    if not rollback && e.body.migrating then first_idle rollback q else some (i, e)

-- `AccessEntry(entry.pid, entry.addr, type, exp, oldCount, true)`: the type, PCM, is taken for the
-- expiration time, the expiration time for the count, and the count for `demoted`.
abbrev pub demoted_entry : Entry Access → Entry Access
demoted_entry e = record e {
  body = record {
    expiration_time = 1;
    count = e.body.expiration_time;
    demoted = not (e.body.count == 0);
    migrating = true;
  };
}

abbrev pub free_page : Base → Base
free_page b = record b { dram_pages_left = add64 b.dram_pages_left 1 }

-- `selectDemotionPage`, of a victim.
unfoldable pub demote_victim : ℕ → Entry Access → MultiQueue → Result (Option (ℕ × ℕ) × MultiQueue)
demote_victim vit e s = do
  found ← page_of e.pid e.addr s
  (pos, it) ← asserted found
  assert (same_type (type_of pos) dram)
  assert (same_position pos victims)
  at_page ← deref (find it (s.store.lists pos))
  let entry = demoted_entry (record e { body = at_page.body })
  ok (
    some (e.pid, e.addr),
    record s {
      base = free_page s.base;
      store = move victims vit history e.pid e.addr entry s.store;
    },
  )

-- `queues[PCM][pageIt->second.queue]`
unfoldable pub pcm_queue : Position → Result Position
pcm_queue (queues t l) = ok (queues pcm l)
pcm_queue _ = fault dangling

-- `selectDemotionPage`, of a page of the queues below the threshold: `n` of them from the level `l`.
unfoldable pub demote_queued : ℕ → ℕ → MultiQueue → Result (Option (ℕ × ℕ) × MultiQueue)
demote_queued zero l s = ok (none, s)
demote_queued (suc n) l s =
    let later = demote_queued n (l + 1) s in
    if not (ltb l (num_queues s))
    then fault dangling
    else elim (first_idle s.config.enable_rollback (s.store.lists (queues dram l))) [
      | none ↦ later
      | some (qit, e) ↦ do
        found ← page_of e.pid e.addr s
        (pos, it) ← deref found
        let entry = record e { body = record e.body { migrating = true } }
        to ← pcm_queue pos
        let store' = move (queues dram l) qit to e.pid e.addr entry s.store
        ok (some (e.pid, e.addr), record s { base = free_page s.base; store = store' })
    ]

-- `selectDemotionPage`, from the victim that it finds.
unfoldable pub demote_from :
    Option (ℕ × Entry Access) → MultiQueue → Result (Option (ℕ × ℕ) × MultiQueue)
demote_from none s = demote_queued s.config.threshold_queue 0 s
demote_from (some (vit, e)) s = demote_victim vit e s

-- `selectDemotionPage`
unfoldable pub select_demotion_page : MultiQueue → Result (Option (ℕ × ℕ) × MultiQueue)
select_demotion_page s =
    if greater_signed s.base.dram_pages_left s.base.max_free_dram_pages
    then ok (none, s)
    else if s.tries == s.config.demotion_attempts
    then demote_from (first_idle s.config.enable_rollback (s.store.lists victims))
        (record s { tries = 0 })
    else ok (none, record s { tries = (s.tries + 1) % 2 ^ 32 })

-- `demote` of the base class, with this policy's `selectDemotionPage`.
unfoldable pub demote : MultiQueue → Result (Option (ℕ × ℕ) × MultiQueue)
demote s = Base.demote s.base select_demotion_page s
