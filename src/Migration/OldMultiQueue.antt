-- ===== src/Migration/OldMultiQueue.antt =====
-- `OldMultiQueueMigrationPolicy` (Migration.cpp, include/Migration.H), which sees one access at a time.
pub mod Monitor
pub mod Choice
pub mod Selection
use hmmsim_server.Prelude.{
  ℕ, zero, suc, ◌+◌, ◌-◌, ◌/◌, ◌%◌, ◌^◌, Bool, true, false, ◌&&◌, ◌||◌, not, Option, none, some,
  List, [], ◌∷◌, ◌++◌, length, get_elem?, ltb, leb, ◌==◌, if◌then◌else◌, add64, sub64,
  is_nonpositive,
}
use hmmsim_server.Prelude.Results.{
  Result, ok, fault, dangling, division, assertion, assert, deref, asserted, ◌>>=◌, ◌>>◌,
}
use hmmsim_server.Migration.Base.{PageType, dram, pcm, invalid}
use hmmsim_server.Migration.OldBase
use hmmsim_server.Migration.OldBase.{OldBase}
use hmmsim_server.Migration.Store.{Entry, Nodes, find, back, Store, link}
use hmmsim_server.Migration.MultiQueue.{
  Position, queues, victims, history, position_tags, same_type, same_position, type_of, first_below,
  move, evicted, is_above,
}

-- The rest of an `AccessEntry`.
pub record Access : Type 0 where
  pub expiration_time : ℕ
  pub count : ℕ
  pub demoted : Bool

pub record Config : Type 0 where
  pub threshold_queue : ℕ
  pub lifetime : ℕ
  pub logical_time : Bool
  pub filter_threshold : ℕ
  pub second_demotion_eviction : Bool
  pub aging : Bool
  pub use_history : Bool
  pub use_pending_list : Bool
  pub thresholds : List ℕ

-- `firstMonitor` and `lastMonitor` of a page entry.
pub record Monitored : Type 0 where
  pub first_monitor : Bool
  pub last_monitor : ℕ

pub record OldMultiQueue : Type 0 where
  pub base : OldBase
  pub config : Config
  pub store : Store Position Access
  pub monitored : ℕ → ℕ → Monitored
  pub pending : List (ℕ × ℕ)
  pub current_time : ℕ

abbrev pub num_queues : OldMultiQueue → ℕ
num_queues s = length s.config.thresholds

unfoldable pub index_of : ℕ → OldBase → ℕ
index_of pid b = if b.num_pids == 1 then 0 else pid

unfoldable pub page_of : ℕ → ℕ → OldMultiQueue → Result (Option (Position × ℕ))
page_of index addr s =
    if ltb index s.base.num_pids then ok (s.store.pages index addr) else fault dangling

abbrev pub now : ℕ → OldMultiQueue → ℕ
now timestamp s = if s.config.logical_time then s.current_time else timestamp

abbrev pub expiration : ℕ → OldMultiQueue → ℕ
expiration timestamp s = add64 (now timestamp s) s.config.lifetime

abbrev pub is_new : Option (Position × ℕ) → Bool
is_new none = true
is_new (some p) = false

abbrev pub set_monitored : ℕ → ℕ → Monitored → (ℕ → ℕ → Monitored) → ℕ → ℕ → Monitored
set_monitored p a m f q b = if p == q && a == b then m else f q b

-- The list of a new page, its `expirationTime` and its `count`: `thresholds[thresholdQueue - 1]`.
unfoldable pub first_list : PageType → ℕ → Config → Result (Position × ℕ × ℕ)
first_list dram exp c = do
  count ← deref (get_elem? c.thresholds (c.threshold_queue - 1))
  _ ← deref (get_elem? c.thresholds c.threshold_queue)
  ok (queues dram c.threshold_queue, exp, count)
first_list pcm exp c = ok (history, 0, 0)
first_list invalid exp c = fault assertion

-- `allocate`
unfoldable pub allocate : PageType → ℕ → ℕ → ℕ → OldMultiQueue → Result (PageType × OldMultiQueue)
allocate hint timestamp pid addr s = do
  (ret, base) ← OldBase.allocate hint s.base
  let index = index_of pid s.base
  (list, exp, count) ← first_list ret (expiration timestamp s) s.config
  old ← page_of index addr s
  assert (is_new old)
  let entry : Entry Access = record {
    pid = pid;
    addr = addr;
    body = record { expiration_time = exp; count = count; demoted = false };
  }
  let unmonitored : Monitored = record { first_monitor = false; last_monitor = 0 }
  ok (
    ret,
    record s {
      base = base;
      store = link back list index addr entry s.store;
      monitored = set_monitored index addr unmonitored s.monitored;
    },
  )

-- Whether an access counts: the first one, and those that come late enough after the last that did.
unfoldable pub counts : ℕ → Monitored → Config → Bool
counts timestamp m c =
    if m.first_monitor then leb c.filter_threshold (sub64 timestamp m.last_monitor) else true

-- `oldCount` after the periods since the entry expired.
unfoldable pub aged : ℕ → Access → Config → Result ℕ
aged timestamp a c =
    let periods = sub64 timestamp a.expiration_time / c.lifetime in
    let shift = if leb 64 periods then 63 else periods in
    if c.lifetime == 0 then fault division else ok (a.count / 2 ^ shift)

-- The queue and `oldCount` of a page after the access, at the list that it stood in.
unfoldable pub level_of : ℕ → Config → ℕ
level_of count c = elim (first_below count 0 c.thresholds) [ none ↦ 0 | some i ↦ i ]

abbrev pub levelled : Config → ℕ → Result (ℕ × ℕ)
levelled c old = ok (level_of old c, old)

abbrev pub raised : ℕ → ℕ → ℕ → Result (ℕ × ℕ)
raised l old threshold = ok (if leb threshold old then l + 1 else l, old)

unfoldable pub counted : ℕ → Access → Position → Config → Result (ℕ × ℕ)
counted timestamp a history c = do
  old ← if c.use_history then if c.aging then aged timestamp a c else ok a.count else ok 0
  levelled c old
counted timestamp a victims c = do
  old ← if c.aging then aged timestamp a c else ok a.count
  levelled c old
counted timestamp a (queues t l) c = do
  threshold ← deref (get_elem? c.thresholds l)
  raised l (add64 a.count 1) threshold

-- `pending`, where the page of a queue goes up to the queue of the threshold.
unfoldable pub add_pending : Position → ℕ → ℕ → ℕ → OldMultiQueue → List (ℕ × ℕ)
add_pending (queues t l) level index addr s =
    if ltb l level && s.config.use_pending_list && level == s.config.threshold_queue
    then s.pending ++ ((index, addr) ∷ [])
    else s.pending
add_pending _ level index addr s = s.pending

-- A page goes to the queue of the level.
abbrev pub requeue : ℕ → ℕ → ℕ → Position → ℕ → ℕ → ℕ → OldMultiQueue → OldMultiQueue
requeue timestamp pid addr pos it level old s =
    let index = index_of pid s.base in
    let entry : Entry Access = record {
      pid = pid;
      addr = addr;
      body = record { expiration_time = expiration timestamp s; count = old; demoted = false };
    } in
    record s {
      store = move pos it (queues (type_of pos) level) index addr entry s.store;
      pending = add_pending pos level index addr s;
    }

-- The access is noted.
abbrev pub tick : ℕ → ℕ → ℕ → OldMultiQueue → OldMultiQueue
tick timestamp pid addr s = record s {
  current_time = add64 s.current_time 1;
  monitored =
      set_monitored (index_of pid s.base) addr
        (record { first_monitor = true; last_monitor = timestamp }) s.monitored;
}

-- Where an entry at the front of a queue of the type goes when it expires, and the rest of its new
-- entry. `AccessEntry(frontPid, addr, type, exp, oldCount)` takes the type for the expiration time, the
-- expiration time for the count, and the count for `demoted`.
abbrev pub type_number : PageType → ℕ
type_number dram = 0
type_number pcm = 1
type_number invalid = 2

abbrev pub evicted_access : PageType → ℕ → ℕ → Access
evicted_access t exp old = record {
  expiration_time = type_number t;
  count = exp;
  demoted = not (old == 0);
}

unfoldable pub lower : Config → PageType → ℕ → Access → Position → Result (Position × Access)
lower c t exp a pos =
    let old = if c.aging then a.count / 2 else a.count in
    elim pos [
      | queues u zero ↦ ok (evicted u, evicted_access u exp old)
      | queues u (suc l) ↦
          if c.second_demotion_eviction && a.demoted
          then ok (evicted u, evicted_access u exp old)
          else ok (queues t l, record { expiration_time = exp; count = old; demoted = true })
      | _ ↦ fault assertion
    ]

-- The front entry of a queue of the type has expired.
unfoldable pub expire_entry : ℕ → PageType → Entry Access → OldMultiQueue → Result OldMultiQueue
expire_entry timestamp t front s = do
  found ← page_of front.pid front.addr s
  (pos, it) ← asserted found
  e ← deref (find it (s.store.lists pos))
  (to, access) ← lower s.config t (expiration timestamp s) e.body pos
  let entry : Entry Access = record { pid = front.pid; addr = front.addr; body = access }
  ok (record s { store = move pos it to front.pid front.addr entry s.store })

-- The body of the loop of `monitor` over the queues, at the queue of a type and a level.
unfoldable pub expire_front : ℕ → PageType → Nodes Access → OldMultiQueue → Result OldMultiQueue
expire_front timestamp t [] s = ok s
expire_front timestamp t ((i, front) ∷ rest) s =
    if ltb front.body.expiration_time (now timestamp s)
    then expire_entry timestamp t front s
    else ok s

-- The loop over the queues of one type, `n` of them from the level `l`.
unfoldable pub expire : ℕ → PageType → ℕ → ℕ → OldMultiQueue → Result OldMultiQueue
expire timestamp t zero l s = ok s
expire timestamp t (suc n) l s = do
  s' ← expire_front timestamp t (s.store.lists (queues t l)) s
  expire timestamp t n (l + 1) s'

-- `monitor`, of an access that counts, to a page whose map entry is given.
unfoldable pub recount : ℕ → ℕ → ℕ → Position → ℕ → OldMultiQueue → Result OldMultiQueue
recount timestamp pid addr pos it s = do
  e ← deref (find it (s.store.lists pos))
  (level, old) ← counted timestamp e.body pos s.config
  s₁ ←
      expire timestamp dram (num_queues s) 0
        (requeue timestamp pid addr pos it level old (tick timestamp pid addr s))
  expire timestamp pcm (num_queues s) 0 s₁

-- `monitor`
unfoldable pub monitor : ℕ → ℕ → ℕ → OldMultiQueue → Result OldMultiQueue
monitor timestamp pid addr s = do
  let index = index_of pid s.base
  found ← page_of index addr s
  (pos, it) ← asserted found
  let counted_now = recount timestamp pid addr pos it s
  (if counts timestamp (s.monitored index addr) s.config then counted_now else ok s)

-- A page moves between DRAM and PCM, with the DRAM pages that are left then.
abbrev pub moved :
    Position → ℕ → Position → Entry Access → ℕ → OldMultiQueue → Option (ℕ × ℕ) × OldMultiQueue
moved from it to entry left s = (
  some (entry.pid, entry.addr),
  record s {
    base = record s.base { dram_pages_left = left };
    store = move from it to entry.pid entry.addr entry s.store;
  },
)

-- `queues[type][pageIt->second.queue]`
unfoldable pub queue_of : PageType → Position → Result Position
queue_of t (queues u l) = ok (queues t l)
queue_of t _ = fault dangling

-- `selectPage`, of the front page of a queue of the one type, which goes to the same queue of the other.
unfoldable pub move_front :
    PageType
    → ℕ
    → PageType
    → ℕ
    → Entry Access
    → ℕ
    → OldMultiQueue
    → Result (Option (ℕ × ℕ) × OldMultiQueue)
move_front from l type i e left s = do
  found ← page_of e.pid e.addr s
  (pos, _) ← deref found
  to ← queue_of type pos
  ok (moved (queues from l) i to e left s)

-- `selectPage`, to PCM, without victims: the first queue with a page, of `n` from the level `l`.
unfoldable pub demote_queued : ℕ → ℕ → OldMultiQueue → Result (Option (ℕ × ℕ) × OldMultiQueue)
demote_queued zero l s = ok (none, s)
demote_queued (suc n) l s =
    let later = demote_queued n (l + 1) s in
    if not (ltb l (num_queues s)) then fault dangling else elim (s.store.lists (queues dram l)) [
      | [] ↦ later
      | (i, e) ∷ _ ↦ move_front dram l pcm i e (add64 s.base.dram_pages_left 1) s
    ]

-- `selectPage`, to PCM: the first victim, if there is one.
unfoldable pub demote : Nodes Access → OldMultiQueue → Result (Option (ℕ × ℕ) × OldMultiQueue)
demote [] s = demote_queued s.config.threshold_queue 0 s
demote ((i, e) ∷ _) s = do
  found ← page_of e.pid e.addr s
  (pos, it) ← asserted found
  assert (same_type (type_of pos) dram)
  assert (same_position pos victims)
  a ← deref (find it (s.store.lists pos))
  let access = evicted_access pcm a.body.expiration_time a.body.count
  ok (moved victims i history (record e { body = access }) (add64 s.base.dram_pages_left 1) s)

-- `selectPage`, to DRAM, without the pending list: the first queue with a page, of `n` below the level
-- `top`.
unfoldable pub promote_top : ℕ → ℕ → OldMultiQueue → Result (Option (ℕ × ℕ) × OldMultiQueue)
promote_top zero top s = ok (none, s)
promote_top (suc n) zero s = fault dangling
promote_top (suc n) (suc l) s =
    let later = promote_top n l s in
    elim (s.store.lists (queues pcm l)) [
      | [] ↦ later
      | (i, e) ∷ _ ↦ move_front pcm l dram i e (sub64 s.base.dram_pages_left 1) s
    ]

-- The loop that takes the pages off the pending list that are not to be promoted any more.
unfoldable pub prune : List (ℕ × ℕ) → OldMultiQueue → Result (List (ℕ × ℕ))
prune [] s = ok []
prune ((p, a) ∷ pending) s = do
  found ← page_of p a s
  (pos, it) ← asserted found
  rest ← prune pending s
  ok (
      if same_type (type_of pos) dram || not (is_above s.config.threshold_queue pos)
      then rest
      else (p, a) ∷ rest)

-- `selectPage`, to DRAM: the first page of the pending list.
unfoldable pub promote_pending :
    List (ℕ × ℕ) → OldMultiQueue → Result (Option (ℕ × ℕ) × OldMultiQueue)
promote_pending [] s = ok (none, record s { pending = [] })
promote_pending ((p, a) ∷ pending) s = do
  found ← page_of p a s
  (pos, it) ← deref found
  e ← deref (find it (s.store.lists pos))
  to ← queue_of dram pos
  ok (
      moved pos it to (record { pid = p; addr = a; body = e.body }) (sub64 s.base.dram_pages_left 1)
        (record s { pending = pending }))

-- `selectPage`
unfoldable pub select_page : OldMultiQueue → Result (Option (ℕ × ℕ) × OldMultiQueue)
select_page s =
    let from_pending = (do pending ← prune s.pending s; promote_pending pending s) in
    if is_nonpositive s.base.dram_pages_left
    then demote (s.store.lists victims) s
    else if s.config.use_pending_list
    then from_pending
    else promote_top ((num_queues s + 2 ^ 32 - s.config.threshold_queue) % 2 ^ 32) (num_queues s) s

-- `migrate` of the base class, with this policy's `selectPage`.
unfoldable pub migrate : OldMultiQueue → Result (Option (ℕ × ℕ) × OldMultiQueue)
migrate s = OldBase.migrate s.base select_page s
