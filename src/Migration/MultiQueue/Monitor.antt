-- ===== src/Migration/MultiQueue/Monitor.antt =====
-- `MultiQueueMigrationPolicy::monitor` (Migration.cpp), step by step.
use hmmsim_server.Prelude.{
  ℕ, zero, suc, ◌+◌, ◌<◌, ◌≡◌, ◌≢◌, refl, ◌∙◌, inl, inr, Bool, true, false, ◌&&◌, Bool-cases,
  Option, none, some, List, [], ◌∷◌, All, All-map, ltb, ◌==◌, if_true, eq_self, add64, arith,
}
use hmmsim_server.Prelude.Results.{Result, ok, ◌>>=◌}
use hmmsim_server.Migration.Base
use hmmsim_server.Migration.Base.{PageType, dram, pcm, invalid, ProgressEntry}
use hmmsim_server.Migration.Store.{Entry, Nodes, find, Store, link, unlink}
use hmmsim_server.Migration.MultiQueue.{
  Position, queues, victims, history, position_tags, Access, Config, MultiQueue, CountEntry,
  level_of, type_of, move, num_queues, aged_count, aged, requeue, tick, expired, expire_entry,
  expire_front, expiration, now, old_count, recount, evicted, lower, expire, count_page,
  monitor_counts, monitor,
}
use hmmsim_server.Migration.MultiQueue.Invariant.{
  IsValid, level, entry_at, move-Levelled, level_of-lt,
}

-- A page that the map holds.
abbrev pub is_known : Option (Position × ℕ) → Bool
is_known none = false
is_known (some p) = true

known_some :
    (o : Option (Position × ℕ))
    → is_known o ≡ true
    → (pos : Position) × (it : ℕ) × (o ≡ some (pos, it))
known_some none h = cc
known_some (some (pos, it)) h = (pos, it, refl)

-- The state goes on: no part of it is lost that the next step needs.
pub record Goes (s : MultiQueue) (m : Result MultiQueue) : Type 0 where
  pub next : MultiQueue
  pub run : m ≡ ok next
  pub valid : IsValid next
  pub config : next.config ≡ s.config
  pub knows :
      (p a : ℕ) → is_known (s.store.pages p a) ≡ true → is_known (next.store.pages p a) ≡ true

aged-total :
    (timestamp : ℕ) (a : Access) (old : ℕ) (c : Config)
    → c.lifetime ≢ 0
    → (n : ℕ) × (aged timestamp a old c ≡ ok n)
unfolding aged
aged-total timestamp a old c h = elim (Bool-cases (c.lifetime == 0)) [
  | inl z ↦ absurd (ground arith)
  | inr z ↦ (aged_count timestamp a old c, rw z)
]

old_count-total :
    (timestamp count : ℕ) (a : Access) (pos : Position) (c : Config)
    → c.lifetime ≢ 0
    → (n : ℕ) × (old_count timestamp count a pos c ≡ ok n)
unfolding old_count
old_count-total timestamp count a (queues t l) c h = (_, refl)
old_count-total timestamp count a victims c h = elim (Bool-cases c.aging) [
  | inl y ↦
      let (n, run) = aged-total timestamp a (add64 a.count count) c h in (n, if_true _ _ y ∙ run)
  | inr n ↦ (add64 a.count count, rw n)
]
old_count-total timestamp count a history c h = elim (Bool-cases c.use_history) [
  | inr n ↦ (count, rw n)
  | inl u ↦ elim (Bool-cases c.aging) [
    | inl y ↦
        let (n, run) = aged-total timestamp a (add64 a.count count) c h in
        (n, if_true _ _ u ∙ if_true _ _ y ∙ run)
    | inr n ↦ (add64 a.count count, rw (u, n))
  ]
]

move-knows :
    (from : Position) (it : ℕ) (to : Position) (p a : ℕ) (e : Entry Access)
    (s : Store Position Access) (q b : ℕ)
    → is_known (s.pages q b) ≡ true
    → is_known ((move from it to p a e s).pages q b) ≡ true
unfolding link unlink
move-knows from it to p a e s q b h = ground arith

recount-Goes :
    (timestamp : ℕ) (c : CountEntry) {s : MultiQueue}
    → IsValid s
    → s.config.lifetime ≢ 0
    → is_known (s.store.pages c.pid c.page) ≡ true
    → Goes s (recount timestamp c s)
unfolding recount
recount-Goes timestamp c {s} v alive known =
    let (pos, it, there) = known_some _ known in
    let (e, found, ep, ea, page, index) = entry_at s v c.pid c.page pos it there in
    let (old, counted) = old_count-total timestamp c.reads e.body pos s.config alive in
    let s' = requeue timestamp c pos it e.body.migrating old (tick s) in
    record {
      next = s';
      run = rw (index, page, found, counted) refl;
      valid = rw index (
          (move-Levelled v pos it (queues (type_of pos) (level_of old s.config))
            (record {
              pid = c.pid;
              addr = c.page;
              body = record {
                expiration_time = expiration timestamp (tick s);
                count = old;
                demoted = false;
                migrating = e.body.migrating;
              };
            })
            there (level_of-lt old s.config v.queued)));
      config = refl;
      knows = λ q b h. move-knows pos it _ _ c.page _ s.store q b h;
    }

lower-total :
    (c : Config) (t : PageType) (a : Access) (l n : ℕ)
    → l < n
    → (to : Position) × (demoted : Bool) × (lower c t a (queues t l) ≡ ok (to, demoted))
      × (level to < n)
unfolding lower
lower-total c t a zero n h = (evicted t, false, refl, evicted-level t)
  where
    evicted-level : (t : PageType) → level (evicted t) < n
    evicted-level t = ground arith
lower-total c t a (suc l) n h = elim (Bool-cases (c.second_demotion_eviction && a.demoted)) [
  | inl y ↦ (evicted t, false, rw y, evicted-level t)
  | inr stays ↦ (queues t l, true, rw stays, omega arith)
]
  where
    evicted-level : (t : PageType) → level (evicted t) < n
    evicted-level t = ground arith

Goes-refl : {s : MultiQueue} → IsValid s → Goes s (ok s)
Goes-refl {s} v = record { next = s; run = refl; valid = v; config = refl; knows = λ p a h. h }

Goes-then :
    {s : MultiQueue} {m : Result MultiQueue} (f : MultiQueue → Result MultiQueue)
    → (g : Goes s m) → Goes g.next (f g.next)
    → Goes s (m >>= f)
Goes-then f g h = record {
  next = h.next;
  run = rw g.run h.run;
  valid = h.valid;
  config = h.config ∙ g.config;
  knows = λ p a k. h.knows p a (g.knows p a k);
}

expire_entry-Goes :
    (timestamp : ℕ) (t : PageType) (l i : ℕ) (front : Entry Access) {s : MultiQueue}
    → IsValid s
    → find i (s.store.lists (queues t l)) ≡ some front
    → Goes s (expire_entry timestamp t front s)
unfolding expire_entry
expire_entry-Goes timestamp t l i front {s} v at_front =
    let there = v.linked.held (queues t l) i front at_front in
    let (e, found, ep, ea, page, _) = entry_at s v front.pid front.addr (queues t l) i there in
    let (to, demoted, run, here) =
      lower-total s.config t e.body l (num_queues s) (v.ranged front.pid front.addr _ there) in
    let entry = expired timestamp front demoted e.body s in
    record {
      next = record s { store = move (queues t l) i to front.pid front.addr entry s.store };
      run = rw (page, found, run) refl;
      valid = move-Levelled v (queues t l) i to entry there here;
      config = refl;
      knows = λ q b h. move-knows (queues t l) i to front.pid front.addr entry s.store q b h;
    }

find_first : (i : ℕ) (e : Entry Access) (q : Nodes Access) → find i ((i, e) ∷ q) ≡ some e
unfolding find
find_first i e q = rw (eq_self i)

expire_front-Goes :
    (timestamp : ℕ) (t : PageType) (l : ℕ) (q : Nodes Access) {s : MultiQueue}
    → IsValid s
    → s.store.lists (queues t l) ≡ q
    → Goes s (expire_front timestamp t q s)
unfolding expire_front
expire_front-Goes timestamp t l [] v same = Goes-refl v
expire_front-Goes timestamp t l ((i, front) ∷ rest) {s} v same =
    elim (Bool-cases (ltb front.body.expiration_time (now timestamp s))) [
      | inr fresh ↦ rw fresh (Goes-refl v)
      | inl late ↦
          rw late (expire_entry-Goes timestamp t l i front v (rw same (find_first i front rest)))
    ]

expire-Goes :
    (timestamp : ℕ) (t : PageType) (n l : ℕ) {s : MultiQueue}
    → IsValid s
    → Goes s (expire timestamp t n l s)
unfolding expire
expire-Goes timestamp t zero l v = Goes-refl v
expire-Goes timestamp t (suc n) l {s} v =
    let g = expire_front-Goes timestamp t l (s.store.lists (queues t l)) v refl in
    Goes-then (expire timestamp t n (l + 1)) g (expire-Goes timestamp t n (l + 1) g.valid)

-- The pages that are counted are known.
abbrev pub Known : List CountEntry → MultiQueue → Type 0
Known counts s = All (λ c. is_known (s.store.pages c.pid c.page) ≡ true) counts

Known-next :
    {s : MultiQueue} {m : Result MultiQueue} (g : Goes s m) (counts : List CountEntry)
    → Known counts s
    → Known counts g.next
Known-next g counts k = All-map (λ c h. g.knows c.pid c.page h) counts k

count_page-Goes :
    (timestamp : ℕ) (c : CountEntry) {s : MultiQueue}
    → IsValid s
    → s.config.lifetime ≢ 0
    → is_known (s.store.pages c.pid c.page) ≡ true
    → Goes s (count_page timestamp c s)
unfolding count_page
count_page-Goes timestamp c {s} v alive known =
    let n = num_queues s in
    let g = recount-Goes timestamp c v alive known in
    let h = expire-Goes timestamp dram n 0 g.valid in
    Goes-then (λ s₁. expire timestamp dram n 0 s₁ >>= expire timestamp pcm n 0) g
      (Goes-then (expire timestamp pcm n 0) h (expire-Goes timestamp pcm n 0 h.valid))

monitor_counts-Goes :
    (timestamp : ℕ) (counts : List CountEntry) {s : MultiQueue}
    → IsValid s
    → s.config.lifetime ≢ 0
    → Known counts s
    → Goes s (monitor_counts timestamp counts s)
unfolding monitor_counts
monitor_counts-Goes timestamp [] v alive known = Goes-refl v
monitor_counts-Goes timestamp (c ∷ cs) {s} v alive known =
    let g = count_page-Goes timestamp c v alive known.0 in
    Goes-then (monitor_counts timestamp cs) g
      (monitor_counts-Goes timestamp cs g.valid (rw g.config alive) (Known-next g cs known.1))

-- Where the lists and the map are in step, every counted page is known and the lifetime is not 0,
-- `monitor` fails no assertion, follows no dangling iterator and divides by no zero; the lists and the
-- map are in step behind it, and no page is lost.
pub monitor-Goes :
    (timestamp : ℕ) (counts : List CountEntry) (progress : List ProgressEntry) {s : MultiQueue}
    → IsValid s
    → s.config.lifetime ≢ 0
    → Known counts s
    → Goes s (monitor timestamp counts progress s)
unfolding monitor Base.monitor
monitor-Goes timestamp counts progress {s} v alive known =
    let g = monitor_counts-Goes timestamp counts v alive known in
    Goes-then (λ s'. ok (record s' { base = Base.monitor progress s'.base })) g
      (record {
        next = record g.next { base = Base.monitor progress g.next.base };
        run = refl;
        valid = record {
          linked = g.valid.linked;
          owned = g.valid.owned;
          ranged = g.valid.ranged;
          queued = g.valid.queued;
        };
        config = refl;
        knows = λ p a h. h;
      })
