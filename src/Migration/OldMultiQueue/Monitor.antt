-- ===== src/Migration/OldMultiQueue/Monitor.antt =====
-- `OldMultiQueueMigrationPolicy::monitor` (Migration.cpp), step by step.
use native.Mathlib.Decide.{ℕ_discrete}
use hmmsim_server.Prelude.{
  ℕ, zero, suc, ◌+◌, ◌-◌, ◌/◌, ◌^◌, ◌<◌, ◌≡◌, ◌≢◌, refl, ◌∙◌, ap, inl, inr, false, ◌&&◌, Bool-cases,
  Option-cases, some, [], ◌∷◌, length, get_elem?, ltb, leb, lt→ltb, ◌==◌, word, if◌then◌else◌,
  if_true, if_false, eq_self, add64, arith,
}
use hmmsim_server.Prelude.Results.{Result, ok, ◌>>=◌, deref}
use hmmsim_server.Migration.Base.{PageType, dram, pcm}
use hmmsim_server.Migration.OldBase.{OldBase}
use hmmsim_server.Migration.Store.{Entry, Nodes, find}
use hmmsim_server.Migration.MultiQueue.{
  Position, queues, victims, history, position_tags, type_of, init_thresholds, first_below, move,
  evicted,
}
use hmmsim_server.Migration.MultiQueue.Invariant.{Levelled, level, move-Levelled, first_below-lt}
use hmmsim_server.Migration.OldMultiQueue.{
  Access, Config, OldMultiQueue, num_queues, index_of, page_of, now, expiration, counts, aged,
  level_of, levelled, raised, counted, requeue, tick, evicted_access, lower, expire_entry,
  expire_front, expire, recount, monitor,
}

abbrev pub IsValid : OldMultiQueue → Type 0
IsValid s = Levelled s.base.num_pids (num_queues s) s.store

pub index_of-own : (b : OldBase) (pid : ℕ) → pid < b.num_pids → index_of pid b ≡ pid
unfolding index_of
index_of-own b pid own = ground arith

-- Where the map has a page, its entry stands in the list that the map names.
pub entry_at :
    (s : OldMultiQueue) (v : IsValid s) (p a : ℕ) (pos : Position) (it : ℕ)
    → s.store.pages p a ≡ some (pos, it)
    → (e : Entry Access) × (find it (s.store.lists pos) ≡ some e)
      × (e.pid ≡ p)
      × (e.addr ≡ a)
      × (page_of p a s ≡ ok (some (pos, it)))
      × (index_of p s.base ≡ p)
unfolding page_of
entry_at s v p a pos it there =
    let (e, found, ep, ea) = v.linked.linked p a pos it there in
    let own = v.owned p a (pos, it) there in
    (e, found, ep, ea, rw (lt→ltb p s.base.num_pids own, there), index_of-own s.base p own)

-- A state that goes on, in step, with the configuration as it was.
pub record Goes (s : OldMultiQueue) (m : Result OldMultiQueue) : Type 0 where
  pub next : OldMultiQueue
  pub run : m ≡ ok next
  pub valid : IsValid next
  pub config : next.config ≡ s.config

Goes-refl : (s : OldMultiQueue) → IsValid s → Goes s (ok s)
Goes-refl s v = record { next = s; run = refl; valid = v; config = refl }

Goes-then :
    (s : OldMultiQueue) {m : Result OldMultiQueue} (f : OldMultiQueue → Result OldMultiQueue)
    → (g : Goes s m) → Goes g.next (f g.next)
    → Goes s (m >>= f)
Goes-then s f g h = record {
  next = h.next;
  run = rw g.run h.run;
  valid = h.valid;
  config = h.config ∙ g.config;
}

aged-total :
    (timestamp : ℕ) (a : Access) (c : Config)
    → c.lifetime ≢ 0
    → (n : ℕ) × (aged timestamp a c ≡ ok n)
unfolding aged
aged-total timestamp a c h = elim (Bool-cases (c.lifetime == 0)) [
  | inl z ↦ absurd (ground arith)
  | inr z ↦ (_, if_false _ _ z)
]

level_of-lt :
    (old : ℕ) (c : Config) → 0 < length c.thresholds → level_of old c < length c.thresholds
unfolding level_of
level_of-lt old c some_queue = elim (Option-cases (first_below old 0 c.thresholds)) [
  | inl over ↦ rw (level_of, over) some_queue
  | inr (l, found) ↦ rw (level_of, found) (omega (arith, first_below-lt old 0 c.thresholds l found))
]

-- The thresholds of the constructor: only the last queue has the last one, which is the highest number.
threshold-suc :
    (n i l : ℕ)
    → l < length (init_thresholds n i)
    → (t : ℕ) × (get_elem? (init_thresholds n i) l ≡ some t)
      × (suc l ≡ length (init_thresholds n i) → t ≡ word - 1)
unfolding init_thresholds
threshold-suc zero i zero h = (word - 1, refl, λ _. refl)
threshold-suc zero i (suc l) h = absurd (omega arith)
threshold-suc (suc zero) i zero h = (2 ^ (i + 1), refl, λ k. absurd (omega arith))
threshold-suc (suc (suc n)) i zero h = (2 ^ (i + 1), refl, λ k. absurd (omega arith))
threshold-suc (suc n) i (suc l) h =
    let (t, there, last) = threshold-suc n (i + 1) l (omega arith) in
    (t, there, λ k. last (omega arith))

step-lt :
    (threshold l count : ℕ) {n : ℕ}
    → (suc l ≡ n → threshold ≡ word - 1)
    → l < n
    → count + 1 < word - 1
    → (if leb threshold (add64 count 1) then l + 1 else l) < n
step-lt threshold l count {n} last here small = elim (ℕ_discrete (suc l) n) [
  | yes p ↦ let top = last p in ground arith
  | no p ↦ ground arith
]

module _ (timestamp : ℕ) (a : Access) (c : Config) (alive : c.lifetime ≢ 0) where
  -- The level is below the bound.
  abbrev Counts : ℕ → Position → Type 0
  Counts n pos =
      (new_level : ℕ) × (old : ℕ) × (counted timestamp a pos c ≡ ok (new_level, old))
      × (new_level < n)

  counted-aged :
      (m : Result ℕ) (old : ℕ)
      → 0 < length c.thresholds
      → m ≡ ok old
      → (new_level : ℕ) × (old' : ℕ) × ((m >>= levelled c) ≡ ok (new_level, old'))
        × (new_level < length c.thresholds)
  counted-aged m old some_queue run =
      (level_of old c, old, ap (λ r. r >>= levelled c) run, level_of-lt old c some_queue)

  counted-victim : 0 < length c.thresholds → Counts (length c.thresholds) victims
  unfolding counted
  counted-victim some_queue = elim (Bool-cases c.aging) [
    | inl y ↦
        let (n, run) = aged-total timestamp a c alive in
        counted-aged _ n some_queue (if_true _ _ y ∙ run)
    | inr n ↦ counted-aged _ a.count some_queue (if_false _ _ n)
  ]

  counted-history : 0 < length c.thresholds → Counts (length c.thresholds) history
  unfolding counted
  counted-history some_queue = elim (Bool-cases c.use_history) [
    | inr n ↦ counted-aged _ 0 some_queue (if_false _ _ n)
    | inl u ↦ elim (Bool-cases c.aging) [
      | inl y ↦
          let (n, run) = aged-total timestamp a c alive in
          counted-aged _ n some_queue (if_true _ _ u ∙ if_true _ _ y ∙ run)
      | inr n ↦ counted-aged _ a.count some_queue (if_true _ _ u ∙ if_false _ _ n)
    ]
  ]

  counted-queue :
      (t : PageType) (n l : ℕ)
      → c.thresholds ≡ init_thresholds n 0
      → l < length c.thresholds
      → a.count + 1 < word - 1
      → Counts (length c.thresholds) (queues t l)
  unfolding counted
  counted-queue t n l started here small =
      let (threshold, there, last) = threshold-suc n 0 l (rw (← started) here) in
      let there' : get_elem? c.thresholds l ≡ some threshold =
        ap (λ ts. get_elem? ts l) started ∙ there in
      let last' : suc l ≡ length c.thresholds → threshold ≡ word - 1 =
        λ k. last (k ∙ ap length started) in
      (
        if leb threshold (add64 a.count 1) then l + 1 else l,
        add64 a.count 1,
        ap (λ d. deref d >>= raised l (add64 a.count 1)) there',
        step-lt threshold l a.count last' here small,
      )

  counted-total :
      (n : ℕ) (pos : Position)
      → c.thresholds ≡ init_thresholds n 0
      → level pos < length c.thresholds
      → a.count + 1 < word - 1
      → Counts (length c.thresholds) pos
  counted-total n (queues t l) started here small = counted-queue t n l started here small
  counted-total n victims started here small = counted-victim here
  counted-total n history started here small = counted-history here

evicted-level : (t : PageType) (n : ℕ) → 0 < n → level (evicted t) < n
evicted-level t n h = ground arith

lower-total :
    (c : Config) (t : PageType) (exp : ℕ) (a : Access) (l n : ℕ)
    → l < n
    → (to : Position) × (access : Access) × (lower c t exp a (queues t l) ≡ ok (to, access))
      × (level to < n)
unfolding lower
lower-total c t exp a zero n h = (
  evicted t,
  evicted_access t exp (if c.aging then a.count / 2 else a.count),
  refl,
  evicted-level t n h,
)
lower-total c t exp a (suc l) n h = elim (Bool-cases (c.second_demotion_eviction && a.demoted)) [
  | inl y ↦ (
    evicted t,
    evicted_access t exp (if c.aging then a.count / 2 else a.count),
    if_true _ _ y,
    evicted-level t n (omega arith),
  )
  | inr stays ↦ (queues t l, _, if_false _ _ stays, omega arith)
]

expire_entry-Goes :
    (timestamp : ℕ) (t : PageType) (l i : ℕ) (front : Entry Access) (s : OldMultiQueue)
    → IsValid s
    → find i (s.store.lists (queues t l)) ≡ some front
    → Goes s (expire_entry timestamp t front s)
unfolding expire_entry
expire_entry-Goes timestamp t l i front s v at_front =
    let there = v.linked.held (queues t l) i front at_front in
    let (e, found, ep, ea, page, _) = entry_at s v front.pid front.addr (queues t l) i there in
    let (to, access, run, here) =
      lower-total s.config t (expiration timestamp s) e.body l (num_queues s)
        (v.ranged front.pid front.addr _ there) in
    let entry : Entry Access = record { pid = front.pid; addr = front.addr; body = access } in
    record {
      next = record s { store = move (queues t l) i to front.pid front.addr entry s.store };
      run = rw (page, found, run) refl;
      valid = move-Levelled v (queues t l) i to entry there here;
      config = refl;
    }

find_first : (i : ℕ) (e : Entry Access) (q : Nodes Access) → find i ((i, e) ∷ q) ≡ some e
unfolding find
find_first i e q = rw (eq_self i)

expire_front-Goes :
    (timestamp : ℕ) (t : PageType) (l : ℕ) (q : Nodes Access) (s : OldMultiQueue)
    → IsValid s
    → s.store.lists (queues t l) ≡ q
    → Goes s (expire_front timestamp t q s)
unfolding expire_front
expire_front-Goes timestamp t l [] s v same = Goes-refl s v
expire_front-Goes timestamp t l ((i, front) ∷ rest) s v same =
    elim (Bool-cases (ltb front.body.expiration_time (now timestamp s))) [
      | inr fresh ↦ rw fresh (Goes-refl s v)
      | inl late ↦
          rw late (expire_entry-Goes timestamp t l i front s v (rw same (find_first i front rest)))
    ]

expire-Goes :
    (timestamp : ℕ) (t : PageType) (n l : ℕ) (s : OldMultiQueue)
    → IsValid s
    → Goes s (expire timestamp t n l s)
unfolding expire
expire-Goes timestamp t zero l s v = Goes-refl s v
expire-Goes timestamp t (suc n) l s v =
    let g = expire_front-Goes timestamp t l (s.store.lists (queues t l)) s v refl in
    Goes-then s (expire timestamp t n (l + 1)) g (expire-Goes timestamp t n (l + 1) g.next g.valid)

-- The page that is accessed goes to its queue.
module _ (timestamp p a : ℕ) (s : OldMultiQueue) (pos : Position) (it : ℕ) (v : IsValid s)
    (there : s.store.pages p a ≡ some (pos, it)) where
  requeue-IsValid :
      (new_level old : ℕ)
      → index_of p s.base ≡ p
      → new_level < num_queues s
      → IsValid (requeue timestamp p a pos it new_level old (tick timestamp p a s))
  requeue-IsValid new_level old index here = rw index (
      move-Levelled v pos it (queues (type_of pos) new_level)
        (record {
          pid = p;
          addr = a;
          body = record {
            expiration_time = expiration timestamp (tick timestamp p a s);
            count = old;
            demoted = false;
          };
        })
        there here)

  recount-Goes :
      (n : ℕ)
      → s.config.lifetime ≢ 0
      → s.config.thresholds ≡ init_thresholds n 0
      → ((e : Entry Access) → find it (s.store.lists pos) ≡ some e → e.body.count + 1 < word - 1)
      → Goes s (recount timestamp p a pos it s)
  unfolding recount
  recount-Goes n alive started small =
      let (e, found, _, _, _, index) = entry_at s v p a pos it there in
      let (new_level, old, run, here) =
        counted-total timestamp e.body s.config alive n pos started (v.ranged p a (pos, it) there)
          (small e found) in
      let s₀ = requeue timestamp p a pos it new_level old (tick timestamp p a s) in
      let m = num_queues s in
      let g = expire-Goes timestamp dram m 0 s₀ (requeue-IsValid new_level old index here) in
      let h =
        Goes-then s₀ (expire timestamp pcm m 0) g (expire-Goes timestamp pcm m 0 g.next g.valid) in
      record { next = h.next; run = rw (found, run) h.run; valid = h.valid; config = h.config }

-- Where the lists and the map are in step, the page is known, the lifetime is not 0, the thresholds
-- are those of the constructor and the count of the page is no higher than 2 ^ 64 - 3, `monitor`
-- fails no assertion and follows no dangling iterator, and leaves the lists and the map in step,
-- with no page in a queue that does not exist.
pub monitor_in_step :
    (timestamp p a n : ℕ) (s : OldMultiQueue) (pos : Position) (it : ℕ)
    → IsValid s
    → s.store.pages p a ≡ some (pos, it)
    → s.config.lifetime ≢ 0
    → s.config.thresholds ≡ init_thresholds n 0
    → ((e : Entry Access) → find it (s.store.lists pos) ≡ some e → e.body.count + 1 < word - 1)
    → Goes s (monitor timestamp p a s)
unfolding monitor
monitor_in_step timestamp p a n s pos it v there alive started small =
    let (e, found, _, _, page, index) = entry_at s v p a pos it there in
    elim (Bool-cases (counts timestamp (s.monitored p a) s.config)) [
      | inl now_counted ↦
          rw (index, page, now_counted)
            (recount-Goes timestamp p a s pos it v there n alive started small)
      | inr filtered ↦ rw (index, page, filtered) (Goes-refl s v)
    ]
