-- ===== src/Migration/MultiQueue/Invariant.antt =====
-- The invariant of the lists and the page map of `MultiQueueMigrationPolicy` (Migration.cpp).
use hmmsim_server.Prelude.{
  ℕ, ◌+◌, ◌<◌, ◌≡◌, refl, ◌∙◌, ap, inl, inr, Option-cases, none, some, List, [], ◌∷◌, length,
  lt→ltb, arith,
}
use hmmsim_server.Prelude.Results.{ok}
use hmmsim_server.Migration.Store.{Entry, find, back, Store, link, unlink}
use hmmsim_server.Migration.Store.Links.{Linked, link-Linked, relink-Linked}
use hmmsim_server.Migration.MultiQueue.{
  Position, queues, position_tags, Access, Config, MultiQueue, level_of, first_below, index_of,
  page_of, move, num_queues,
}

-- The number of a queue.
abbrev pub level : Position → ℕ
level (queues t l) = l
level _ = 0

-- The lists and the page map point at one another, and pages are of processes and in queues that
-- exist.
pub record Levelled {B : Type 0} (num_pids num_queues : ℕ) (s : Store Position B) : Type 0 where
  pub linked : Linked s
  pub owned : (p a : ℕ) (q : Position × ℕ) → s.pages p a ≡ some q → p < num_pids
  pub ranged : (p a : ℕ) (q : Position × ℕ) → s.pages p a ≡ some q → level q.0 < num_queues
  pub queued : 0 < num_queues

abbrev pub IsValid : MultiQueue → Type 0
IsValid s = Levelled s.base.num_pids (num_queues s) s.store

pub index_of-own : (s : MultiQueue) (pid : ℕ) → pid < s.base.num_pids → index_of pid s.base ≡ pid
unfolding index_of
index_of-own s pid own = ground arith

pub page_of-own :
    (s : MultiQueue) (pid addr : ℕ)
    → pid < s.base.num_pids
    → page_of pid addr s ≡ ok (s.store.pages pid addr)
unfolding page_of
page_of-own s pid addr own = rw (lt→ltb pid s.base.num_pids own)

pub first_below-lt :
    (count i : ℕ) (ts : List ℕ) (l : ℕ) → first_below count i ts ≡ some l → l < i + length ts
unfolding first_below
first_below-lt count i [] l h = cc
first_below-lt count i (t ∷ []) l h = cc
first_below-lt count i (t ∷ u ∷ ts) l h = ground (arith, first_below-lt count (i + 1) (u ∷ ts) l)

pub level_of-lt :
    (count : ℕ) (c : Config) → 0 < length c.thresholds → level_of count c < length c.thresholds
unfolding level_of
level_of-lt count c some_queue = elim (Option-cases (first_below count 0 c.thresholds)) [
  | inl over ↦ rw (level_of, over) some_queue
  | inr (l, found) ↦
      rw (level_of, found) (omega (arith, first_below-lt count 0 c.thresholds l found))
]

module _ {B : Type 0} (to : Position) (p a : ℕ) (e : Entry B) (s : Store Position B) where
  link-owned :
      {n : ℕ}
      → p < n
      → ((q b : ℕ) (x : Position × ℕ) → s.pages q b ≡ some x → q < n)
      → (q b : ℕ) (x : Position × ℕ) → (link back to p a e s).pages q b ≡ some x
      → q < n
  unfolding link
  link-owned own owned q b x h = ground (arith, owned q b x)

  link-ranged :
      {n : ℕ}
      → level to < n
      → ((q b : ℕ) (x : Position × ℕ) → s.pages q b ≡ some x → level x.0 < n)
      → (q b : ℕ) (x : Position × ℕ) → (link back to p a e s).pages q b ≡ some x
      → level x.0 < n
  unfolding link
  link-ranged here ranged q b x h = ground (arith, ranged q b x)

unlink-pages :
    {P : ℕ → Position × ℕ → Type 0} {B : Type 0} (pos : Position) (it : ℕ) (s : Store Position B)
    → ((q b : ℕ) (x : Position × ℕ) → s.pages q b ≡ some x → P q x)
    → (q b : ℕ) (x : Position × ℕ) → (unlink pos it s).pages q b ≡ some x
    → P q x
unfolding unlink
unlink-pages pos it s h = h

module _ (s : MultiQueue) (v : IsValid s) where
  -- Where the map has a page, its entry stands in the list that the map names.
  pub entry_at :
      (p a : ℕ) (pos : Position) (it : ℕ)
      → s.store.pages p a ≡ some (pos, it)
      → (e : Entry Access) × (find it (s.store.lists pos) ≡ some e)
        × (e.pid ≡ p)
        × (e.addr ≡ a)
        × (page_of p a s ≡ ok (some (pos, it)))
        × (index_of p s.base ≡ p)
  entry_at p a pos it there =
      let (e, found, ep, ea) = v.linked.linked p a pos it there in
      let own = v.owned p a (pos, it) there in
      (e, found, ep, ea, page_of-own s p a own ∙ ap ok there, index_of-own s p own)

-- A page that moves to a queue that exists leaves the lists and the map in step.
pub move-Levelled :
    {B : Type 0} {num_pids num_queues : ℕ} {s : Store Position B}
    → Levelled num_pids num_queues s
    → (pos : Position) (it : ℕ) (to : Position) (entry : Entry B)
    → s.pages entry.pid entry.addr ≡ some (pos, it)
    → level to < num_queues
    → Levelled num_pids num_queues (move pos it to entry.pid entry.addr entry s)
move-Levelled {s} v pos it to entry there here = record {
  linked = relink-Linked back to entry entry.pid entry.addr pos it refl refl there v.linked;
  owned =
      link-owned to entry.pid entry.addr entry (unlink pos it s)
        (v.owned entry.pid entry.addr (pos, it) there) (unlink-pages pos it s v.owned);
  ranged =
      link-ranged to entry.pid entry.addr entry (unlink pos it s) here
        (unlink-pages pos it s v.ranged);
  queued = v.queued;
}

-- So does a page that is new.
pub link-Levelled :
    {B : Type 0} {num_pids num_queues : ℕ} {s : Store Position B}
    → Levelled num_pids num_queues s
    → (to : Position) (entry : Entry B) → s.pages entry.pid entry.addr ≡ none
    → entry.pid < num_pids
    → level to < num_queues
    → Levelled num_pids num_queues (link back to entry.pid entry.addr entry s)
link-Levelled {s} v to entry absent own here = record {
  linked = link-Linked back to entry absent v.linked;
  owned = link-owned to entry.pid entry.addr entry s own v.owned;
  ranged = link-ranged to entry.pid entry.addr entry s here v.ranged;
  queued = v.queued;
}
