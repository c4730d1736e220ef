-- ===== src/Migration/OldMultiQueue/Selection.antt =====
-- Which page `OldMultiQueueMigrationPolicy::selectPage` (Migration.cpp) moves.
use mathlib.Core.Path.{subst}
use hmmsim_server.Prelude.{
  ℕ, zero, suc, ◌+◌, ◌-◌, ◌%◌, ◌^◌, ◌&&◌, ◌≤◌, ◌<◌, ◌≡◌, refl, ◌∙◌, ap, sym, ◌⊎◌, inl, inr, Bool,
  true, false, ◌||◌, not, Bool-cases, Option, none, some, List, [], ◌∷◌, All, ltb, lt→ltb,
  if◌then◌else◌, if_true, if_false, eq_self, add64, sub64, is_nonpositive, arith,
}
use hmmsim_server.Prelude.Results.{Result, ok, ◌>>=◌}
use hmmsim_server.Migration.Base.{PageType, dram, pcm}
use hmmsim_server.Migration.Store.{Entry, Nodes, find, Store, link, unlink}
use hmmsim_server.Migration.MultiQueue.{
  Position, queues, victims, history, position_tags, same_type, type_of, move, is_above,
}
use hmmsim_server.Migration.MultiQueue.Invariant.{level, move-Levelled}
use hmmsim_server.Migration.OldMultiQueue.{
  Access, OldMultiQueue, num_queues, evicted_access, moved, queue_of, move_front, demote_queued,
  demote, promote_top, prune, promote_pending, select_page,
}
use hmmsim_server.Migration.OldMultiQueue.Choice.{
  first_page, levels_up, levels_down, is_wanted, first_wanted, choice,
}
use hmmsim_server.Migration.OldMultiQueue.Monitor.{IsValid, entry_at}

-- A page is in DRAM, or is not.
abbrev pub InDram : Bool → ℕ → ℕ → OldMultiQueue → Type 0
InDram b p a s =
    (pos : Position) × (it : ℕ) × (s.store.pages p a ≡ some (pos, it))
    × (same_type (type_of pos) dram ≡ b)

-- What a selection returns is a page that was in DRAM, or not, and is the other way now, with the DRAM
-- pages counted; or nothing, where no page moves.
abbrev pub Turned : Bool → Option (ℕ × ℕ) → OldMultiQueue → OldMultiQueue → Type 0
Turned b none s s' = (s'.store ≡ s.store) × (s'.base ≡ s.base)
Turned b (some (p, a)) s s' =
    InDram b p a s
    × InDram (not b) p a s'
    × (s'.base.dram_pages_left
        ≡ (if b then add64 s.base.dram_pages_left 1 else sub64 s.base.dram_pages_left 1))

pub record Turns (b : Bool) (c : Option (ℕ × ℕ)) (s : OldMultiQueue)
    (m : Result (Option (ℕ × ℕ) × OldMultiQueue)) : Type 0 where
  pub page : Option (ℕ × ℕ)
  pub chosen : page ≡ c
  pub next : OldMultiQueue
  pub run : m ≡ ok (page, next)
  pub valid : IsValid next
  pub turned : Turned b page s next

move-pages :
    (from : Position) (it : ℕ) (to : Position) (p a : ℕ) (e : Entry Access)
    (s : Store Position Access)
    → (move from it to p a e s).pages p a ≡ some (to, s.fresh)
unfolding link unlink
move-pages from it to p a e s = ground (arith, eq_self p, eq_self a)

abbrev left_after : Bool → OldMultiQueue → ℕ
left_after b s = if b then add64 s.base.dram_pages_left 1 else sub64 s.base.dram_pages_left 1

moved-Turns :
    (b : Bool) (s : OldMultiQueue) (v : IsValid s) (from to : Position) (it : ℕ)
    (entry : Entry Access)
    → s.store.pages entry.pid entry.addr ≡ some (from, it)
    → level to < num_queues s
    → same_type (type_of from) dram ≡ b
    → same_type (type_of to) dram ≡ not b
    → Turns b (some (entry.pid, entry.addr)) s (ok (moved from it to entry (left_after b s) s))
moved-Turns b s v from to it entry there here down up = record {
  page = some (entry.pid, entry.addr);
  chosen = refl;
  next = (moved from it to entry (left_after b s) s).1;
  run = refl;
  valid = move-Levelled v from it to entry there here;
  turned = (
    (from, it, there, down),
    (to, s.store.fresh, move-pages from it to entry.pid entry.addr entry s.store, up),
    refl,
  );
}

stays-Turns : (b : Bool) (s : OldMultiQueue) → IsValid s → Turns b none s (ok (none, s))
stays-Turns b s v = record {
  page = none;
  chosen = refl;
  next = s;
  run = refl;
  valid = v;
  turned = (refl, refl);
}

Turns-run :
    (b : Bool) (s : OldMultiQueue) {c d : Option (ℕ × ℕ)}
    {m n : Result (Option (ℕ × ℕ) × OldMultiQueue)}
    → d ≡ c
    → n ≡ m
    → Turns b c s m
    → Turns b d s n
Turns-run b s picks same t = record {
  page = t.page;
  chosen = t.chosen ∙ sym picks;
  next = t.next;
  run = same ∙ t.run;
  valid = t.valid;
  turned = t.turned;
}

find_first : (i : ℕ) (e : Entry Access) (q : Nodes Access) → find i ((i, e) ∷ q) ≡ some e
unfolding find
find_first i e q = rw (eq_self i)

-- The front page of a queue goes to the same queue of the other memory.
move_front-Turns :
    (b : Bool) (from to : PageType) (l i : ℕ) (e : Entry Access) (rest : Nodes Access)
    (s : OldMultiQueue)
    → IsValid s
    → s.store.lists (queues from l) ≡ (i, e) ∷ rest
    → same_type from dram ≡ b
    → same_type to dram ≡ not b
    → Turns b (some (e.pid, e.addr)) s (move_front from l to i e (left_after b s) s)
unfolding move_front queue_of
move_front-Turns b from to l i e rest s v front down up =
    let found : find i (s.store.lists (queues from l)) ≡ some e = rw front (find_first i e rest) in
    let there = v.linked.held (queues from l) i e found in
    let (f, _, _, _, page, _) = entry_at s v e.pid e.addr (queues from l) i there in
    Turns-run b s refl (rw page refl) (
      moved-Turns b s v (queues from l) (queues to l) i e there (v.ranged e.pid e.addr _ there) down
        up)

Nodes-cases :
    (q : Nodes Access)
    → (q ≡ []) ⊎ ((i : ℕ) × (e : Entry Access) × (rest : Nodes Access) × (q ≡ (i, e) ∷ rest))
Nodes-cases [] = inl refl
Nodes-cases ((i, e) ∷ q) = inr (i, e, q, refl)

demote_queued-Turns :
    (n l : ℕ) (s : OldMultiQueue)
    → IsValid s
    → l + n ≤ num_queues s
    → Turns true
        (first_page (levels_up n l (λ l. s.store.lists (queues dram l))))
        s
        (demote_queued n l s)
unfolding demote_queued
demote_queued-Turns zero l s v fits = stays-Turns true s v
demote_queued-Turns (suc n) l s v fits =
    let here : ltb l (num_queues s) ≡ true = lt→ltb l (num_queues s) (omega arith) in
    elim (Nodes-cases (s.store.lists (queues dram l))) [
      | inl empty ↦
          Turns-run true s (rw empty refl) (rw (here, empty) refl)
            (demote_queued-Turns n (l + 1) s v (omega arith))
      | inr (i, e, rest, front) ↦
          Turns-run true s (rw front refl) (rw (here, front) refl)
            (move_front-Turns true dram pcm l i e rest s v front refl refl)
    ]

demote-Turns :
    (q : Nodes Access) (s : OldMultiQueue)
    → IsValid s
    → s.store.lists victims ≡ q
    → s.config.threshold_queue ≤ num_queues s
    → Turns true
        (first_page (q ∷ levels_up s.config.threshold_queue 0 (λ l. s.store.lists (queues dram l))))
        s
        (demote q s)
unfolding demote
demote-Turns [] s v same fits = demote_queued-Turns s.config.threshold_queue 0 s v (omega arith)
demote-Turns ((i, e) ∷ rest) s v same fits =
    let found : find i (s.store.lists victims) ≡ some e = rw same (find_first i e rest) in
    let there = v.linked.held victims i e found in
    let (f, at_page, _, _, page, _) = entry_at s v e.pid e.addr victims i there in
    Turns-run true s refl (rw (page, at_page) refl) (
      moved-Turns true s v victims history i
        (record e { body = evicted_access pcm f.body.expiration_time f.body.count }) there v.queued
        refl refl)

promote_top-Turns :
    (n top : ℕ) (s : OldMultiQueue)
    → IsValid s
    → n ≤ top
    → Turns false
        (first_page (levels_down n top (λ l. s.store.lists (queues pcm l))))
        s
        (promote_top n top s)
unfolding promote_top
promote_top-Turns zero top s v fits = stays-Turns false s v
promote_top-Turns (suc n) zero s v fits = absurd (omega arith)
promote_top-Turns (suc n) (suc l) s v fits = elim (Nodes-cases (s.store.lists (queues pcm l))) [
  | inl empty ↦
      Turns-run false s (rw empty refl) (rw (promote_top, empty) refl)
        (promote_top-Turns n l s v (omega arith))
  | inr (i, e, rest, front) ↦
      Turns-run false s (rw front refl) (rw (promote_top, front) refl)
        (move_front-Turns false pcm dram l i e rest s v front refl refl)
]

abbrev is_known : Option (Position × ℕ) → Bool
is_known none = false
is_known (some p) = true

-- The pages of the list are known.
abbrev pub Known : OldMultiQueue → List (ℕ × ℕ) → Type 0
Known s = All (λ x. is_known (s.store.pages x.0 x.1) ≡ true)

-- The pages of the list wait in queues, and are not in DRAM.
abbrev Waiting : OldMultiQueue → List (ℕ × ℕ) → Type 0
Waiting s = All (λ x.
    (t : PageType) × (l : ℕ) × (it : ℕ) × (s.store.pages x.0 x.1 ≡ some (queues t l, it))
    × (same_type t dram ≡ false))

known_some :
    (o : Option (Position × ℕ))
    → is_known o ≡ true
    → (pos : Position) × (it : ℕ) × (o ≡ some (pos, it))
known_some none h = cc
known_some (some (pos, it)) h = (pos, it, refl)

waits :
    (threshold : ℕ) (pos : Position)
    → (same_type (type_of pos) dram || not (is_above threshold pos)) ≡ false
    → (t : PageType) × (l : ℕ) × (pos ≡ queues t l) × (same_type t dram ≡ false)
waits threshold (queues t l) h = (t, l, refl, ground arith)
waits threshold victims h = cc
waits threshold history h = cc

abbrev first_of : List (ℕ × ℕ) → Option (ℕ × ℕ)
first_of [] = none
first_of (x ∷ q) = some x

-- The test of the loop is that a page is to be promoted.
wanted_as :
    (threshold : ℕ) (o : Option (Position × ℕ)) (pos : Position) (it : ℕ)
    → o ≡ some (pos, it)
    → is_wanted threshold o ≡ not (same_type (type_of pos) dram || not (is_above threshold pos))
wanted_as threshold o pos it there =
    ap (is_wanted threshold) there ∙ both (same_type (type_of pos) dram) (is_above threshold pos)
  where
    both : (x y : Bool) → (not x && y) ≡ not (x || not y)
    both true y = refl
    both false true = refl
    both false false = refl

prune-Waiting :
    (q : List (ℕ × ℕ)) (s : OldMultiQueue)
    → IsValid s
    → Known s q
    → (q' : List (ℕ × ℕ)) × (prune q s ≡ ok q') × Waiting s q' × (first_of q' ≡ first_wanted s q)
unfolding prune
prune-Waiting [] s v known = ([], refl, tt, refl)
prune-Waiting ((p, a) ∷ q) s v known =
    let (pos, it, there) = known_some (s.store.pages p a) known.0 in
    let (_, _, _, _, page, _) = entry_at s v p a pos it there in
    let (q', run, waiting, first) = prune-Waiting q s v known.1 in
    let wanted = wanted_as s.config.threshold_queue (s.store.pages p a) pos it there in
    elim (Bool-cases
      (same_type (type_of pos) dram || not (is_above s.config.threshold_queue pos))) [
        | inl gone ↦ (
          q',
          rw (page, run) (ap ok (if_true _ _ gone)),
          waiting,
          first ∙ sym (if_false _ _ (wanted ∙ ap not gone)),
        )
        | inr stays ↦
            let (t, l, same, other) = waits s.config.threshold_queue pos stays in
            (
              (p, a) ∷ q',
              rw (page, run) (ap ok (if_false _ _ stays)),
              ((t, l, it, there ∙ ap (λ x. some (x, it)) same, other), waiting),
              sym (if_true _ _ (wanted ∙ ap not stays)),
            )
      ]

-- The list is cut, and no page moves.
stays-pending :
    (s : OldMultiQueue) → IsValid s → Turns false none s (ok (none, record s { pending = [] }))
stays-pending s v = record {
  page = none;
  chosen = refl;
  next = record s { pending = [] };
  run = refl;
  valid = v;
  turned = (refl, refl);
}

promote_pending-Turns :
    (q : List (ℕ × ℕ)) (s : OldMultiQueue)
    → IsValid s
    → Waiting s q
    → Turns false (first_of q) s (promote_pending q s)
unfolding promote_pending queue_of
promote_pending-Turns [] s v w = stays-pending s v
promote_pending-Turns ((p, a) ∷ q) s v w =
    let (t, l, it, there, other) = w.0 in
    let (e, found, ep, ea, page, _) = entry_at s v p a (queues t l) it there in
    let entry : Entry Access = record { pid = p; addr = a; body = e.body } in
    record {
      page = some (p, a);
      chosen = refl;
      next =
          (moved (queues t l) it (queues dram l) entry (left_after false s)
            (record s { pending = q })).1;
      run = rw (page, found) refl;
      valid = move-Levelled v (queues t l) it (queues dram l) entry there (v.ranged p a _ there);
      turned = (
        (queues t l, it, there, other),
        (
          queues dram l,
          s.store.fresh,
          move-pages (queues t l) it (queues dram l) p a entry s.store,
          refl,
        ),
        refl,
      );
    }

-- `selectPage`, where the lists and the map are in step, the pending pages are known and the threshold
-- is one of fewer than 2 ^ 32 queues, fails no assertion and follows no dangling iterator. Where no DRAM page is
-- left, the page that it returns is the first victim or, if there is none, the front page of the lowest queue
-- of DRAM below the threshold that holds one; it was in DRAM and is not any more. Otherwise it is the
-- first page of the pending list that is not in DRAM and whose queue is from the threshold on or, without
-- that list, the front page of the highest queue of PCM from the threshold on that holds one; it was not
-- in DRAM and now is. The DRAM pages are counted. It returns none, and no page moves, exactly if there is
-- no such page.
pub select_page-Turns :
    (s : OldMultiQueue)
    → IsValid s
    → Known s s.pending
    → s.config.threshold_queue ≤ num_queues s
    → num_queues s < 2 ^ 32
    → Turns
        (is_nonpositive s.base.dram_pages_left)
        (choice (is_nonpositive s.base.dram_pages_left) s)
        s
        (select_page s)
unfolding select_page
select_page-Turns s v known fits small = elim (Bool-cases (is_nonpositive s.base.dram_pages_left)) [
  | inl down ↦
      subst (λ b. Turns b (choice b s) s (select_page s)) (sym down)
        (Turns-run true s refl (if_true _ _ down)
          (demote-Turns (s.store.lists victims) s v refl fits))
  | inr up ↦
      subst (λ b. Turns b (choice b s) s (select_page s)) (sym up)
        (elim (Bool-cases s.config.use_pending_list) [
          | inl listed ↦
              let (q', run, waiting, first) = prune-Waiting s.pending s v known in
              Turns-run false s (if_true _ _ listed ∙ sym first)
                (if_false _ _ up
                  ∙ if_true _ _ listed
                  ∙ ap (λ m. m >>= λ q. promote_pending q s) run)
                (promote_pending-Turns q' s v waiting)
          | inr unlisted ↦
              let rounds : (num_queues s + 2 ^ 32 - s.config.threshold_queue) % 2 ^ 32
                  ≡ num_queues s - s.config.threshold_queue =
                omega arith in
              Turns-run false s (if_false _ _ unlisted)
                (if_false _ _ up
                  ∙ if_false _ _ unlisted
                  ∙ ap (λ n. promote_top n (num_queues s) s) rounds)
                (promote_top-Turns (num_queues s - s.config.threshold_queue) (num_queues s) s v
                  (omega arith))
        ])
]
