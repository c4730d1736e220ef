-- ===== src/Migration/MultiQueue/Demotion.antt =====
-- Which page `MultiQueueMigrationPolicy` (Migration.cpp) demotes.
use hmmsim_server.Prelude.{
  ℕ, zero, suc, ◌+◌, ◌≤◌, ◌<◌, ◌≡◌, refl, ◌∙◌, inl, inr, Bool, true, Bool-cases, Option,
  Option-cases, none, some, [], ◌∷◌, ltb, lt→ltb, ◌==◌, if_true, if_false, ◌%◌, ◌^◌, eq_self, add64,
  greater_signed, arith,
}
use hmmsim_server.Prelude.Results.{Result, ok}
use hmmsim_server.Migration.Base.{PageType, dram, pcm}
use hmmsim_server.Migration.Store.{Entry, Nodes, find, Store, link, unlink}
use hmmsim_server.Migration.Store.Nodes.{Distinct}
use hmmsim_server.Migration.MultiQueue.{
  Position, queues, victims, history, position_tags, Access, MultiQueue, type_of, move, num_queues,
  first_idle, demoted_entry, free_page, demote_victim, pcm_queue, demote_queued, demote_from,
  select_demotion_page,
}
use hmmsim_server.Migration.MultiQueue.Invariant.{IsValid, level, entry_at, move-Levelled}

-- A page is in a list of the type.
abbrev pub IsIn : PageType → ℕ → ℕ → MultiQueue → Type 0
IsIn t p a s =
    (pos : Position) × (it : ℕ) × (s.store.pages p a ≡ some (pos, it)) × (type_of pos ≡ t)

-- What a demotion returns is a page that was in DRAM and is in PCM now, with room for one page more,
-- or nothing, where no page moves.
abbrev pub Turned : Option (ℕ × ℕ) → MultiQueue → MultiQueue → Type 0
Turned none s s' = (s'.store ≡ s.store) × (s'.base ≡ s.base)
Turned (some (p, a)) s s' =
    IsIn dram p a s × IsIn pcm p a s' × (s'.base.dram_pages_left ≡ add64 s.base.dram_pages_left 1)

pub record Demotes (s : MultiQueue) (r : Option (ℕ × ℕ)) (s' : MultiQueue) : Type 0 where
  pub valid : IsValid s'
  pub turned : Turned r s s'

abbrev pub Demoted : MultiQueue → Result (Option (ℕ × ℕ) × MultiQueue) → Type 0
Demoted s m = (r : Option (ℕ × ℕ)) × (s' : MultiQueue) × (m ≡ ok (r, s')) × Demotes s r s'

pub move-pages :
    (from : Position) (it : ℕ) (to : Position) (p a : ℕ) (e : Entry Access)
    (s : Store Position Access)
    → (move from it to p a e s).pages p a ≡ some (to, s.fresh)
unfolding link unlink
move-pages from it to p a e s = ground (arith, eq_self p, eq_self a)

-- A page of a DRAM list that moves to a PCM list, with what becomes of the count.
moved-Demotes :
    {s : MultiQueue} (v : IsValid s) (from to : Position) (it : ℕ) (entry : Entry Access)
    → s.store.pages entry.pid entry.addr ≡ some (from, it)
    → level to < num_queues s
    → type_of from ≡ dram
    → type_of to ≡ pcm
    → Demotes s (some (entry.pid, entry.addr)) (record s {
      base = free_page s.base;
      store = move from it to entry.pid entry.addr entry s.store;
    })
moved-Demotes {s} v from to it entry there here down up = record {
  valid = (move-Levelled v from it to entry there here);
  turned = (
    (from, it, there, down),
    (to, s.store.fresh, move-pages from it to entry.pid entry.addr entry s.store, up),
    refl,
  );
}

none-Demotes : {s : MultiQueue} → IsValid s → Demotes s none s
none-Demotes v = record { valid = v; turned = (refl, refl) }

demote_victim-Demotes :
    (vit : ℕ) (e : Entry Access) {s : MultiQueue}
    → IsValid s
    → find vit (s.store.lists victims) ≡ some e
    → Demoted s (demote_victim vit e s)
unfolding demote_victim
demote_victim-Demotes vit e {s} v at_victim =
    let there = v.linked.held victims vit e at_victim in
    let (f, found, fp, fa, page, _) = entry_at s v e.pid e.addr victims vit there in
    (
      some (e.pid, e.addr),
      _,
      rw (page, found) refl,
      moved-Demotes v victims history vit (demoted_entry (record e { body = f.body })) there
          v.queued refl refl,
    )

first_idle-find :
    (rollback : Bool) (q : Nodes Access) (i : ℕ) (e : Entry Access)
    → Distinct q
    → first_idle rollback q ≡ some (i, e)
    → find i q ≡ some e
unfolding first_idle find
first_idle-find rollback [] i e d h = cc
first_idle-find rollback ((k, f) ∷ q) i e d h = ground (arith, first_idle-find rollback q i e d.1)

demote_queued-Demotes :
    (n l : ℕ) {s : MultiQueue} → IsValid s → l + n ≤ num_queues s → Demoted s (demote_queued n l s)
unfolding demote_queued pcm_queue
demote_queued-Demotes zero l {s} v fits = (none, s, refl, none-Demotes v)
demote_queued-Demotes (suc n) l {s} v fits =
    let here : ltb l (num_queues s) ≡ true = lt→ltb l (num_queues s) (omega arith) in
    elim (Option-cases (first_idle s.config.enable_rollback (s.store.lists (queues dram l)))) [
      | inl absent ↦
          let (r, s', run, d) = demote_queued-Demotes n (l + 1) v (omega arith) in
          (r, s', rw (here, absent) run, d)
      | inr ((i, e), idle) ↦
          let found =
            first_idle-find s.config.enable_rollback (s.store.lists (queues dram l)) i e
              (v.linked.distinct (queues dram l)) idle in
          let there = v.linked.held (queues dram l) i e found in
          let (f, _, fp, fa, page, _) = entry_at s v e.pid e.addr (queues dram l) i there in
          (
            some (e.pid, e.addr),
            _,
            rw (here, idle, page) refl,
            moved-Demotes v (queues dram l) (queues pcm l) i
                (record e { body = record e.body { migrating = true } }) there (omega arith) refl
                refl,
          )
    ]

demote_from-Demotes :
    (o : Option (ℕ × Entry Access)) {s : MultiQueue}
    → IsValid s
    → ((i : ℕ) (e : Entry Access) → o ≡ some (i, e) → find i (s.store.lists victims) ≡ some e)
    → s.config.threshold_queue ≤ num_queues s
    → Demoted s (demote_from o s)
unfolding demote_from
demote_from-Demotes none {s} v found fits =
    demote_queued-Demotes s.config.threshold_queue 0 v (omega arith)
demote_from-Demotes (some (i, e)) v found fits = demote_victim-Demotes i e v (found i e refl)

retried :
    (s : MultiQueue) (r : Option (ℕ × ℕ)) (s' : MultiQueue)
    → Turned r (record s { tries = 0 }) s'
    → Turned r s s'
retried s none s' t = t
retried s (some p) s' t = t

-- `selectDemotionPage`, where the lists and the map are in step and the threshold is no higher than the
-- number of queues, fails no assertion and follows no dangling iterator. It returns a page that was in
-- DRAM and is in PCM now, and counts one DRAM page more as left; or it returns none and moves no page.
pub select_demotion_page-Demotes :
    {s : MultiQueue}
    → IsValid s
    → s.config.threshold_queue ≤ num_queues s
    → Demoted s (select_demotion_page s)
unfolding select_demotion_page
select_demotion_page-Demotes {s} v fits =
    elim (Bool-cases (greater_signed s.base.dram_pages_left s.base.max_free_dram_pages)) [
      | inl enough ↦ (none, s, if_true _ _ enough, none-Demotes v)
      | inr few ↦ elim (Bool-cases (s.tries == s.config.demotion_attempts)) [
        | inr waits ↦ (
          none,
          record s { tries = (s.tries + 1) % 2 ^ 32 },
          if_false _ _ few ∙ if_false _ _ waits,
          record { valid = v; turned = (refl, refl) },
        )
        | inl due ↦
            let (r, s', run, d) =
              demote_from-Demotes (first_idle s.config.enable_rollback (s.store.lists victims))
                {s = record s { tries = 0 }} v
                (λ i e.
                  first_idle-find s.config.enable_rollback (s.store.lists victims) i e
                    (v.linked.distinct victims))
                fits in
            (
              r,
              s',
              if_false _ _ few ∙ if_true _ _ due ∙ run,
              record { valid = d.valid; turned = retried s r s' d.turned },
            )
      ]
    ]
