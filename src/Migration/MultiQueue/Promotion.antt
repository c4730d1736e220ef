-- ===== src/Migration/MultiQueue/Promotion.antt =====
-- Promotion by `MultiQueueMigrationPolicy` (Migration.cpp), and the end of a migration.
use hmmsim_server.Prelude.{
  ℕ, ◌≡◌, refl, ◌∙◌, ap, inl, inr, Bool, true, false, ◌||◌, not, Bool-cases, some, ◌==◌,
  if◌then◌else◌, if_true, if_false, sub64, is_positive, arith,
}
use hmmsim_server.Prelude.Results.{ok, assert_pass}
use hmmsim_server.Migration.Base.{dram, pcm}
use hmmsim_server.Migration.Store.{Entry, find, revise}
use hmmsim_server.Migration.Store.Revise.{revise-Linked, revise-here}
use hmmsim_server.Migration.MultiQueue.{
  Position, queues, position_tags, Access, MultiQueue, level_of, type_of, is_above, promoted,
  promote, migrate, done,
}
use hmmsim_server.Migration.MultiQueue.Invariant.{IsValid, entry_at, move-Levelled, level_of-lt}
use hmmsim_server.Migration.MultiQueue.Demotion.{move-pages}

-- What `migrate` leaves: if it agrees, the page is in DRAM, in the queue of its count, and one DRAM
-- page less is left; otherwise nothing has changed.
abbrev pub Promoted : ℕ → ℕ → ℕ → Bool → MultiQueue → MultiQueue → Type 0
Promoted p a count false s s' = s' ≡ s
Promoted p a count true s s' =
    (s'.store.pages p a ≡ some (queues dram (level_of count s.config), s.store.fresh))
    × (s'.base.dram_pages_left ≡ sub64 s.base.dram_pages_left 1)

idle_lem : (b : Bool) → b ≡ false → not b ≡ true
idle_lem b h = ground arith

promote-run :
    (p a : ℕ) (pos : Position) (it : ℕ) (e : Entry Access) (s : MultiQueue)
    → IsValid s
    → s.store.pages p a ≡ some (pos, it)
    → find it (s.store.lists pos) ≡ some e
    → type_of pos ≡ pcm
    → e.body.migrating ≡ false
    → (e.pid ≡ p)
      × (e.addr ≡ a)
      × (promote p a s
          ≡ ok (
              if not s.config.promotion_filter || is_above s.config.threshold_queue pos
              then (true, promoted pos it p a e s)
              else (false, s)))
unfolding promote
promote-run p a pos it e s v there at_page up idle =
    let (f, found, fp, fa, page, index) = entry_at s v p a pos it there in
    let same : f ≡ e = cc in
    let ep : e.pid ≡ p = rw (← same) fp in
    let ea : e.addr ≡ a = rw (← same) fa in
    let own : (e.pid == p) ≡ true = ground arith in
    let at_addr : (e.addr == a) ≡ true = ground arith in
    (
      ep,
      ea,
      rw (index, page, up, at_page)
          (assert_pass _ own
            ∙ assert_pass _ at_addr
            ∙ assert_pass _ (idle_lem e.body.migrating idle)),
    )

-- Where the invariant holds, a request to promote a page in PCM that no migration is under way for
-- fails no assertion and keeps the invariant. It is granted only if a DRAM page is left; then the
-- page goes to the DRAM queue of its count, and one DRAM page less is left. If it is not granted,
-- the state stays as it is.
pub migrate-Promoted :
    (p a : ℕ) (pos : Position) (it : ℕ) (e : Entry Access) (s : MultiQueue)
    → IsValid s
    → s.store.pages p a ≡ some (pos, it)
    → find it (s.store.lists pos) ≡ some e
    → type_of pos ≡ pcm
    → e.body.migrating ≡ false
    → (b : Bool) × (s' : MultiQueue) × (migrate p a s ≡ ok (b, s'))
      × IsValid s'
      × Promoted p a e.body.count b s s'
      × (b ≡ true → is_positive s.base.dram_pages_left ≡ true)
unfolding migrate
migrate-Promoted p a pos it e s v there at_page up idle =
    let (ep, ea, run) = promote-run p a pos it e s v there at_page up idle in
    let there' : s.store.pages e.pid e.addr ≡ some (pos, it) = rw (ep, ea) there in
    elim (Bool-cases (is_positive s.base.dram_pages_left)) [
      | inr full ↦ (false, s, if_false _ _ full, v, refl, λ h. cc)
      | inl free ↦
          elim (Bool-cases
            (not s.config.promotion_filter || is_above s.config.threshold_queue pos)) [
              | inr cold ↦
                  (false, s, if_true _ _ free ∙ run ∙ ap ok (if_false _ _ cold), v, refl, λ h. cc)
              | inl hot ↦ (
                true,
                promoted pos it p a e s,
                if_true _ _ free ∙ run ∙ ap ok (if_true _ _ hot),
                rw (← ep, ← ea)
                    ((move-Levelled v pos it (queues dram (level_of e.body.count s.config))
                      (record e { body = record e.body { migrating = true } }) there'
                      (level_of-lt e.body.count s.config v.queued))),
                (
                  move-pages pos it (queues dram (level_of e.body.count s.config)) p a _ s.store,
                  refl,
                ),
                λ h. free,
              )
            ]
    ]

-- Where the invariant holds, the end of a migration that is under way fails no assertion, keeps the
-- invariant and clears the mark of the page, which stays where it is.
pub done-IsValid :
    (p a : ℕ) (pos : Position) (it : ℕ) (e : Entry Access) (s : MultiQueue)
    → IsValid s
    → s.store.pages p a ≡ some (pos, it)
    → find it (s.store.lists pos) ≡ some e
    → e.body.migrating ≡ true
    → (s' : MultiQueue) × (done p a s ≡ ok s')
      × IsValid s'
      × (s'.store.pages ≡ s.store.pages)
      × (find it (s'.store.lists pos)
          ≡ some (record e { body = record e.body { migrating = false } }))
unfolding done revise
done-IsValid p a pos it e s v there at_page busy =
    let (f, found, fp, fa, page, index) = entry_at s v p a pos it there in
    (
      record s { store = revise pos it (λ b. record b { migrating = false }) s.store },
      rw (index, page, at_page) (assert_pass _ busy),
      record {
        linked = revise-Linked (λ b. record b { migrating = false }) pos it s.store v.linked;
        owned = v.owned;
        ranged = v.ranged;
        queued = v.queued;
      },
      refl,
      revise-here (λ b. record b { migrating = false }) pos it s.store e at_page,
    )
