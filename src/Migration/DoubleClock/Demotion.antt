-- ===== src/Migration/DoubleClock/Demotion.antt =====
-- The demotion of `OldDoubleClockMigrationPolicy` (Migration.cpp).
use hmmsim_server.Prelude.{
  ℕ, ◌≡◌, ◌<◌, ◌++◌, lt→ltb, refl, ◌∙◌, ap, sym, Bool, Option, none, some, [], ◌∷◌, eq_self, add64,
  arith,
}
use hmmsim_server.Prelude.Results.{Result, ok, fault, dangling, asserted, bind_ok}
use hmmsim_server.Migration.Clock.{sweep}
use hmmsim_server.Migration.Clock.Victim.{Stood, sweep-victim}
use hmmsim_server.Migration.Store.{Entry, find, link, unlink, emplace}
use hmmsim_server.Migration.Store.Links.{Linked}
use hmmsim_server.Migration.DoubleClock.{
  ListType, active_list, inactive_list, dram_list, list_tags, DoubleClock, page_of, demoted_entry,
  demoted, demote, promote_found, promote, scan_active,
}

-- Where the hand is at a page of the DRAM list, the lists and the map are in step, and every page
-- of the map is one of a process that the policy serves, the demotion stops, and fails no
-- assertion. It returns a page of the DRAM list, which the map puts at the end of the inactive
-- list; one DRAM page more is left. The new entry there has the page's address for a process
-- number, and the address 0.
pub demote_lem :
    (i : ℕ) (e : Entry Bool) (s : DoubleClock)
    → Linked s.store
    → ((p a : ℕ) (x : ListType × ℕ) → s.store.pages p a ≡ some x → p < s.base.num_pids)
    → s.hand ≡ some i
    → find i (s.store.lists dram_list) ≡ some e
    → (j : ℕ) × (v : Entry Bool) × (s' : DoubleClock) × (demote s ≡ ok (some (v.pid, v.addr), s'))
      × Stood j v (s.store.lists dram_list)
      × (s'.store.pages v.pid v.addr ≡ some (inactive_list, s.store.fresh))
      × (s'.store.lists inactive_list
          ≡ s.store.lists inactive_list ++ ((s.store.fresh, demoted_entry v.addr) ∷ []))
      × (s'.base.dram_pages_left ≡ add64 s.base.dram_pages_left 1)
unfolding demote page_of link unlink emplace
demote_lem i e s l owned at_hand here =
    let (q', j, v, run, found, clear, same, stood) =
      sweep-victim (s.store.lists dram_list) i e here in
    let (f, there, fp, fa) = stood in
    let page : s.store.pages v.pid v.addr ≡ some (dram_list, j) =
      rw (← fp, ← fa) (l.held dram_list j f there) in
    let own = lt→ltb v.pid s.base.num_pids (owned v.pid v.addr (dram_list, j) page) in
    (
      j,
      v,
      demoted j q' v s,
      rw (at_hand, run, own, page, eq_self j) refl,
      stood,
      ground (arith, eq_self v.pid, eq_self v.addr),
      refl,
      refl,
    )

demote-end : (s : DoubleClock) → s.hand ≡ none → demote s ≡ fault dangling
unfolding demote sweep
demote-end s at_end = rw at_end refl

abbrev hand_of : Result (Option (ℕ × ℕ) × DoubleClock) → Option ℕ
hand_of (ok p) = p.1.hand
hand_of (fault e) = none

promote_found-hand :
    (o : Option (ℕ × ℕ)) (s s' : DoubleClock) (r : Option (ℕ × ℕ))
    → promote_found o s ≡ ok (r, s')
    → s'.hand ≡ s.hand
unfolding promote_found
promote_found-hand none s s' r run = ap hand_of (sym run)
promote_found-hand (some (pid, addr)) s s' r run =
    let (page, _, run') = bind_ok (page_of s.base.num_pids pid addr s.store) _ run in
    let (it, _, run'') = bind_ok (asserted page) _ run' in ap hand_of (sym run'')

-- Where the hand is `end()`, as it is until `allocate` puts a page in DRAM, and a promotion
-- returns, the demotion after it reads through the hand.
pub promote-demote-dangling :
    (s s' : DoubleClock) (r : Option (ℕ × ℕ))
    → s.hand ≡ none
    → promote s ≡ ok (r, s')
    → demote s' ≡ fault dangling
unfolding promote
promote-demote-dangling s s' r at_end run =
    let ((found, store), _, run') =
      bind_ok (scan_active s.base.num_pids (s.store.lists active_list) none s.store) _ run in
    demote-end s' (promote_found-hand found (record s { store = store }) s' r run' ∙ at_end)
