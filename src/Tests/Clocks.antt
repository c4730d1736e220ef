-- ===== src/Tests/Clocks.antt =====
-- `OldDoubleClockMigrationPolicy` and `OldFirstTouchMigrationPolicy` (Migration.cpp) with a DRAM page.
use mathlib.Core.Path.{subst}
use native.Mathlib.Decide.{ℕ_discrete}
use hmmsim_server.Prelude.{
  ℕ, ◌<◌, ◌≡◌, ◌++◌, refl, Bool, true, false, none, some, [], ◌∷◌, add64, arith,
}
use hmmsim_server.Prelude.Results.{Result, ok, fault, dangling}
use hmmsim_server.Migration.Base.{dram, pcm, pcm_only}
use hmmsim_server.Migration.OldBase.{OldBase}
use hmmsim_server.Migration.Clock.{sweep}
use hmmsim_server.Migration.Clock.Sweep.{shape}
use hmmsim_server.Migration.Clock.Turn.{turn}
use hmmsim_server.Migration.Clock.Victim.{Stood, sweep-victim}
use hmmsim_server.Migration.Store.{
  Entry, Nodes, find, erase, emplace, before, back, link, unlink, revise,
}
use hmmsim_server.Migration.Store.Links.{Linked, link-Linked}
use hmmsim_server.Migration.DoubleClock
use hmmsim_server.Migration.DoubleClock.{
  DoubleClock, ListType, Lists, dram_list, active_list, inactive_list, list_tags, scan_active,
  demoted_entry, page_of, promote_found,
}
use hmmsim_server.Migration.DoubleClock.Retiring.{first_set, kept, Retires}
use hmmsim_server.Migration.DoubleClock.Promotion.{scan_active_lem}
use hmmsim_server.Migration.DoubleClock.Demotion.{demote_lem, promote-demote-dangling}
use hmmsim_server.Migration.FirstTouch
use hmmsim_server.Migration.FirstTouch.{FirstTouch, PageEntry, monitor}
use hmmsim_server.Migration.FirstTouch.Demotion.{Held, demote-victim}
use hmmsim_server.Tests.Stores.{empty, empty-Linked}

abbrev page : ℕ → Bool → Entry Bool
page addr bit = record { pid = 0; addr = addr; body = bit }

abbrev ring : Nodes Bool
ring = (3, page 40 true) ∷ (5, page 41 true) ∷ []

sweep-victim_example :
    (q' : Nodes Bool) × (j : ℕ) × (victim : Entry Bool) × (sweep 3 ring (some 5)
      ≡ ok (q', j, victim))
    × (find j q' ≡ some victim)
    × (victim.body ≡ false)
    × (shape q' ≡ shape ring)
    × Stood j victim ring
unfolding find
sweep-victim_example = sweep-victim ring 5 (page 41 true) refl

abbrev lists : Lists
lists = link back active_list 0 41 (page 41 true) (link back active_list 0 40 (page 40 true) empty)

-- With a page whose bit is clear.
abbrev three_pages : Lists
three_pages = link back active_list 0 42 (page 42 false) lists

scan_active_lem_example :
    (s' : Lists) × (scan_active 1 (three_pages.lists active_list) none three_pages
      ≡ ok (first_set (three_pages.lists active_list), s'))
    × (s'.lists active_list ≡ kept false (three_pages.lists active_list))
    × Retires (three_pages.lists active_list) three_pages s'
unfolding link emplace find
scan_active_lem_example =
    scan_active_lem 1 three_pages (refl, (refl, (refl, tt)))
      ((ground arith, refl), ((ground arith, refl), ((ground arith, refl), tt)))

abbrev old_base : ℕ → OldBase
old_base left = record {
  dram_pages = 1;
  policy = pcm_only;
  num_pids = 1;
  dram_pages_left = left;
  dram_full = false;
}

abbrev clock : DoubleClock
clock = record {
  base = old_base 0;
  store = link (before none) dram_list 0 40 (page 40 true) empty;
  hand = some 0;
}

clock-Linked : Linked clock.store
clock-Linked = link-Linked (before none) dram_list (page 40 true) refl empty-Linked

demote_lem_example :
    (j : ℕ) × (v : Entry Bool) × (s' : DoubleClock) × (DoubleClock.demote clock
      ≡ ok (some (v.pid, v.addr), s'))
    × Stood j v (clock.store.lists dram_list)
    × (s'.store.pages v.pid v.addr ≡ some (inactive_list, clock.store.fresh))
    × (s'.store.lists inactive_list
        ≡ clock.store.lists inactive_list ++ ((clock.store.fresh, demoted_entry v.addr) ∷ []))
    × (s'.base.dram_pages_left ≡ add64 clock.base.dram_pages_left 1)
unfolding link emplace find
demote_lem_example =
    demote_lem 0 (page 40 true) clock clock-Linked (λ p a x h. ground arith) refl refl

abbrev waiting : DoubleClock
waiting = record { base = old_base 1; store = lists; hand = none }

abbrev next_state : {A B : Type 0} → B → Result (A × B) → B
next_state b (ok p) = p.1
next_state b (fault e) = b

abbrev promoted : DoubleClock
promoted = next_state waiting (DoubleClock.promote waiting)

promote-demote-dangling_example : DoubleClock.demote promoted ≡ fault dangling
unfolding DoubleClock.promote promote_found scan_active page_of link emplace revise unlink
promote-demote-dangling_example = promote-demote-dangling waiting promoted (some (0, 40)) refl refl

abbrev touched : FirstTouch
touched = record {
  base = old_base 0;
  queue = (3, page 40 true) ∷ (5, page 42 false) ∷ [];
  hand = some 3;
  pages = λ p a.
      FirstTouch.set_entry 0 42 (record { type = dram; access_it = some 5 })
        (FirstTouch.set_entry 0 40 (record { type = dram; access_it = some 3 })
          (FirstTouch.set_entry 0 41 (record { type = pcm; access_it = none }) (λ _ _. none)))
        p a;
  fresh = 6;
  last_pcm = none;
}

touched-Held : Held touched
unfolding find
touched-Held i e h = elim (ℕ_discrete 3 i) [
  | yes at_hand ↦
      let same : page 40 true ≡ e = ground (arith, at_hand) in
      subst
        (λ d.
          (d.pid < 1)
          × (touched.pages d.pid d.addr ≡ some (record { type = dram; access_it = some i })))
        same (ground arith, ground (arith, at_hand))
  | no other ↦ elim (ℕ_discrete 5 i) [
    | yes behind ↦
        let same : page 42 false ≡ e = ground (arith, behind, other) in
        subst
          (λ d.
            (d.pid < 1)
            × (touched.pages d.pid d.addr ≡ some (record { type = dram; access_it = some i })))
          same (ground arith, ground (arith, behind))
    | no neither ↦ absurd (ground (arith, other, neither))
  ]
]

-- The page at the hand has its bit set, so the other one is demoted.
demote-victim_example :
    (j : ℕ) × (v : Entry Bool) × (rest : Nodes Bool) × (s' : FirstTouch) × (FirstTouch.demote
        touched
      ≡ ok (some (v.pid, v.addr), s'))
    × ((5, page 42 false) ∷ (3, page 40 false) ∷ [] ≡ (j, v) ∷ rest)
    × (v.body ≡ false)
    × (turn s'.hand s'.queue ≡ rest)
    × (shape s'.queue ≡ shape (erase j touched.queue))
    × (s'.pages
        ≡ FirstTouch.set_entry v.pid v.addr (record { type = pcm; access_it = none }) touched.pages)
    × (s'.base.dram_pages_left ≡ add64 touched.base.dram_pages_left 1)
    × (s'.last_pcm ≡ none)
unfolding find
demote-victim_example =
    demote-victim 3 (page 40 true) touched touched-Held (refl, (refl, tt)) refl refl
