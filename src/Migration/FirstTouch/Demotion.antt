-- ===== src/Migration/FirstTouch/Demotion.antt =====
-- The demotion of `OldFirstTouchMigrationPolicy` (Migration.cpp), and what `monitor` does to PCM pages.
use hmmsim_server.Prelude.{
  ℕ, inl, inr, Bool-cases, if_true, if_false, [], ◌∷◌, ◌==◌, ◌≡◌, ◌<◌, lt→ltb, refl, ◌∙◌, ap, sym,
  Bool, false, Option, none, some, eq_self, add64, arith,
}
use hmmsim_server.Prelude.Results.{Result, ok, fault, dangling, asserted, bind_ok, ok_inj}
use hmmsim_server.Migration.Base.{PageType, dram, pcm}
use hmmsim_server.Migration.Clock.{sweep}
use hmmsim_server.Migration.Clock.Sweep.{shape}
use hmmsim_server.Migration.Clock.Turn.{turn, second_chance}
use hmmsim_server.Migration.Clock.Chance.{sweep-turn, turn-erase}
use mathlib.Core.Path.{subst}
use hmmsim_server.Migration.Store.Nodes.{Distinct}
use hmmsim_server.Migration.Clock.Victim.{Stood, sweep-victim}
use hmmsim_server.Migration.Store.{Entry, Nodes, find, erase}
use hmmsim_server.Migration.FirstTouch.{
  FirstTouch, set_entry, page_of, index_of, monitor, demoted, demote, promote,
}

-- The map knows the pages of the queue, at their nodes.
abbrev pub Held : FirstTouch → Type 0
Held s =
    (i : ℕ) (e : Entry Bool)
    → find i s.queue ≡ some e
    → (e.pid < s.base.num_pids)
      × (s.pages e.pid e.addr ≡ some (record { type = dram; access_it = some i }))

shape-erase : (i : ℕ) (q r : Nodes Bool) → shape q ≡ shape r → shape (erase i q) ≡ shape (erase i r)
unfolding erase
shape-erase i [] [] h = refl
shape-erase i [] (n ∷ r) h = cc
shape-erase i (n ∷ q) [] h = cc
shape-erase i ((j, e) ∷ q) ((k, f) ∷ r) h =
    let number : j ≡ k = cc in
    let pid : e.pid ≡ f.pid = cc in
    let addr : e.addr ≡ f.addr = cc in
    let rest : shape q ≡ shape r = cc in
    let later : shape (erase i q) ≡ shape (erase i r) = shape-erase i q r rest in
    let both : shape ((j, e) ∷ erase i q) ≡ shape ((k, f) ∷ erase i r) = cc in
    elim (Bool-cases (j == i)) [
      | inl here ↦
          ap shape (if_true _ _ here)
          ∙ later
          ∙ ap shape (sym (if_true {b = k == i} _ _ (ground (arith, number))))
      | inr other ↦
          ap shape (if_false _ _ other)
          ∙ both
          ∙ ap shape (sym (if_false {b = k == i} _ _ (ground (arith, number))))
    ]

-- Where the hand is at a page of the queue, whose nodes are distinct, and the map knows the pages of the queue, the
-- demotion stops and fails no assertion. From the hand round the queue, it returns the first page with the
-- bit clear, or the first page if all bits are set. Its bit is clear then, the map has it in PCM, and it
-- leaves the queue, where the others stay in their order. The hand is at the page that comes next; the bits
-- of the pages that it came by are clear, and the others as they were. One DRAM page more is left, and no
-- PCM access is remembered.
pub demote-victim :
    (i : ℕ) (e : Entry Bool) (s : FirstTouch)
    → Held s
    → Distinct s.queue
    → s.hand ≡ some i
    → find i s.queue ≡ some e
    → (j : ℕ) × (v : Entry Bool) × (rest : Nodes Bool) × (s' : FirstTouch) × (demote s
        ≡ ok (some (v.pid, v.addr), s'))
      × (second_chance (turn s.hand s.queue) ≡ (j, v) ∷ rest)
      × (v.body ≡ false)
      × (turn s'.hand s'.queue ≡ rest)
      × (shape s'.queue ≡ shape (erase j s.queue))
      × (s'.pages ≡ set_entry v.pid v.addr (record { type = pcm; access_it = none }) s.pages)
      × (s'.base.dram_pages_left ≡ add64 s.base.dram_pages_left 1)
      × (s'.last_pcm ≡ none)
unfolding demote page_of
demote-victim i e s held distinct at_hand here =
    let (q', j, v, rest, run, round, at) = sweep-turn s.queue i e distinct here in
    let (q'', j'', v'', run'', found'', clear'', shape'', stood'') =
      sweep-victim s.queue i e here in
    let same = ok_inj (sym run ∙ run'') in
    let stood : Stood j v s.queue =
      subst (λ (x : Nodes Bool × ℕ × Entry Bool). Stood x.1 x.2 s.queue) (sym same) stood'' in
    let (f, there, fp, fa) = stood in
    let page : s.pages v.pid v.addr ≡ some (record { type = dram; access_it = some j }) =
      rw (← fp, ← fa) (held j f there).1 in
    let own : v.pid < s.base.num_pids = rw (← fp) (held j f there).0 in
    (
      j,
      v,
      rest,
      demoted j q' v s,
      rw (at_hand, run, lt→ltb v.pid s.base.num_pids own, page, eq_self j) refl,
      ap (λ h. second_chance (turn h s.queue)) at_hand ∙ round,
      ap (λ (x : Nodes Bool × ℕ × Entry Bool). x.2.body) same ∙ clear'',
      turn-erase j v q' rest at,
      shape-erase j q' s.queue (ap (λ (x : Nodes Bool × ℕ × Entry Bool). shape x.0) same ∙ shape''),
      refl,
      refl,
      refl,
    )

-- `monitor` of a page of a process that the policy serves, which the map has with no place in the
-- queue, as it has every page in PCM, reads through `queue.end()`.
pub monitor-pcm-dangling :
    (pid addr : ℕ) (t : PageType) (s : FirstTouch)
    → index_of pid s.base < s.base.num_pids
    → s.pages (index_of pid s.base) addr ≡ some (record { type = t; access_it = none })
    → monitor pid addr s ≡ fault dangling
unfolding monitor page_of
monitor-pcm-dangling pid addr t s own page =
    rw (lt→ltb (index_of pid s.base) s.base.num_pids own, page) refl

demote-end : (s : FirstTouch) → s.hand ≡ none → demote s ≡ fault dangling
unfolding demote sweep
demote-end s at_end = rw at_end refl

abbrev hand_of : Result (Option (ℕ × ℕ) × FirstTouch) → Option ℕ
hand_of (ok p) = p.1.hand
hand_of (fault e) = none

promote-hand :
    (o : Option (ℕ × ℕ)) (s s' : FirstTouch) (r : Option (ℕ × ℕ))
    → promote o s ≡ ok (r, s')
    → s'.hand ≡ s.hand
unfolding promote
promote-hand none s s' r run = ap hand_of (sym run)
promote-hand (some (pid, addr)) s s' r run =
    let (page, _, run') = bind_ok (page_of pid addr s) _ run in
    let (it, _, run'') = bind_ok (asserted page) _ run' in ap hand_of (sym run'')

-- Where the hand is `end()`, as it is until `allocate` puts a page in DRAM, and a promotion
-- returns, the demotion after it reads through the hand.
pub promote-demote-end :
    (o : Option (ℕ × ℕ)) (s s' : FirstTouch) (r : Option (ℕ × ℕ))
    → s.hand ≡ none
    → promote o s ≡ ok (r, s')
    → demote s' ≡ fault dangling
promote-demote-end o s s' r at_end run = demote-end s' (promote-hand o s s' r run ∙ at_end)
