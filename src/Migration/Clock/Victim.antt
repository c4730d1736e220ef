-- ===== src/Migration/Clock/Victim.antt =====
-- The page at which the hand of the clock (Migration.cpp) stops.
use hmmsim_server.Prelude.{
  ℕ, suc, ◌≤◌, ◌≡◌, ◌∙◌, sym, ap, inl, inr, Bool-cases, if_true, if_false, Bool, false, some, [],
  ◌∷◌, length, ◌==◌, arith,
}
use hmmsim_server.Prelude.Results.{ok}
use hmmsim_server.Migration.Store.{Entry, Nodes, find}
use hmmsim_server.Migration.Clock.{sweep}
use hmmsim_server.Migration.Clock.Sweep.{refs, shape, sweep-total}

refs-le-length : (q : Nodes Bool) → refs q ≤ length q
refs-le-length [] = omega arith
refs-le-length ((i, e) ∷ q) = ground (arith, refs-le-length q)

-- An entry for the same page.
abbrev pub Stood : ℕ → Entry Bool → Nodes Bool → Type 0
Stood j v q = (e : Entry Bool) × (find j q ≡ some e) × (e.pid ≡ v.pid) × (e.addr ≡ v.addr)

shape-find :
    (q q' : Nodes Bool) (j : ℕ) (v : Entry Bool)
    → shape q' ≡ shape q
    → find j q' ≡ some v
    → Stood j v q
unfolding find
shape-find [] [] j v s h = cc
shape-find [] (n ∷ q') j v s h = cc
shape-find (n ∷ q) [] j v s h = cc
shape-find ((i, e) ∷ q) ((k, d) ∷ q') j v s h =
    let ki : k ≡ i = cc in
    let dp : d.pid ≡ e.pid = cc in
    let da : d.addr ≡ e.addr = cc in
    let rest : shape q' ≡ shape q = cc in
    elim (Bool-cases (k == j)) [
      | inl here ↦
          let same : some d ≡ some v = sym (if_true _ _ here) ∙ h in
          let dv : d ≡ v = cc in
          (e, ground (arith, ki), sym dp ∙ ap (λ x. x.pid) dv, sym da ∙ ap (λ x. x.addr) dv)
      | inr other ↦
          let (f, found, fp, fa) = shape-find q q' j v rest (sym (if_false _ _ other) ∙ h) in
          (f, ground (arith, ki), fp, fa)
    ]

-- From a hand at a page of the list, as many rounds as pages, and one more, are enough for
-- `selectPage`: the hand stops at a page that was in the list, with its bit clear, and the list has
-- the pages that it had.
pub sweep-victim :
    (q : Nodes Bool) (i : ℕ) (e : Entry Bool)
    → find i q ≡ some e
    → (q' : Nodes Bool) × (j : ℕ) × (victim : Entry Bool) × (sweep (suc (length q)) q (some i)
        ≡ ok (q', j, victim))
      × (find j q' ≡ some victim)
      × (victim.body ≡ false)
      × (shape q' ≡ shape q)
      × Stood j victim q
sweep-victim q i e h =
    let (q', j, v, run, found, clear, same, _) =
      sweep-total (suc (length q)) q i e h (omega (arith, refs-le-length q)) in
    (q', j, v, run, found, clear, same, shape-find q q' j v same found)
