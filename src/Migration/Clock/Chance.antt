-- ===== src/Migration/Clock/Chance.antt =====
-- Where the hand of the clock (Migration.cpp) stops on its way round, and what it leaves behind it.
use hmmsim_server.Prelude.{
  ℕ, zero, suc, ◌<◌, ◌≡◌, refl, ◌∙◌, sym, ap, inl, inr, Bool, true, false, Bool-cases, none, some,
  [], ◌∷◌, ◌++◌, length, length-append, ◌==◌, if_true, if_false, All-append, arith,
}
use mathlib.Core.Path.{subst}
use hmmsim_server.Prelude.Results.{ok}
use hmmsim_server.Migration.Store.{Entry, Nodes, find, update, erase, begin, next}
use hmmsim_server.Migration.Store.Nodes.{Distinct, Distinct-erase}
use hmmsim_server.Migration.Store.Middle.{Distinct-middle, erase-middle, next-middle}
use hmmsim_server.Migration.Clock.{sweep, after_erase}
use hmmsim_server.Migration.Clock.Turn.{
  from_node, up_to, turn, set_pages, clear_on, cleared, second_chance, append-none, append_assoc,
  At, clear, At-step, At-find, Clear,
}

-- Where the hand stops: a turn from there is the one from the first page with the bit clear.
abbrev pub Stops : ℕ → Nodes Bool → ℕ → Nodes Bool → Type 0
Stops fuel q i r =
    (q' : Nodes Bool) × (j : ℕ) × (v : Entry Bool) × (rest : Nodes Bool) × (sweep fuel q (some i)
      ≡ ok (q', j, v))
    × (r ≡ (j, v) ∷ rest)
    × At j q' ((j, v) ∷ rest)

-- The turn from the first page with the bit clear, where `p` comes before `c` and the bits of `c` are clear.
abbrev from_clear : Nodes Bool → Nodes Bool → Nodes Bool
from_clear p c = clear_on p ++ (c ++ cleared (set_pages p))

from_clear-stop :
    (i : ℕ) (e : Entry Bool) (p c : Nodes Bool)
    → e.body ≡ false
    → from_clear ((i, e) ∷ p) c ≡ ((i, e) ∷ p) ++ c
from_clear-stop i e p c stop = if_stops ∙ ap (λ l. ((i, e) ∷ p) ++ l) (append-none c)
  where
    if_stops : from_clear ((i, e) ∷ p) c ≡ ((i, e) ∷ p) ++ (c ++ [])
    if_stops = simp stop refl

from_clear-pass :
    (i : ℕ) (e : Entry Bool) (p c : Nodes Bool)
    → e.body ≡ true
    → from_clear ((i, e) ∷ p) c ≡ from_clear p (c ++ (i, record e { body = false }) ∷ [])
from_clear-pass i e p c set = rw set (
    ap (λ l. clear_on p ++ l)
      (sym (append_assoc c ((i, record e { body = false }) ∷ []) (cleared (set_pages p)))))

-- The pages of `p` are still to come; those of `c` were passed, and their bits are clear.
sweep-Stops :
    (fuel : ℕ) (p c q : Nodes Bool) (i : ℕ)
    → length p < fuel
    → Clear c
    → At i q (p ++ c)
    → Stops fuel q i (from_clear p c)
unfolding sweep
sweep-Stops zero p c q i h all at = absurd (omega arith)
sweep-Stops (suc fuel) [] c q i h all at =
    let (e, s, same, found) = At-find i q c at in
    let stops : e.body ≡ false = (subst Clear same all).0 in
    (q, i, e, s, rw (found, stops) refl, append-none c ∙ same, subst (At i q) same at)
sweep-Stops (suc fuel) ((j, f) ∷ p) c q i h all at =
    let (e, s, same, found) = At-find i q ((j, f) ∷ p ++ c) at in
    let here : j ≡ i = cc in
    let entry : f ≡ e = cc in
    elim (Bool-cases f.body) [
      | inr clear_bit ↦ (
        q,
        i,
        e,
        s,
        rw (found, ap (λ (e : Entry Bool). e.body) (sym entry) ∙ clear_bit) refl,
        from_clear-stop j f p c clear_bit ∙ same,
        subst (At i q) same at,
      )
      | inl set_bit ↦
          let bit : e.body ≡ true = ap (λ (e : Entry Bool). e.body) (sym entry) ∙ set_bit in
          let here' : At i q ((i, f) ∷ (p ++ c)) =
            subst (λ k. At i q ((k, f) ∷ (p ++ c))) here at in
          let x : ℕ × Entry Bool = (i, record f { body = false }) in
          let (k, goes, next) = At-step i f q (p ++ c) here' in
          let (q', j', v, rest, run, turned, stops) =
            sweep-Stops fuel p (c ++ x ∷ []) (update i clear q) k (omega arith)
              (All-append _ c (x ∷ []) all (refl, tt))
              (subst (At k (update i clear q)) (append_assoc p c (x ∷ [])) next) in
          (
            q',
            j',
            v,
            rest,
            rw (found, bit, goes) run,
            ap (λ k. from_clear ((k, f) ∷ p) c) here ∙ from_clear-pass i f p c set_bit ∙ turned,
            stops,
          )
    ]

from_node-middle :
    (i : ℕ) (e : Entry Bool) (a b : Nodes Bool)
    → find i a ≡ none
    → from_node i (a ++ (i, e) ∷ b) ≡ (i, e) ∷ b
unfolding find
from_node-middle i e [] b h = ground arith
from_node-middle i e ((k, f) ∷ a) b h = ground (arith, from_node-middle i e a b)

up_to-middle :
    (i : ℕ) (e : Entry Bool) (a b : Nodes Bool) → find i a ≡ none → up_to i (a ++ (i, e) ∷ b) ≡ a
unfolding find
up_to-middle i e [] b h = ground arith
up_to-middle i e ((k, f) ∷ a) b h = ground (arith, up_to-middle i e a b)

turn-middle :
    (i : ℕ) (e : Entry Bool) (a b : Nodes Bool)
    → find i a ≡ none
    → turn (some i) (a ++ (i, e) ∷ b) ≡ ((i, e) ∷ b) ++ a
turn-middle i e a b h =
    ap (λ l. l ++ up_to i (a ++ (i, e) ∷ b)) (from_node-middle i e a b h)
    ∙ ap (λ l. ((i, e) ∷ b) ++ l) (up_to-middle i e a b h)

-- A node of a list has a place in it.
split :
    (i : ℕ) (e : Entry Bool) (q : Nodes Bool)
    → find i q ≡ some e
    → (a : Nodes Bool) × (b : Nodes Bool) × (q ≡ a ++ (i, e) ∷ b)
unfolding find
split i e [] h = cc
split i e ((k, f) ∷ q) h = elim (Bool-cases (k == i)) [
  | inl here ↦
      let same : k ≡ i = ground arith in
      let entry : some f ≡ some e = sym (if_true _ _ here) ∙ h in ([], q, cc)
  | inr other ↦
      let (a, b, there) = split i e q (sym (if_false _ _ other) ∙ h) in
      ((k, f) ∷ a, b, ap (λ l. (k, f) ∷ l) there)
]

-- From a hand at a page of a list of distinct nodes, the hand stops at the first page that comes with its bit clear,
-- or at the first if all are set. A turn from there has the pages in their order; the bits that the
-- hand came by are clear.
pub sweep-turn :
    (q : Nodes Bool) (i : ℕ) (e : Entry Bool)
    → Distinct q
    → find i q ≡ some e
    → Stops (suc (length q)) q i (second_chance (turn (some i) q))
sweep-turn q i e d found =
    let (a, b, place) = split i e q found in
    let (h, g) = Distinct-middle i e a b (subst Distinct place d) in
    let turned : turn (some i) q ≡ ((i, e) ∷ b) ++ a =
      ap (turn (some i)) place ∙ turn-middle i e a b h in
    subst (λ r. Stops (suc (length q)) q i (second_chance r)) (sym turned)
      (sweep-Stops (suc (length q)) (((i, e) ∷ b) ++ a) [] q i
        (omega (arith, ap length place, length-append a ((i, e) ∷ b), length-append ((i, e) ∷ b) a))
        tt
        record {
          before = a;
          after = b;
          entry = e;
          list = place;
          turned = append-none _;
          distinct = d;
        })

after_erase-middle :
    (a b q : Nodes Bool) (j : ℕ) (v : Entry Bool)
    → find j a ≡ none
    → after_erase j (a ++ (j, v) ∷ b) q ≡ elim (begin b) [ none ↦ begin q | some k ↦ some k ]
unfolding after_erase
after_erase-middle a b q j v h =
    ap (λ o. elim o [ none ↦ begin q | some k ↦ some k ]) (next-middle j v a b h)

next-turn :
    (a b : Nodes Bool) (j : ℕ) (v : Entry Bool)
    → find j a ≡ none
    → Distinct (a ++ b)
    → turn (after_erase j (a ++ (j, v) ∷ b) (a ++ b)) (a ++ b) ≡ b ++ a
unfolding begin find
next-turn [] [] j v h d = ap (λ o. turn o []) (after_erase-middle [] [] [] j v h)
next-turn ((k, f) ∷ a) [] j v h d =
    ap (λ o. turn o ((k, f) ∷ (a ++ [])))
      (after_erase-middle ((k, f) ∷ a) [] ((k, f) ∷ (a ++ [])) j v h)
    ∙ turn-middle k f [] (a ++ []) refl
    ∙ append-none _
    ∙ append-none ((k, f) ∷ a)
next-turn a ((k, f) ∷ b) j v h d =
    ap (λ o. turn o (a ++ (k, f) ∷ b)) (after_erase-middle a ((k, f) ∷ b) (a ++ (k, f) ∷ b) j v h)
    ∙ turn-middle k f a b (Distinct-middle k f a b d).0

-- Once the page is taken out, the hand is at the next one.
pub turn-erase :
    (j : ℕ) (v : Entry Bool) (q rest : Nodes Bool)
    → At j q ((j, v) ∷ rest)
    → turn (after_erase j q (erase j q)) (erase j q) ≡ rest
turn-erase j v q rest at =
    let d = subst Distinct at.list at.distinct in
    let (h, g) = Distinct-middle j at.entry at.before at.after d in
    let left = erase-middle j at.entry at.before at.after h g in
    let same : rest ≡ at.after ++ at.before = cc in
    ap (λ q. turn (after_erase j q (erase j q)) (erase j q)) at.list
    ∙ ap (λ l. turn (after_erase j (at.before ++ (j, at.entry) ∷ at.after) l) l) left
    ∙ next-turn at.before at.after j at.entry h (subst Distinct left (Distinct-erase j _ d))
    ∙ sym same
