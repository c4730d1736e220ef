-- ===== src/HybridManager/Revising.antt =====
-- The migrations of a `HybridMemoryManager` (MemoryManager.cpp) where the one that leaves a frame is in another
-- phase.
use hmmsim_server.Prelude.{
  ℕ, suc, ◌+◌, ◌≡◌, ◌≢◌, refl, sym, ap, ◌∙◌, Bool, true, false, List, [], ◌∷◌, some, ◌==◌,
  if◌then◌else◌, All, All-map₂, Bool-cases, inl, inr, arith, if_true, if_false,
}
use mathlib.Core.Path.{subst}
use hmmsim_server.HybridManager.{Phase, Migration, find_migration, revise_migration}
use hmmsim_server.HybridManager.Frames.{dests, number, Apart}
use hmmsim_server.HybridManager.Erasing.{find-first, find-later}
use hmmsim_server.HybridManager.Ending.{there}

module _ (f : ℕ) (phase : Phase) (copies : Migration → Bool) where
  abbrev pub changed : Migration → Migration
  changed h = record h { phase = phase; needs_copying = copies h }

  revise-first :
      (g : Migration) (gs : List Migration)
      → (g.source == f) ≡ true
      → revise_migration changed f (g ∷ gs) ≡ changed g ∷ gs
  unfolding revise_migration
  revise-first g gs here = if_true _ _ here

  revise-later :
      (g : Migration) (gs : List Migration)
      → (g.source == f) ≡ false
      → revise_migration changed f (g ∷ gs) ≡ g ∷ revise_migration changed f gs
  unfolding revise_migration
  revise-later g gs other = if_false _ _ other

  -- What is the same of a migration and the changed one is the same of all.
  revise-same {ℓ} :
      {A : Type ℓ} (measure : List Migration → A) (step : Migration → A → A)
      → ((h : Migration) (gs : List Migration) → measure (h ∷ gs) ≡ step h (measure gs))
      → ((h : Migration) (a : A) → step (changed h) a ≡ step h a)
      → (gs : List Migration) → measure (revise_migration changed f gs) ≡ measure gs
  unfolding revise_migration
  revise-same measure step cons same [] = refl
  revise-same measure step cons same (g ∷ gs) = elim (Bool-cases (g.source == f)) [
    | inl here ↦
        ap measure (revise-first g gs here)
        ∙ cons (changed g) gs
        ∙ same g (measure gs)
        ∙ sym (cons g gs)
    | inr other ↦
        ap measure (revise-later g gs other)
        ∙ cons g (revise_migration changed f gs)
        ∙ ap (step g) (revise-same measure step cons same gs)
        ∙ sym (cons g gs)
  ]

  pub revise-dests :
      (x : ℕ) (gs : List Migration) → dests x (revise_migration changed f gs) ≡ dests x gs
  unfolding dests
  revise-dests x gs =
      revise-same (dests x) (λ h. λ n. (if x == h.dest_frame then 1 else 0) + n) (λ h. λ gs. refl)
        (λ h. λ n. refl) gs

  pub revise-number : (gs : List Migration) → number (revise_migration changed f gs) ≡ number gs
  revise-number gs = revise-same number (λ h. suc) (λ h. λ gs. refl) (λ h. λ n. refl) gs

  revise-sources :
      (k : ℕ) (gs : List Migration)
      → All (λ h. h.source ≢ k) gs
      → All (λ h. h.source ≢ k) (revise_migration changed f gs)
  unfolding revise_migration
  revise-sources k [] h = tt
  revise-sources k (g ∷ gs) h = elim (Bool-cases (g.source == f)) [
    | inl here ↦ subst (All (λ h. h.source ≢ k)) (sym (revise-first g gs here)) (h.0, h.1)
    | inr other ↦
        subst (All (λ h. h.source ≢ k)) (sym (revise-later g gs other))
          (h.0, revise-sources k gs h.1)
  ]

  pub revise-Apart : (gs : List Migration) → Apart gs → Apart (revise_migration changed f gs)
  unfolding revise_migration
  revise-Apart [] h = tt
  revise-Apart (g ∷ gs) h = elim (Bool-cases (g.source == f)) [
    | inl here ↦ subst Apart (sym (revise-first g gs here)) (h.0, h.1)
    | inr other ↦
        subst Apart (sym (revise-later g gs other))
          (revise-sources g.source gs h.0, revise-Apart gs h.1)
  ]

  -- What holds of the changed migration, and of those that leave other frames, holds of all.
  pub revise-All :
      (P Q : Migration → Type 0) (gs : List Migration) (g : Migration)
      → ((h : Migration) → P h → h.source ≢ f → Q h)
      → Q (changed g)
      → find_migration f gs ≡ some g
      → All P gs
      → Apart gs
      → All Q (revise_migration changed f gs)
  unfolding find_migration
  revise-All P Q [] g others this found h a = cc
  revise-All P Q (k ∷ gs) g others this found h a = elim (Bool-cases (k.source == f)) [
    | inl here ↦
        let same : k.source ≡ f = ground arith in
        subst (All Q) (sym (revise-first k gs here)) (
          subst (λ k. Q (changed k)) (sym (find-first f k g gs here found)) this,
          All-map₂ others gs h.1 (subst (λ f. All (λ h. h.source ≢ f) gs) same a.0),
        )
    | inr later ↦ subst (All Q) (sym (revise-later k gs later)) (
      others k h.0 (ground arith),
      revise-All P Q gs g others this (sym (find-later f k gs later) ∙ found) h.1 a.1,
    )
  ]

  -- A migration that was found is found still.
  pub find-revise :
      (k : ℕ) (gs : List Migration) (h : Migration)
      → find_migration k gs ≡ some h
      → (h' : Migration) × (find_migration k (revise_migration changed f gs) ≡ some h')
  unfolding find_migration
  find-revise k [] h found = cc
  find-revise k (g ∷ gs) h found = elim (Bool-cases (g.source == f)) [
    | inl here ↦
        subst (λ gs. (h' : Migration) × (find_migration k gs ≡ some h'))
          (sym (revise-first g gs here))
          (elim (Bool-cases (g.source == k)) [
            | inl mine ↦ (changed g, if_true _ _ mine)
            | inr other ↦ (h, if_false _ _ other ∙ sym (if_false _ _ other) ∙ found)
          ])
    | inr later ↦
        subst (λ gs. (h' : Migration) × (find_migration k gs ≡ some h'))
          (sym (revise-later g gs later))
          (elim (Bool-cases (g.source == k)) [
            | inl mine ↦ (g, if_true _ _ mine)
            | inr other ↦
                let (h', there) = find-revise k gs h (sym (find-later k g gs other) ∙ found) in
                (h', if_false _ _ other ∙ there)
          ])
  ]

  pub find-revised :
      (gs : List Migration) (g : Migration)
      → find_migration f gs ≡ some g
      → find_migration f (revise_migration changed f gs) ≡ some (changed g)
  unfolding find_migration
  find-revised [] g found = cc
  find-revised (k ∷ gs) g found = elim (Bool-cases (k.source == f)) [
    | inl here ↦
        ap (find_migration f) (revise-first k gs here)
        ∙ if_true _ _ here
        ∙ ap (λ k. some (changed k)) (find-first f k g gs here found)
    | inr later ↦
        ap (find_migration f) (revise-later k gs later)
        ∙ if_false _ _ later
        ∙ find-revised gs g (sym (find-later f k gs later) ∙ found)
  ]
