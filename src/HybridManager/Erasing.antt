-- ===== src/HybridManager/Erasing.antt =====
-- The migrations of a `HybridMemoryManager` (MemoryManager.cpp) without the one that leaves a frame.
use hmmsim_server.Prelude.{
  ℕ, suc, ◌+◌, ◌≡◌, ◌≢◌, refl, sym, ap, ◌∙◌, true, false, List, [], ◌∷◌, some, ◌==◌, if◌then◌else◌,
  All, Bool-cases, inl, inr, arith, if_true, if_false,
}
use mathlib.Core.Path.{subst}
use hmmsim_server.HybridManager.{Migration, find_migration, erase_migration}
use hmmsim_server.HybridManager.Frames.{dests, number, Apart, some_inj}

module _ (f : ℕ) where
  erase-first :
      (g : Migration) (gs : List Migration)
      → (g.source == f) ≡ true
      → erase_migration f (g ∷ gs) ≡ gs
  unfolding erase_migration
  erase-first g gs here = if_true _ _ here

  erase-later :
      (g : Migration) (gs : List Migration)
      → (g.source == f) ≡ false
      → erase_migration f (g ∷ gs) ≡ g ∷ erase_migration f gs
  unfolding erase_migration
  erase-later g gs other = if_false _ _ other

  pub find-first :
      (g h : Migration) (gs : List Migration)
      → (g.source == f) ≡ true
      → find_migration f (g ∷ gs) ≡ some h
      → g ≡ h
  unfolding find_migration
  find-first g h gs here found = some_inj (sym (if_true _ _ here) ∙ found)

  pub find-later :
      (g : Migration) (gs : List Migration)
      → (g.source == f) ≡ false
      → find_migration f (g ∷ gs) ≡ find_migration f gs
  unfolding find_migration
  find-later g gs other = if_false _ _ other

  pub erase-All :
      (P : Migration → Type 0) (gs : List Migration) → All P gs → All P (erase_migration f gs)
  unfolding erase_migration
  erase-All P [] h = tt
  erase-All P (g ∷ gs) h = elim (Bool-cases (g.source == f)) [
    | inl here ↦ subst (All P) (sym (erase-first g gs here)) h.1
    | inr other ↦ subst (All P) (sym (erase-later g gs other)) (h.0, erase-All P gs h.1)
  ]

  pub erase-Apart : (gs : List Migration) → Apart gs → Apart (erase_migration f gs)
  unfolding erase_migration
  erase-Apart [] h = tt
  erase-Apart (g ∷ gs) h = elim (Bool-cases (g.source == f)) [
    | inl here ↦ subst Apart (sym (erase-first g gs here)) h.1
    | inr other ↦
        subst Apart (sym (erase-later g gs other))
          (erase-All (λ h. h.source ≢ g.source) gs h.0, erase-Apart gs h.1)
  ]

  pub erase-dests :
      (x : ℕ) (gs : List Migration) (h : Migration)
      → find_migration f gs ≡ some h
      → dests x gs ≡ (if x == h.dest_frame then 1 else 0) + dests x (erase_migration f gs)
  unfolding find_migration dests
  erase-dests x [] h found = cc
  erase-dests x (g ∷ gs) h found = elim (Bool-cases (g.source == f)) [
    | inl here ↦
        ap (λ (gs : List Migration). (if x == g.dest_frame then 1 else 0) + dests x gs)
          (sym (erase-first g gs here))
        ∙ ap
            (λ (h : Migration).
              (if x == h.dest_frame then 1 else 0) + dests x (erase_migration f (g ∷ gs)))
            (find-first g h gs here found)
    | inr other ↦ omega (
      arith,
      erase-dests x gs h (sym (find-later g gs other) ∙ found),
      ap (dests x) (erase-later g gs other),
    )
  ]

  pub erase-number :
      (gs : List Migration) (h : Migration)
      → find_migration f gs ≡ some h
      → number gs ≡ suc (number (erase_migration f gs))
  unfolding find_migration
  erase-number [] h found = cc
  erase-number (g ∷ gs) h found = elim (Bool-cases (g.source == f)) [
    | inl here ↦ ap (λ gs. suc (number gs)) (sym (erase-first g gs here))
    | inr other ↦
        ap suc (erase-number gs h (sym (find-later g gs other) ∙ found))
        ∙ ap (λ gs. suc (number gs)) (sym (erase-later g gs other))
  ]

  -- The others leave other frames.
  pub erase-others :
      (gs : List Migration) → Apart gs → All (λ h. h.source ≢ f) (erase_migration f gs)
  unfolding erase_migration
  erase-others [] h = tt
  erase-others (g ∷ gs) h = elim (Bool-cases (g.source == f)) [
    | inl here ↦
        let same : g.source ≡ f = ground arith in
        subst (All (λ h. h.source ≢ f)) (sym (erase-first g gs here))
          (subst (λ f. All (λ h. h.source ≢ f) gs) same h.0)
    | inr other ↦
        subst (All (λ h. h.source ≢ f)) (sym (erase-later g gs other))
          (ground arith, erase-others gs h.1)
  ]

  pub find-erase :
      (k : ℕ) (gs : List Migration)
      → k ≢ f
      → find_migration k (erase_migration f gs) ≡ find_migration k gs
  unfolding find_migration erase_migration
  find-erase k [] other = refl
  find-erase k (g ∷ gs) other = elim (Bool-cases (g.source == f)) [
    | inl here ↦
        ap (find_migration k) (erase-first g gs here)
        ∙ sym (if_false {b = g.source == k} _ _ (ground arith))
    | inr later ↦
        ap (find_migration k) (erase-later g gs later)
        ∙ ap (λ o. if g.source == k then some g else o) (find-erase k gs other)
  ]
