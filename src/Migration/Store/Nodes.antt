-- ===== src/Migration/Store/Nodes.antt =====
-- Laws of the lists of the policies (Migration.cpp), by what their iterators point at.
use native.Mathlib.Decide.{ℕ_discrete}
use hmmsim_server.Prelude.{
  ℕ, suc, ◌≡◌, refl, none, some, [], ◌∷◌, ◌++◌, length, length-append, ◌==◌, if◌then◌else◌, arith,
}
use hmmsim_server.Migration.Store.{
  Entry, Nodes, find, erase, emplace_before, last, Place, front, back, before, emplace,
}

module _ {B : Type 0} where
  -- No two nodes have one number.
  abbrev pub Distinct : Nodes B → Type 0
  Distinct [] = Unit
  Distinct ((i, e) ∷ q) = (find i q ≡ none) × Distinct q

  pub find-erase :
      (i j : ℕ) (q : Nodes B) → find j (erase i q) ≡ (if i == j then none else find j q)
  unfolding find erase
  find-erase i j [] = ground arith
  find-erase i j ((k, e) ∷ q) = ground (arith, find-erase i j q)

  pub erase-absent : (i : ℕ) (q : Nodes B) → find i q ≡ none → erase i q ≡ q
  unfolding find erase
  erase-absent i [] h = refl
  erase-absent i ((k, e) ∷ q) h = ground (arith, erase-absent i q)

  pub length-erase :
      (i : ℕ) (e : Entry B) (q : Nodes B)
      → Distinct q
      → find i q ≡ some e
      → suc (length (erase i q)) ≡ length q
  unfolding find erase
  length-erase i e [] d h = cc
  length-erase i e ((k, f) ∷ q) d h = elim (ℕ_discrete k i) [
    | yes p ↦ ground (arith, erase-absent i q)
    | no p ↦ ground (arith, length-erase i e q d.1)
  ]

  pub Distinct-erase : (i : ℕ) (q : Nodes B) → Distinct q → Distinct (erase i q)
  unfolding erase
  Distinct-erase i [] d = tt
  Distinct-erase i ((k, e) ∷ q) d = ground (arith, Distinct-erase i q d.1, find-erase i k q)

  find-back :
      (i j : ℕ) (e : Entry B) (q : Nodes B)
      → find i q ≡ none
      → find j (q ++ ((i, e) ∷ [])) ≡ (if i == j then some e else find j q)
  unfolding find
  find-back i j e [] h = refl
  find-back i j e ((k, f) ∷ q) h = ground (arith, find-back i j e q)

  find-before :
      (l i j : ℕ) (e : Entry B) (q : Nodes B)
      → find i q ≡ none
      → find j (emplace_before l i e q) ≡ (if i == j then some e else find j q)
  unfolding find emplace_before
  find-before l i j e [] h = refl
  find-before l i j e ((k, f) ∷ q) h = ground (arith, find-before l i j e q)

  pub find-emplace :
      (place : Place) (i j : ℕ) (e : Entry B) (q : Nodes B)
      → find i q ≡ none
      → find j (emplace place i e q) ≡ (if i == j then some e else find j q)
  unfolding emplace find
  find-emplace front i j e q h = refl
  find-emplace back i j e q h = find-back i j e q h
  find-emplace (before none) i j e q h = find-back i j e q h
  find-emplace (before (some k)) i j e q h = find-before k i j e q h

  length-before :
      (l i : ℕ) (e : Entry B) (q : Nodes B) → length (emplace_before l i e q) ≡ suc (length q)
  unfolding emplace_before
  length-before l i e [] = refl
  length-before l i e ((k, f) ∷ q) = ground (arith, length-before l i e q)

  pub length-emplace :
      (place : Place) (i : ℕ) (e : Entry B) (q : Nodes B)
      → length (emplace place i e q) ≡ suc (length q)
  unfolding emplace
  length-emplace front i e q = refl
  length-emplace back i e q = omega (arith, length-append q ((i, e) ∷ []))
  length-emplace (before none) i e q = omega (arith, length-append q ((i, e) ∷ []))
  length-emplace (before (some k)) i e q = length-before k i e q

  Distinct-back :
      (i : ℕ) (e : Entry B) (q : Nodes B)
      → find i q ≡ none
      → Distinct q
      → Distinct (q ++ ((i, e) ∷ []))
  unfolding find
  Distinct-back i e [] h d = (refl, tt)
  Distinct-back i e ((k, f) ∷ q) h d = ground (arith, Distinct-back i e q, find-back i k e q)

  Distinct-before :
      (l i : ℕ) (e : Entry B) (q : Nodes B)
      → find i q ≡ none
      → Distinct q
      → Distinct (emplace_before l i e q)
  unfolding find emplace_before
  Distinct-before l i e [] h d = (refl, tt)
  Distinct-before l i e ((k, f) ∷ q) h d =
      ground (arith, Distinct-before l i e q, find-before l i k e q)

  pub Distinct-emplace :
      (place : Place) (i : ℕ) (e : Entry B) (q : Nodes B)
      → find i q ≡ none
      → Distinct q
      → Distinct (emplace place i e q)
  unfolding emplace
  Distinct-emplace front i e q h d = (h, d)
  Distinct-emplace back i e q h d = Distinct-back i e q h d
  Distinct-emplace (before none) i e q h d = Distinct-back i e q h d
  Distinct-emplace (before (some k)) i e q h d = Distinct-before k i e q h d

  pub last-find :
      (q : Nodes B) (i : ℕ) (e : Entry B) → Distinct q → last q ≡ some (i, e) → find i q ≡ some e
  unfolding last find
  last-find [] i e d h = cc
  last-find ((k, f) ∷ []) i e d h = ground arith
  last-find ((k, f) ∷ (k', f') ∷ q) i e d h = ground (arith, last-find ((k', f') ∷ q) i e d.1)
