-- ===== src/Migration/Store/Middle.antt =====
-- A node in the middle of a list of distinct nodes (Migration.cpp).
use hmmsim_server.Prelude.{ℕ, ◌≡◌, ◌≢◌, refl, none, some, [], ◌∷◌, ◌++◌, arith}
use hmmsim_server.Migration.Store.{Entry, Nodes, find, erase, update, begin, next}
use hmmsim_server.Migration.Store.Nodes.{Distinct, erase-absent}

module _ {B : Type 0} where
  -- A number that no node has.
  pub absent-middle :
      (k i : ℕ) (e : Entry B) (a b : Nodes B)
      → find k (a ++ (i, e) ∷ b) ≡ none
      → (find k a ≡ none) × (k ≢ i) × (find k b ≡ none)
  unfolding find
  absent-middle k i e [] b h = ground arith
  absent-middle k i e ((j, f) ∷ a) b h = ground (arith, absent-middle k i e a b)

  pub absent-append :
      (k : ℕ) (a b : Nodes B) → find k a ≡ none → find k b ≡ none → find k (a ++ b) ≡ none
  unfolding find
  absent-append k [] b h g = g
  absent-append k ((j, f) ∷ a) b h g = ground (arith, absent-append k a b)

  pub Distinct-middle :
      (i : ℕ) (e : Entry B) (a b : Nodes B)
      → Distinct (a ++ (i, e) ∷ b)
      → (find i a ≡ none) × (find i b ≡ none)
  unfolding find
  Distinct-middle i e [] b d = (refl, d.0)
  Distinct-middle i e ((k, f) ∷ a) b d =
      ground (arith, absent-middle k i e a b d.0, Distinct-middle i e a b d.1)

  pub Distinct-entry :
      (i : ℕ) (e e' : Entry B) (a b : Nodes B)
      → Distinct (a ++ (i, e) ∷ b)
      → Distinct (a ++ (i, e') ∷ b)
  unfolding find
  Distinct-entry i e e' [] b d = d
  Distinct-entry i e e' ((k, f) ∷ a) b d =
      let (h, n, g) = absent-middle k i e a b d.0 in
      (absent-append k a ((i, e') ∷ b) h (ground arith), Distinct-entry i e e' a b d.1)

  pub erase-middle :
      (i : ℕ) (e : Entry B) (a b : Nodes B)
      → find i a ≡ none
      → find i b ≡ none
      → erase i (a ++ (i, e) ∷ b) ≡ a ++ b
  unfolding find erase
  erase-middle i e [] b h g = ground (arith, erase-absent i b)
  erase-middle i e ((j, f) ∷ a) b h g = ground (arith, erase-middle i e a b)

  update-absent : (i : ℕ) (c : B → B) (q : Nodes B) → find i q ≡ none → update i c q ≡ q
  unfolding find update
  update-absent i c [] h = refl
  update-absent i c ((j, f) ∷ q) h = ground (arith, update-absent i c q)

  pub update-middle :
      (i : ℕ) (c : B → B) (e : Entry B) (a b : Nodes B)
      → find i a ≡ none
      → find i b ≡ none
      → update i c (a ++ (i, e) ∷ b) ≡ a ++ (i, record e { body = c e.body }) ∷ b
  unfolding find update
  update-middle i c e [] b h g = ground (arith, update-absent i c b)
  update-middle i c e ((j, f) ∷ a) b h g = ground (arith, update-middle i c e a b)

  pub find-middle :
      (i : ℕ) (e : Entry B) (a b : Nodes B) → find i a ≡ none → find i (a ++ (i, e) ∷ b) ≡ some e
  unfolding find
  find-middle i e [] b h = ground arith
  find-middle i e ((j, f) ∷ a) b h = ground (arith, find-middle i e a b)

  pub next-middle :
      (i : ℕ) (e : Entry B) (a b : Nodes B) → find i a ≡ none → next i (a ++ (i, e) ∷ b) ≡ begin b
  unfolding find next
  next-middle i e [] b h = ground arith
  next-middle i e ((j, f) ∷ a) b h = ground (arith, next-middle i e a b)
