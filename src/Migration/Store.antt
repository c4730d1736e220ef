-- ===== src/Migration/Store.antt =====
-- The `std::list`s of access entries of a policy and its `PageMap` (include/Migration.H), which hold
-- iterators into one another. A list node has a number, and an iterator is the number of its node,
-- `none` for `end()`. The lists of a policy go by a tag. `pages` is the array of maps from addresses,
-- one map for each process.
pub mod Nodes
pub mod Middle
pub mod Links
pub mod Revise
use hmmsim_server.Prelude.{
  ℕ, suc, ◌≡◌, ◌↔◌, Bool, true, false, ◌&&◌, Option, none, some, List, [], ◌∷◌, ◌++◌, ◌==◌,
  if◌then◌else◌,
}

-- Tags have a Boolean equality.
pub record Tagged (T : Type 0) : Type 0 where
  pub same : T → T → Bool
  pub same_iff : (t u : T) → (same t u ≡ true) ↔ (t ≡ u)

-- `AccessEntry`: the page, and what the policy keeps of it.
pub record Entry (B : Type 0) : Type 0 where
  pub pid : ℕ
  pub addr : ℕ
  pub body : B

abbrev pub Nodes : Type 0 → Type 0
Nodes B = List (ℕ × Entry B)

module _ {B : Type 0} where
  -- The entry that an iterator points at.
  unfoldable pub find : ℕ → Nodes B → Option (Entry B)
  find i [] = none
  find i ((j, e) ∷ q) = if j == i then some e else find i q

  -- `erase`
  unfoldable pub erase : ℕ → Nodes B → Nodes B
  erase i [] = []
  erase i ((j, e) ∷ q) = if j == i then erase i q else (j, e) ∷ erase i q

  -- `emplace(pos, …)`, in front of the node `k`.
  unfoldable pub emplace_before : ℕ → ℕ → Entry B → Nodes B → Nodes B
  emplace_before k i e [] = (i, e) ∷ []
  emplace_before k i e ((j, d) ∷ q) =
      if j == k then (i, e) ∷ (j, d) ∷ q else (j, d) ∷ emplace_before k i e q

  -- An assignment through an iterator.
  unfoldable pub update : ℕ → (B → B) → Nodes B → Nodes B
  update i f [] = []
  update i f ((j, e) ∷ q) =
      (if j == i then (j, record e { body = f e.body }) else (j, e)) ∷ update i f q

  -- `begin()`
  unfoldable pub begin : Nodes B → Option ℕ
  begin [] = none
  begin ((i, e) ∷ q) = some i

  -- `++it`
  unfoldable pub next : ℕ → Nodes B → Option ℕ
  unfolding begin
  next i [] = none
  next i ((j, e) ∷ q) = if j == i then begin q else next i q

  -- The last node, `--end()`.
  unfoldable pub last : Nodes B → Option (ℕ × Entry B)
  last [] = none
  last (n ∷ []) = some n
  last (n ∷ m ∷ q) = last (m ∷ q)

-- Where `emplace` puts an entry.
pub data Place : Type 0 where
  front back : Place
  before : Option ℕ → Place

unfoldable pub emplace : {B : Type 0} → Place → ℕ → Entry B → Nodes B → Nodes B
emplace front i e q = (i, e) ∷ q
emplace back i e q = q ++ ((i, e) ∷ [])
emplace (before none) i e q = q ++ ((i, e) ∷ [])
emplace (before (some k)) i e q = emplace_before k i e q

pub record Store (T B : Type 0) : Type 0 where
  pub lists : T → Nodes B
  pub pages : ℕ → ℕ → Option (T × ℕ)
  pub fresh : ℕ

abbrev pub set_page :
    {T : Type 0} → ℕ → ℕ → T × ℕ → (ℕ → ℕ → Option (T × ℕ)) → ℕ → ℕ → Option (T × ℕ)
set_page p a v pages q b = if p == q && a == b then some v else pages q b

module _ {T B : Type 0} ⦃tags : Tagged T⦄ where
  abbrev pub set_list : T → Nodes B → (T → Nodes B) → T → Nodes B
  set_list t q lists u = if tags.same t u then q else lists u

  -- A new entry in the list `t`, to which the map entry of the page `a` in `pages[p]` points from now
  -- on.
  unfoldable pub link : Place → T → ℕ → ℕ → Entry B → Store T B → Store T B
  link place t p a e s = record s {
    lists = set_list t (emplace place s.fresh e (s.lists t)) s.lists;
    pages = set_page p a (t, s.fresh) s.pages;
    fresh = suc s.fresh;
  }

  unfoldable pub unlink : T → ℕ → Store T B → Store T B
  unlink t i s = record s { lists = set_list t (erase i (s.lists t)) s.lists }

  unfoldable pub revise : T → ℕ → (B → B) → Store T B → Store T B
  revise t i f s = record s { lists = set_list t (update i f (s.lists t)) s.lists }
