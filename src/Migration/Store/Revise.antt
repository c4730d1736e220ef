-- ===== src/Migration/Store/Revise.antt =====
-- An assignment through an iterator of a list of pages (Migration.cpp).
use hmmsim_server.Prelude.{
  ℕ, ◌≡◌, ◌∙◌, ap, if_true, if_false, Bool-cases, ◌&&◌, Option, Option-cases, inl, inr, none, some,
  [], ◌∷◌, ◌==◌, if◌then◌else◌, arith,
}
use hmmsim_server.Migration.Store.{Tagged, Entry, Nodes, find, update, Store, revise}
use hmmsim_server.Migration.Store.Nodes.{Distinct}
use hmmsim_server.Migration.Store.Links.{Linked}

module _ {B : Type 0} (f : B → B) where
  abbrev revised : Option (Entry B) → Option (Entry B)
  revised none = none
  revised (some e) = some (record e { body = f e.body })

  find-update :
      (i j : ℕ) (q : Nodes B)
      → find j (update i f q) ≡ (if i == j then revised (find j q) else find j q)
  unfolding find update
  find-update i j [] = ground arith
  find-update i j ((k, e) ∷ q) = ground (arith, find-update i j q)

  Distinct-update : (i : ℕ) (q : Nodes B) → Distinct q → Distinct (update i f q)
  unfolding update
  Distinct-update i [] d = tt
  Distinct-update i ((k, e) ∷ q) d = ground (arith, Distinct-update i q d.1, find-update i k q)

  module _ {T : Type 0} ⦃tags : Tagged T⦄ (t : T) (i : ℕ) (s : Store T B) where
    find-revise :
        (u : T) (j : ℕ)
        → find j ((revise t i f s).lists u)
          ≡ (if tags.same t u && i == j then revised (find j (s.lists u)) else find j (s.lists u))
    unfolding revise
    find-revise u j = ground (arith, tags.same_iff t u, find-update i j (s.lists t))

    -- An entry was there before, for the same page.
    was :
        (u : T) (j : ℕ) (e : Entry B)
        → find j ((revise t i f s).lists u) ≡ some e
        → (d : Entry B) × (find j (s.lists u) ≡ some d) × (d.pid ≡ e.pid) × (d.addr ≡ e.addr)
    was u j e h = elim (Option-cases (find j (s.lists u))) [
      | inl absent ↦ absurd (ground (arith, find-revise u j))
      | inr (d, there) ↦
          (d, there, ground (arith, find-revise u j), ground (arith, find-revise u j))
    ]

    pub revise-Linked : Linked s → Linked (revise t i f s)
    unfolding revise
    revise-Linked l = record {
      held = λ u j e h. let (d, there, p, a) = was u j e h in rw (← p, ← a) (l.held u j d there);
      linked = λ p a u j h.
          let (e, there, ep, ea) = l.linked p a u j h in
          elim (Bool-cases (tags.same t u && i == j)) [
            | inl here ↦ (
              record e { body = f e.body },
              find-revise u j ∙ if_true _ _ here ∙ ap revised there,
              ep,
              ea,
            )
            | inr other ↦ (e, find-revise u j ∙ if_false _ _ other ∙ there, ep, ea)
          ];
      old = λ u j e h. let (d, there, _, _) = was u j e h in l.old u j d there;
      distinct = λ u.
          ground
            (arith, tags.same_iff t u, Distinct-update i (s.lists t) (l.distinct t), l.distinct u);
    }

    pub revise-here :
        (e : Entry B)
        → find i (s.lists t) ≡ some e
        → find i ((revise t i f s).lists t) ≡ some (record e { body = f e.body })
    revise-here e there =
        find-revise t i
        ∙ if_true {b = tags.same t t && i == i} _ _ (ground (arith, tags.same_iff t t))
        ∙ ap revised there
