-- ===== src/Migration/Store/Links.antt =====
-- How the lists and the page map of a policy (Migration.cpp) refer to one another.
use mathlib.Core.Path.{fun_ext}
use hmmsim_server.Prelude.{
  ℕ, suc, ◌<◌, ◌≡◌, inl, inr, Bool, false, ◌&&◌, Bool-cases, Option-cases, none, some, length, ◌==◌,
  if◌then◌else◌, arith,
}
use hmmsim_server.Migration.Store.{Tagged, Entry, find, Place, Store, set_page, link, unlink}
use hmmsim_server.Migration.Store.Nodes.{
  Distinct, find-erase, length-erase, Distinct-erase, find-emplace, length-emplace,
  Distinct-emplace,
}

abbrev pub is_page : ℕ → ℕ → ℕ → ℕ → Bool
is_page p a q b = p == q && a == b

module _ {T B : Type 0} where
  -- Every node is the one that the map entry of its page points at, every iterator of the map points
  -- at a node for its page, and no two nodes of a list have one number.
  pub record Linked (s : Store T B) : Type 0 where
    pub held :
        (t : T) (i : ℕ) (e : Entry B)
        → find i (s.lists t) ≡ some e
        → s.pages e.pid e.addr ≡ some (t, i)
    pub linked :
        (p a : ℕ) (t : T) (i : ℕ)
        → s.pages p a ≡ some (t, i)
        → (e : Entry B) × (find i (s.lists t) ≡ some e) × (e.pid ≡ p) × (e.addr ≡ a)
    pub old : (t : T) (i : ℕ) (e : Entry B) → find i (s.lists t) ≡ some e → i < s.fresh
    pub distinct : (t : T) → Distinct (s.lists t)

  -- As `Linked`, but for one page, which no node stands for.
  pub record LinkedBut (p a : ℕ) (s : Store T B) : Type 0 where
    pub held :
        (t : T) (i : ℕ) (e : Entry B)
        → find i (s.lists t) ≡ some e
        → (s.pages e.pid e.addr ≡ some (t, i)) × (is_page p a e.pid e.addr ≡ false)
    pub linked :
        (q b : ℕ) (t : T) (i : ℕ)
        → is_page p a q b ≡ false
        → s.pages q b ≡ some (t, i)
        → (e : Entry B) × (find i (s.lists t) ≡ some e) × (e.pid ≡ q) × (e.addr ≡ b)
    pub old : (t : T) (i : ℕ) (e : Entry B) → find i (s.lists t) ≡ some e → i < s.fresh
    pub distinct : (t : T) → Distinct (s.lists t)

  absent-LinkedBut : (p a : ℕ) {s : Store T B} → s.pages p a ≡ none → Linked s → LinkedBut p a s
  absent-LinkedBut p a {s} absent l = record {
    held = λ t i e h. ground (arith, l.held t i e h);
    linked = λ q b t i other h. l.linked q b t i h;
    old = l.old;
    distinct = l.distinct;
  }

  find-fresh :
      {p a : ℕ} {s : Store T B} → LinkedBut p a s → (t : T) → find s.fresh (s.lists t) ≡ none
  find-fresh {s} l t = elim (Option-cases (find s.fresh (s.lists t))) [
    | inl clear ↦ clear
    | inr (e, there) ↦ absurd (omega (arith, l.old t s.fresh e there))
  ]

module _ {T B : Type 0} ⦃tags : Tagged T⦄ where
  find-unlink :
      (s : Store T B) (u : T) (i : ℕ) (t : T) (j : ℕ)
      → find j ((unlink u i s).lists t)
        ≡ (if tags.same u t && i == j then none else find j (s.lists t))
  unfolding unlink
  find-unlink s u i t j = ground (arith, tags.same_iff u t, find-erase i j (s.lists u))

  unlink-LinkedBut :
      (p a : ℕ) {s : Store T B} (u : T) (i : ℕ)
      → s.pages p a ≡ some (u, i)
      → Linked s
      → LinkedBut p a (unlink u i s)
  unfolding unlink
  unlink-LinkedBut p a {s} u i there l = record {
    held = λ t j e h. ground (arith, find-unlink s u i t j, tags.same_iff u t, l.held t j e);
    linked = λ q b t j other h.
        let (e, found, ep, ea) = l.linked q b t j h in
        (
          e,
          ground (arith, find-unlink s u i t j, tags.same_iff u t, l.linked p a u i there),
          ep,
          ea,
        );
    old = λ t j e h. ground (arith, find-unlink s u i t j, l.old t j e);
    distinct = λ t.
        ground
          (arith, tags.same_iff u t, Distinct-erase i (s.lists u) (l.distinct u), l.distinct t);
  }

module _ {T B : Type 0} ⦃tags : Tagged T⦄ (place : Place) (t : T) (e : Entry B) where
  find-link :
      {p a : ℕ} {s : Store T B}
      → LinkedBut p a s
      → (u : T) (j : ℕ)
      → find j ((link place t p a e s).lists u)
        ≡ (if tags.same t u && s.fresh == j then some e else find j (s.lists u))
  unfolding link
  find-link {s} l u j =
      ground (arith, tags.same_iff t u, find-emplace place s.fresh j e (s.lists t) (find-fresh l t))

  link-LinkedBut :
      {s : Store T B} → LinkedBut e.pid e.addr s → Linked (link place t e.pid e.addr e s)
  unfolding link
  link-LinkedBut {s} l = record {
    held = λ u i f h. ground (arith, find-link l u i, tags.same_iff t u, l.held u i f);
    linked = λ p a u i h. elim (Bool-cases (is_page e.pid e.addr p a)) [
      | inl here ↦
          (e, ground (arith, find-link l u i, tags.same_iff t u), ground arith, ground arith)
      | inr other ↦
          let (f, found, fp, fa) = l.linked p a u i other (ground arith) in
          (f, ground (arith, find-link l u i, l.old u i f found), fp, fa)
    ];
    old = λ u i f h. ground (arith, find-link l u i, l.old u i f);
    distinct = λ u. ground (
      arith,
      tags.same_iff t u,
      l.distinct u,
      find-fresh l t,
      Distinct-emplace place s.fresh e (s.lists t) (find-fresh l t) (l.distinct t),
    );
  }

  -- An entry for a page that the map does not hold yet.
  pub link-Linked :
      {s : Store T B}
      → s.pages e.pid e.addr ≡ none
      → Linked s
      → Linked (link place t e.pid e.addr e s)
  link-Linked absent l = link-LinkedBut (absent-LinkedBut e.pid e.addr absent l)

  -- The page's entry moves to another list or place.
  pub relink-Linked :
      {s : Store T B} (p a : ℕ) (u : T) (i : ℕ)
      → e.pid ≡ p
      → e.addr ≡ a
      → s.pages p a ≡ some (u, i)
      → Linked s
      → Linked (link place t p a e (unlink u i s))
  relink-Linked {s} p a u i ep ea there l =
      let there' : s.pages e.pid e.addr ≡ some (u, i) = rw (ep, ea) there in
      rw (← ep, ← ea) (link-LinkedBut (unlink-LinkedBut e.pid e.addr u i there' l))

module _ {T B : Type 0} ⦃tags : Tagged T⦄ where
  pub length-link :
      (place : Place) (t : T) (p a : ℕ) (e : Entry B) (s : Store T B) (u : T)
      → length ((link place t p a e s).lists u)
        ≡ (if tags.same t u then suc (length (s.lists u)) else length (s.lists u))
  unfolding link
  length-link place t p a e s u =
      ground (arith, tags.same_iff t u, length-emplace place s.fresh e (s.lists t))

  pub length-unlink :
      (s : Store T B) (u : T) (i : ℕ) (e : Entry B) (t : T)
      → Linked s
      → find i (s.lists u) ≡ some e
      → (if tags.same u t
          then suc (length ((unlink u i s).lists t))
          else length ((unlink u i s).lists t))
        ≡ length (s.lists t)
  unfolding unlink
  length-unlink s u i e t l found =
      ground (arith, tags.same_iff u t, length-erase i e (s.lists u) (l.distinct u))

  -- Calls on two lists commute.
  pub unlink-link :
      (place : Place) (t : T) (p a : ℕ) (e : Entry B) (s : Store T B) (u : T) (i : ℕ)
      → tags.same u t ≡ false
      → unlink u i (link place t p a e s) ≡ link place t p a e (unlink u i s)
  unfolding link unlink
  unlink-link place t p a e s u i other = λ k. record {
    lists = fun_ext lists_lem k;
    pages = set_page p a (t, s.fresh) s.pages;
    fresh = suc s.fresh;
  }
    where
      lists_lem :
          (v : T)
          → (unlink u i (link place t p a e s)).lists v
            ≡ (link place t p a e (unlink u i s)).lists v
      lists_lem v =
          ground (arith, tags.same_iff u t, tags.same_iff t u, tags.same_iff u v, tags.same_iff t v)
