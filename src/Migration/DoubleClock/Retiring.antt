-- ===== src/Migration/DoubleClock/Retiring.antt =====
-- What the promotion of `OldDoubleClockMigrationPolicy` (Migration.cpp) does with each page of the active list.
use hmmsim_server.Prelude.{
  ℕ, suc, if_true, if_false, ◌≡◌, ◌≢◌, ◌<◌, ◌++◌, lt→ltb, refl, ◌∙◌, ap, sym, Bool, true, false,
  Option, none, some, [], ◌∷◌, if◌then◌else◌, arith, All,
}
use hmmsim_server.Prelude.Results.{ok}
use hmmsim_server.Migration.Store.{
  Entry, Nodes, find, erase, update, back, emplace, set_page, link, unlink, revise,
}
use hmmsim_server.Migration.Store.Nodes.{Distinct}
use hmmsim_server.Migration.Store.Middle.{update-middle}
use hmmsim_server.Migration.DoubleClock.{
  ListType, dram_list, active_list, inactive_list, list_tags, Lists, page_of, scan_active,
}

-- The first page of the list with its bit set.
abbrev pub first_set : Nodes Bool → Option (ℕ × ℕ)
first_set [] = none
first_set ((i, e) ∷ q) = if e.body then some (e.pid, e.addr) else first_set q

-- The list without its first page with the bit set and without pages with the bit clear; the bits of
-- the others are clear.
abbrev pub kept : Bool → Nodes Bool → Nodes Bool
kept found [] = []
kept found ((i, e) ∷ q) =
    if e.body
    then if found then (i, record e { body = false }) ∷ kept true q else kept true q
    else kept found q

-- The pages of the list with the bit clear, in their order, as nodes with numbers from `n` on.
abbrev pub retirees : ℕ → Nodes Bool → Nodes Bool
retirees n [] = []
retirees n ((i, e) ∷ q) =
    if e.body then retirees n q else (n, record e { body = false }) ∷ retirees (suc n) q

-- The map, with the pages of nodes at these nodes of the inactive list.
abbrev pub with_inactive :
    Nodes Bool → (ℕ → ℕ → Option (ListType × ℕ)) → ℕ → ℕ → Option (ListType × ℕ)
with_inactive [] pages = pages
with_inactive ((n, e) ∷ q) pages = with_inactive q (set_page e.pid e.addr (inactive_list, n) pages)

-- The pages of a list with the bit clear are at the back of the inactive list, and the map knows it; the list of
-- DRAM is as it was.
pub record Retires (q : Nodes Bool) (s s' : Lists) : Type 0 where
  pub inactive : s'.lists inactive_list ≡ s.lists inactive_list ++ retirees s.fresh q
  pub pages : s'.pages ≡ with_inactive (retirees s.fresh q) s.pages
  pub in_dram : s'.lists dram_list ≡ s.lists dram_list

-- The loop has done with the nodes `done`; no node is still to come that is among them or twice.
abbrev pub Ahead : Nodes Bool → Nodes Bool → Type 0
Ahead done [] = Unit
Ahead done ((i, e) ∷ q) = (find i done ≡ none) × (find i q ≡ none) × Ahead done q

pub Ahead-Distinct : (q : Nodes Bool) → Distinct q → Ahead [] q
unfolding find
Ahead-Distinct [] d = tt
Ahead-Distinct ((i, e) ∷ q) d = (refl, d.0, Ahead-Distinct q d.1)

find-after :
    (j i : ℕ) (e : Entry Bool) (done : Nodes Bool)
    → find j done ≡ none
    → j ≢ i
    → find j (done ++ ((i, e) ∷ [])) ≡ none
unfolding find
find-after j i e [] h n = ground arith
find-after j i e ((k, f) ∷ done) h n = ground (arith, find-after j i e done)

pub Ahead-after :
    (i : ℕ) (e : Entry Bool) (done q : Nodes Bool)
    → find i q ≡ none
    → Ahead done q
    → Ahead (done ++ ((i, e) ∷ [])) q
unfolding find
Ahead-after i e done [] h a = tt
Ahead-after i e done ((k, f) ∷ q) h a =
    (find-after k i e done a.0 (ground arith), a.1, Ahead-after i e done q (ground arith) a.2)

pub append-one :
    (x : ℕ × Entry Bool) (done rest : Nodes Bool) → (done ++ (x ∷ [])) ++ rest ≡ done ++ x ∷ rest
append-one x [] rest = refl
append-one x (y ∷ done) rest = ap (λ l. y ∷ l) (append-one x done rest)

-- A node that stays, with its bit cleared, is one that the loop has done with.
pub update-passed :
    (i : ℕ) (e : Entry Bool) (done q : Nodes Bool)
    → find i done ≡ none
    → find i q ≡ none
    → update i (λ _. false) (done ++ (i, e) ∷ q)
      ≡ (done ++ ((i, record e { body = false }) ∷ [])) ++ q
update-passed i e done q h g =
    update-middle i (λ _. false) e done q h g
    ∙ sym (append-one (i, record e { body = false }) done q)

abbrev is_mapped : Option (ListType × ℕ) → Bool
is_mapped none = false
is_mapped (some p) = true

-- The pages of the nodes have map entries.
abbrev pub Resident : ℕ → Lists → Nodes Bool → Type 0
Resident num_pids s q =
    All (λ n. (n.1.pid < num_pids) × (is_mapped (s.pages n.1.pid n.1.addr) ≡ true)) q

page_of-Resident :
    (num_pids p a : ℕ) (s : Lists)
    → p < num_pids
    → is_mapped (s.pages p a) ≡ true
    → (v : ListType × ℕ) × (page_of num_pids p a s ≡ ok (some v))
unfolding page_of
page_of-Resident num_pids p a s h m =
    let (v, there) = mapped (s.pages p a) m in (v, rw (lt→ltb p num_pids h, there))
  where
    mapped : (o : Option (ListType × ℕ)) → is_mapped o ≡ true → (v : ListType × ℕ) × (o ≡ some v)
    mapped none k = cc
    mapped (some v) k = (v, refl)

abbrev pub or_else : Option (ℕ × ℕ) → Option (ℕ × ℕ) → Option (ℕ × ℕ)
or_else none o = o
or_else (some p) o = some p

abbrev pub is_found : Option (ℕ × ℕ) → Bool
is_found none = false
is_found (some p) = true

-- The three steps of the loop.
module _ (num_pids i : ℕ) (e : Entry Bool) (q : Nodes Bool) (s : Lists) where
  pub scan-chosen :
      e.body ≡ true
      → scan_active num_pids ((i, e) ∷ q) none s
        ≡ scan_active num_pids q (some (e.pid, e.addr)) (unlink active_list i s)
  unfolding scan_active
  scan-chosen set = rw set

  pub scan-cleared :
      (p : ℕ × ℕ)
      → e.body ≡ true
      → scan_active num_pids ((i, e) ∷ q) (some p) s
        ≡ scan_active num_pids q (some p) (revise active_list i (λ _. false) s)
  unfolding scan_active
  scan-cleared p set = rw set

  abbrev pub retired : Lists
  retired =
      unlink active_list i (
        link back inactive_list e.pid e.addr (record { pid = e.pid; addr = e.addr; body = false })
          s)

  pub scan-retired :
      (found : Option (ℕ × ℕ))
      → e.body ≡ false
      → Resident num_pids s ((i, e) ∷ q)
      → scan_active num_pids ((i, e) ∷ q) found s ≡ scan_active num_pids q found retired
  unfolding scan_active
  scan-retired found clear r =
      let (v, page) = page_of-Resident num_pids e.pid e.addr s r.0.0 r.0.1 in rw (clear, page)

  pub retired-active : retired.lists active_list ≡ erase i (s.lists active_list)
  unfolding unlink link
  retired-active = refl

  pub retired-mapped :
      (p a : ℕ) → is_mapped (s.pages p a) ≡ true → is_mapped (retired.pages p a) ≡ true
  unfolding unlink link
  retired-mapped p a m = ground arith

  pub revise-active :
      (revise active_list i (λ _. false) s).lists active_list
      ≡ update i (λ _. false) (s.lists active_list)
  unfolding revise
  revise-active = refl

  pub revise-pages : (revise active_list i (λ _. false) s).pages ≡ s.pages
  unfolding revise
  revise-pages = refl

  pub unlink-active : (unlink active_list i s).lists active_list ≡ erase i (s.lists active_list)
  unfolding unlink
  unlink-active = refl

  pub unlink-pages : (unlink active_list i s).pages ≡ s.pages
  unfolding unlink
  unlink-pages = refl

-- A page with the bit set is not retired, where the step leaves the other lists and the map.
Retires-set :
    (i : ℕ) (e : Entry Bool) (q : Nodes Bool) (s t s' : Lists)
    → e.body ≡ true
    → t.lists inactive_list ≡ s.lists inactive_list
    → t.lists dram_list ≡ s.lists dram_list
    → t.pages ≡ s.pages
    → t.fresh ≡ s.fresh
    → Retires q t s'
    → Retires ((i, e) ∷ q) s s'
Retires-set i e q s t s' set inactive in_dram pages fresh r =
    let same : retirees s.fresh ((i, e) ∷ q) ≡ retirees t.fresh q =
      if_true _ _ set ∙ ap (λ n. retirees n q) (sym fresh) in
    record {
      inactive =
          r.inactive
          ∙ ap (λ l. l ++ retirees t.fresh q) inactive
          ∙ ap (λ l. s.lists inactive_list ++ l) (sym same);
      pages =
          r.pages
          ∙ ap (with_inactive (retirees t.fresh q)) pages
          ∙ ap (λ l. with_inactive l s.pages) (sym same);
      in_dram = r.in_dram ∙ in_dram;
    }

pub Retires-chosen :
    (i : ℕ) (e : Entry Bool) (q : Nodes Bool) (s s' : Lists)
    → e.body ≡ true
    → Retires q (unlink active_list i s) s'
    → Retires ((i, e) ∷ q) s s'
unfolding unlink
Retires-chosen i e q s s' set r =
    Retires-set i e q s (unlink active_list i s) s' set refl refl refl refl r

pub Retires-cleared :
    (i : ℕ) (e : Entry Bool) (q : Nodes Bool) (s s' : Lists)
    → e.body ≡ true
    → Retires q (revise active_list i (λ _. false) s) s'
    → Retires ((i, e) ∷ q) s s'
unfolding revise
Retires-cleared i e q s s' set r =
    Retires-set i e q s (revise active_list i (λ _. false) s) s' set refl refl refl refl r

pub Retires-clear :
    (num_pids i : ℕ) (e : Entry Bool) (q : Nodes Bool) (s s' : Lists)
    → e.body ≡ false
    → Retires q (retired num_pids i e q s) s'
    → Retires ((i, e) ∷ q) s s'
unfolding link unlink emplace
Retires-clear num_pids i e q s s' clear r =
    let same : retirees s.fresh ((i, e) ∷ q)
        ≡ (s.fresh, record e { body = false }) ∷ retirees (suc s.fresh) q =
      if_false _ _ clear in
    record {
      inactive =
          r.inactive
          ∙ append-one (s.fresh, record e { body = false }) (s.lists inactive_list)
              (retirees (suc s.fresh) q)
          ∙ ap (λ l. s.lists inactive_list ++ l) (sym same);
      pages = r.pages ∙ ap (λ l. with_inactive l s.pages) (sym same);
      in_dram = r.in_dram;
    }
