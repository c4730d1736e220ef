-- ===== src/Migration/DoubleClock/Promotion.antt =====
-- What the promotion of `OldDoubleClockMigrationPolicy` (Migration.cpp) leaves of its lists.
use hmmsim_server.Prelude.{
  ℕ, ◌≡◌, ◌++◌, All-map, refl, ◌∙◌, ap, sym, inl, inr, Bool, true, false, Bool-cases, Option, none,
  some, [], ◌∷◌,
}
use hmmsim_server.Prelude.Results.{ok}
use hmmsim_server.Migration.Store.{Entry, Nodes, unlink, revise}
use hmmsim_server.Migration.Store.Nodes.{Distinct}
use hmmsim_server.Migration.Store.Middle.{erase-middle}
use hmmsim_server.Migration.DoubleClock.{active_list, inactive_list, list_tags, Lists, scan_active}
use hmmsim_server.Migration.DoubleClock.Retiring.{
  first_set, kept, Retires, Ahead, Ahead-Distinct, Ahead-after, append-one, update-passed, Resident,
  or_else, is_found, scan-chosen, scan-cleared, retired, scan-retired, retired-active,
  retired-mapped, revise-active, revise-pages, unlink-active, unlink-pages, Retires-chosen,
  Retires-cleared, Retires-clear,
}

-- What the loop finds, the active list that it leaves, and what becomes of the others.
abbrev Scans : ℕ → Nodes Bool → Nodes Bool → Option (ℕ × ℕ) → Lists → Type 0
Scans num_pids q done found s =
    (s' : Lists) × (scan_active num_pids q found s ≡ ok (or_else found (first_set q), s'))
    × (s'.lists active_list ≡ done ++ kept (is_found found) q)
    × Retires q s s'

module _ (i : ℕ) (e : Entry Bool) (q : Nodes Bool) where
  first_set-set : e.body ≡ true → first_set ((i, e) ∷ q) ≡ some (e.pid, e.addr)
  first_set-set set = rw set

  first_set-clear : e.body ≡ false → first_set ((i, e) ∷ q) ≡ first_set q
  first_set-clear clear = rw clear

  kept-first : e.body ≡ true → kept false ((i, e) ∷ q) ≡ kept true q
  kept-first set = rw set

  kept-set : e.body ≡ true → kept true ((i, e) ∷ q) ≡ (i, record e { body = false }) ∷ kept true q
  kept-set set = rw set

  kept-clear : (found : Bool) → e.body ≡ false → kept found ((i, e) ∷ q) ≡ kept found q
  kept-clear found clear = rw clear

append-none : (l : Nodes Bool) → l ++ [] ≡ l
append-none [] = refl
append-none (x ∷ l) = ap (λ l. x ∷ l) (append-none l)

none-Retires : (s : Lists) → Retires [] s s
none-Retires s = record {
  inactive = sym (append-none (s.lists inactive_list));
  pages = refl;
  in_dram = refl;
}

scan_active-kept :
    (num_pids : ℕ) (q done : Nodes Bool) (found : Option (ℕ × ℕ)) (s : Lists)
    → s.lists active_list ≡ done ++ q
    → Ahead done q
    → Resident num_pids s q
    → Scans num_pids q done found s
scan_active-kept num_pids [] done none s l a r = (s, unfold scan_active in refl, l, none-Retires s)
scan_active-kept num_pids [] done (some p) s l a r =
    (s, unfold scan_active in refl, l, none-Retires s)
scan_active-kept num_pids ((i, e) ∷ q) done none s l a r = elim (Bool-cases e.body) [
  | inl set ↦
      let (s', run, rest, r') =
        scan_active-kept num_pids q done (some (e.pid, e.addr)) (unlink active_list i s)
          (unlink-active num_pids i e q s ∙ rw l (erase-middle i e done q a.0 a.1)) a.2
          (rw (unlink-pages num_pids i e q s) r.1) in
      (
        s',
        scan-chosen num_pids i e q s set
            ∙ run
            ∙ ap (λ o. ok (o, s')) (sym (first_set-set i e q set)),
        rest ∙ ap (λ k. done ++ k) (sym (kept-first i e q set)),
        Retires-chosen i e q s s' set r',
      )
  | inr clear ↦
      let (s', run, rest, r') =
        scan_active-kept num_pids q done none (retired num_pids i e q s)
          (retired-active num_pids i e q s ∙ rw l (erase-middle i e done q a.0 a.1)) a.2
          (All-map (λ n h. (h.0, retired-mapped num_pids i e q s n.1.pid n.1.addr h.1)) q r.1) in
      (
        s',
        scan-retired num_pids i e q s none clear r
            ∙ run
            ∙ ap (λ o. ok (o, s')) (sym (first_set-clear i e q clear)),
        rest ∙ ap (λ k. done ++ k) (sym (kept-clear i e q false clear)),
        Retires-clear num_pids i e q s s' clear r',
      )
]
scan_active-kept num_pids ((i, e) ∷ q) done (some p) s l a r = elim (Bool-cases e.body) [
  | inl set ↦
      let (s', run, rest, r') =
        scan_active-kept num_pids q (done ++ ((i, record e { body = false }) ∷ [])) (some p)
          (revise active_list i (λ _. false) s)
          (revise-active num_pids i e q s ∙ rw l (update-passed i e done q a.0 a.1))
          (Ahead-after i (record e { body = false }) done q a.1 a.2)
          (rw (revise-pages num_pids i e q s) r.1) in
      (
        s',
        scan-cleared num_pids i e q s p set ∙ run,
        rest
            ∙ append-one (i, record e { body = false }) done (kept true q)
            ∙ ap (λ k. done ++ k) (sym (kept-set i e q set)),
        Retires-cleared i e q s s' set r',
      )
  | inr clear ↦
      let (s', run, rest, r') =
        scan_active-kept num_pids q done (some p) (retired num_pids i e q s)
          (retired-active num_pids i e q s ∙ rw l (erase-middle i e done q a.0 a.1)) a.2
          (All-map (λ n h. (h.0, retired-mapped num_pids i e q s n.1.pid n.1.addr h.1)) q r.1) in
      (
        s',
        scan-retired num_pids i e q s (some p) clear r ∙ run,
        rest ∙ ap (λ k. done ++ k) (sym (kept-clear i e q true clear)),
        Retires-clear num_pids i e q s s' clear r',
      )
]

-- The loop of `selectPage` over an active list of distinct nodes, whose pages the map holds, finishes.
-- It picks the first page with its bit set. It leaves the other pages with their bits set, in their
-- order and with the bits cleared, and takes the pages with the bit clear away: they are in their order,
-- with their bits clear, behind what was in the inactive list, and the map has them at their nodes
-- there. The map has the other pages where it had them, and the list of DRAM is the same.
pub scan_active_lem :
    (num_pids : ℕ) (s : Lists)
    → Distinct (s.lists active_list)
    → Resident num_pids s (s.lists active_list)
    → (s' : Lists) × (scan_active num_pids (s.lists active_list) none s
        ≡ ok (first_set (s.lists active_list), s'))
      × (s'.lists active_list ≡ kept false (s.lists active_list))
      × Retires (s.lists active_list) s s'
scan_active_lem num_pids s d r =
    scan_active-kept num_pids (s.lists active_list) [] none s refl
      (Ahead-Distinct (s.lists active_list) d) r
