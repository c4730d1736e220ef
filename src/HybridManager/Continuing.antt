-- ===== src/HybridManager/Continuing.antt =====
-- A migration of a `HybridMemoryManager` (MemoryManager.cpp) goes on to another phase, and its page may be
-- accessed or not.
use hmmsim_server.Prelude.{
  ℕ, ◌%◌, ◌^◌, ◌≡◌, ◌≢◌, refl, sym, ap, ◌∙◌, Bool, true, false, ◌&&◌, [], some, ◌==◌, Bool-cases,
  inl, inr, arith, if_true,
}
use mathlib.Core.Path.{subst}
use hmmsim_server.HybridManager.{
  Page, Phase, Migration, Manager, in_place, set_page, find_migration, revise_migration,
}
use hmmsim_server.HybridManager.Flushing.{is_flushing}
use hmmsim_server.HybridManager.Frames.{
  count, Moving, IsValid, set_page-cases, set_page-here, set_page-other,
}
use hmmsim_server.HybridManager.Starting.{same_entry}
use hmmsim_server.HybridManager.Ending.{found-Moving, entry, there, entry_frame}
use hmmsim_server.HybridManager.Revising.{
  changed, revise-dests, revise-number, revise-All, revise-Apart, find-revise, find-revised,
}

module _ (m : Manager) (f : ℕ) (g : Migration) (v : IsValid [] m)
    (found : find_migration f m.migrations ≡ some g) (phase : Phase)
    (copies : Migration → Bool) where
  abbrev e : Page
  e = entry m f g v found

  abbrev pub waiting : Page
  waiting = record e { stall_on_access = is_flushing phase }

  -- The state in the new phase.
  abbrev pub revised : Manager
  revised = record m {
    pages = set_page g.pid g.page waiting m.pages;
    migrations = revise_migration (changed f phase copies) f m.migrations;
  }

  at : m.pages g.pid g.page ≡ some e
  at = there m f g v found

  other-Moving :
      (h : Migration) → Moving m.config m.pages h → h.source ≢ f → Moving m.config revised.pages h
  other-Moving h t elsewhere = record {
    entry = t.entry;
    known = elim (Bool-cases (h.pid == g.pid && h.page == g.page)) [
      | inl same ↦
          let one = same_entry m.pages h.pid h.page g.pid g.page t.entry e same t.known at in
          absurd
            (elsewhere (sym t.source ∙ ap (λ (a : Page). a.frame) one ∙ entry_frame m f g v found))
      | inr other ↦ set_page-other g.pid g.page waiting m.pages h.pid h.page other ∙ t.known
    ];
    source = t.source;
    moving = t.moving;
    goes = t.goes;
    waits = t.waits;
    rolled = t.rolled;
  }

  this-Moving : Moving m.config revised.pages (changed f phase copies g)
  this-Moving =
      let t = (found-Moving m f g v found).0 in
      record {
        entry = waiting;
        known = set_page-here g.pid g.page waiting m.pages;
        source = t.source;
        moving = t.moving;
        goes = t.goes;
        waits = refl;
        rolled = t.rolled;
      }

  not_still : {b : Bool} → b ≡ true → b ≡ false → ⊥
  not_still h k = cc

  pub revised-IsValid : IsValid [] revised
  unfolding count
  revised-IsValid = record {
    conserved = λ x. omega (arith, v.conserved x, revise-dests f phase copies x m.migrations);
    drams = v.drams;
    pcms = v.pcms;
    typed = λ p w a here. elim (set_page-cases g.pid g.page waiting m.pages p w a here) [
      | inl (p_same, w_same, mine) ↦
          subst (λ (a : Page). in_place m.config a ≡ true) mine (v.typed g.pid g.page e at)
      | inr (other, before) ↦ v.typed p w a before
    ];
    owner = λ k o owns.
        let (a, was, same) = v.owner k o owns in
        elim (Bool-cases (o.pid == g.pid && o.page == g.page)) [
          | inl here ↦
              let one : a ≡ e = same_entry m.pages o.pid o.page g.pid g.page a e here was at in
              (waiting, if_true _ _ here, ap (λ (a : Page). a.frame) (sym one) ∙ same)
          | inr other ↦
              (a, set_page-other g.pid g.page waiting m.pages o.pid o.page other ∙ was, same)
        ];
    known = λ p w a here. elim (set_page-cases g.pid g.page waiting m.pages p w a here) [
      | inl (p_same, w_same, mine) ↦
          subst (λ (a : Page). m.physical a.frame ≡ some (record { pid = p; page = w })) mine
            (v.known g.pid g.page e at ∙ cc)
      | inr (other, before) ↦ v.known p w a before
    ];
    moving =
        revise-All f phase copies (Moving m.config m.pages) (Moving m.config revised.pages)
          m.migrations g other-Moving this-Moving found v.moving v.apart;
    apart = revise-Apart f phase copies m.migrations v.apart;
    listed = λ p w a here moving. elim (set_page-cases g.pid g.page waiting m.pages p w a here) [
      | inl (p_same, w_same, mine) ↦
          subst (λ k. (h : Migration) × (find_migration k revised.migrations ≡ some h))
            (sym (entry_frame m f g v found) ∙ ap (λ (a : Page). a.frame) mine)
            (changed f phase copies g, find-revised f phase copies m.migrations g found)
      | inr (other, before) ↦
          let (h, was) = v.listed p w a before moving in
          find-revise f phase copies a.frame m.migrations h was
    ];
    ready = λ p w a here still. elim (set_page-cases g.pid g.page waiting m.pages p w a here) [
      | inl (p_same, w_same, mine) ↦ absurd (
          not_still (found-Moving m f g v found).0.moving
            (ap (λ (a : Page). a.is_migrating) mine ∙ still))
      | inr (other, before) ↦ v.ready p w a before still
    ];
    size = v.size ∙ ap (λ n. n % 2 ^ 32) (sym (revise-number f phase copies m.migrations));
  }
