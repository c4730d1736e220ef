-- ===== src/HybridManager/Ending.antt =====
-- The end of a migration in a `HybridMemoryManager` (MemoryManager.cpp): the page is in the frame that it was
-- copied to, or stays where it was; the frame that it has no use for is spare.
use hmmsim_server.Prelude.{
  ℕ, ◌+◌, ◌-◌, ◌%◌, ◌^◌, ◌≡◌, ◌≢◌, sym, ap, ◌∙◌, Bool, true, false, ◌&&◌, List, [], ◌∷◌, ◌++◌,
  Option, some, ◌==◌, All, All-map₂, All-append, Bool-cases, inl, inr, arith,
}
use mathlib.Core.Path.{subst}
use hmmsim_server.HybridManager.{
  Page, Owner, Migration, Manager, is_dram_page, is_pcm_page, set_page, find_migration,
  erase_migration,
}
use hmmsim_server.HybridManager.Frames.{
  count, number, Moving, IsValid, set_page-cases, set_page-other, some_inj,
}
use hmmsim_server.HybridManager.Starting.{same_entry, Found, find_migration-Found}
use hmmsim_server.HybridManager.Erasing.{erase-All, erase-number, erase-others, find-erase}

count-append : (x f : ℕ) (fs : List ℕ) → count x (fs ++ f ∷ []) ≡ count x fs + count x (f ∷ [])
unfolding count
count-append x f [] = omega arith
count-append x f (g ∷ fs) = omega (arith, count-append x f fs)

-- A spare frame becomes free.
pub free_dram-IsValid :
    (m : Manager) (f : ℕ)
    → IsValid (f ∷ []) m
    → is_dram_page m.config f ≡ true
    → IsValid [] (record m { free_dram = m.free_dram ++ f ∷ [] })
unfolding count
free_dram-IsValid m f v in_dram = record {
  conserved = λ x. omega (arith, v.conserved x, count-append x f m.free_dram);
  drams =
      All-append (λ f. is_dram_page m.config f ≡ true) m.free_dram (f ∷ []) v.drams (in_dram, tt);
  pcms = v.pcms;
  typed = v.typed;
  owner = v.owner;
  known = v.known;
  moving = v.moving;
  apart = v.apart;
  listed = v.listed;
  ready = v.ready;
  size = v.size;
}

pub free_pcm-IsValid :
    (m : Manager) (f : ℕ)
    → IsValid (f ∷ []) m
    → is_pcm_page m.config f ≡ true
    → IsValid [] (record m { free_pcm = m.free_pcm ++ f ∷ [] })
unfolding count
free_pcm-IsValid m f v in_pcm = record {
  conserved = λ x. omega (arith, v.conserved x, count-append x f m.free_pcm);
  drams = v.drams;
  pcms = All-append (λ f. is_pcm_page m.config f ≡ true) m.free_pcm (f ∷ []) v.pcms (in_pcm, tt);
  typed = v.typed;
  owner = v.owner;
  known = v.known;
  moving = v.moving;
  apart = v.apart;
  listed = v.listed;
  ready = v.ready;
  size = v.size;
}

module _ (m : Manager) (f : ℕ) (g : Migration) (v : IsValid [] m)
    (found : find_migration f m.migrations ≡ some g) where
  -- The migration is of a page in the frame.
  pub found-Moving : Moving m.config m.pages g × (g.source ≡ f)
  found-Moving =
      subst (Found (Moving m.config m.pages) f m.migrations) found
        (find_migration-Found (Moving m.config m.pages) f m.migrations v.moving)

  abbrev pub entry : Page
  entry = found-Moving.0.entry

  pub there : m.pages g.pid g.page ≡ some entry
  there = found-Moving.0.known

  pub entry_frame : entry.frame ≡ f
  entry_frame = found-Moving.0.source ∙ found-Moving.1

  -- A page in the frame is that page.
  pub alone :
      (p w : ℕ) (a : Page) → m.pages p w ≡ some a → a.frame ≡ f → (p == g.pid && w == g.page) ≡ true
  alone p w a at frame =
      let mine = v.known g.pid g.page entry there in
      let its = v.known p w a at in
      let owner : record { pid = p; page = w } ≡ record { pid = g.pid; page = g.page } =
        some_inj {A = Owner} (sym its ∙ ap m.physical (frame ∙ sym entry_frame) ∙ mine) in
      ground (arith, ap (λ (o : Owner). o.pid) owner, ap (λ (o : Owner). o.page) owner)

  module _ (e' : Page) (still : e'.is_migrating ≡ false) where
    abbrev pub pages' : ℕ → ℕ → Option Page
    pages' = set_page g.pid g.page e' m.pages

    abbrev pub rest : List Migration
    rest = erase_migration f m.migrations

    pub rest-Moving : All (Moving m.config pages') rest
    rest-Moving =
        All-map₂
          (λ h. λ t. λ (elsewhere : h.source ≢ f). record {
            entry = t.entry;
            known = elim (Bool-cases (h.pid == g.pid && h.page == g.page)) [
              | inl same ↦
                  let one =
                    same_entry m.pages h.pid h.page g.pid g.page t.entry entry same t.known there in
                  absurd (elsewhere (sym t.source ∙ ap (λ (a : Page). a.frame) one ∙ entry_frame))
              | inr other ↦ set_page-other g.pid g.page e' m.pages h.pid h.page other ∙ t.known
            ];
            source = t.source;
            moving = t.moving;
            goes = t.goes;
            waits = t.waits;
            rolled = t.rolled;
          })
          rest (erase-All f (Moving m.config m.pages) m.migrations v.moving)
          (erase-others f m.migrations v.apart)

    pub rest-listed :
        (p w : ℕ) (a : Page)
        → pages' p w ≡ some a
        → a.is_migrating ≡ true
        → (h : Migration) × (find_migration a.frame rest ≡ some h)
    rest-listed p w a at moving = elim (set_page-cases g.pid g.page e' m.pages p w a at) [
      | inl (p_same, w_same, mine) ↦ cc
      | inr (other, before) ↦
          let (h, was) = v.listed p w a before moving in
          let elsewhere : a.frame ≢ f = λ frame. differ (alone p w a before frame) other in
          (h, find-erase f a.frame m.migrations elsewhere ∙ was)
    ]
      where
        differ : {b : Bool} → b ≡ true → b ≡ false → ⊥
        differ h k = cc

    pub fewer : (m.table_size + 2 ^ 32 - 1) % 2 ^ 32 ≡ number rest % 2 ^ 32
    fewer = omega (arith, v.size, erase-number f m.migrations g found)
