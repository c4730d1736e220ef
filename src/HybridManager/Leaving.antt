-- ===== src/HybridManager/Leaving.antt =====
-- The tables of a `HybridMemoryManager` (MemoryManager.cpp) once a migration has ended, whether its page moved
-- or not.
use hmmsim_server.Prelude.{
  ℕ, ◌+◌, ◌-◌, ◌%◌, ◌^◌, ◌≡◌, ◌≢◌, refl, sym, ap, ◌∙◌, Bool, true, false, ◌&&◌, [], ◌∷◌, none, some,
  ◌==◌, if◌then◌else◌, Bool-cases, Option-cases, inl, inr, arith, if_true,
}
use mathlib.Core.Path.{subst}
use hmmsim_server.Migration.Base.{PageType, dram, pcm, invalid}
use hmmsim_server.HybridManager.Flushing.{is_flushing}
use hmmsim_server.HybridManager.{
  copying, Page, Owner, Migration, Manager, in_place, set_page, set_owner, find_migration,
  erase_migration,
}
use hmmsim_server.HybridManager.Frames.{
  count, owned, GoesTo, IsValid, set_page-cases, set_page-here, set_page-other, set_owner-cases,
  set_owner-here, set_owner-other, some_inj,
}
use hmmsim_server.HybridManager.Placing.{taken_apart}
use hmmsim_server.HybridManager.Starting.{same_entry}
use hmmsim_server.HybridManager.Erasing.{erase-Apart, erase-dests}
use hmmsim_server.HybridManager.Ending.{
  found-Moving, entry, there, entry_frame, alone, rest-Moving, rest-listed, fewer,
}

module _ (m : Manager) (f : ℕ) (g : Migration) (v : IsValid [] m)
    (found : find_migration f m.migrations ≡ some g) where
  abbrev e : Page
  e = entry m f g v found

  -- The page stays: it is marked no more.
  abbrev pub unmarked : Page
  unmarked = record e { is_migrating = false }

  abbrev pub stays : Manager
  stays = record m {
    pages = set_page g.pid g.page unmarked m.pages;
    migrations = erase_migration f m.migrations;
    table_size = (m.table_size + 2 ^ 32 - 1) % 2 ^ 32;
  }

  pub stays-IsValid : g.phase ≡ copying → IsValid (g.dest_frame ∷ []) stays
  unfolding count
  stays-IsValid phase = record {
    conserved = λ x. omega (arith, v.conserved x, erase-dests f x m.migrations g found);
    drams = v.drams;
    pcms = v.pcms;
    typed = λ p w a at. elim (set_page-cases g.pid g.page unmarked m.pages p w a at) [
      | inl (p_same, w_same, mine) ↦
          subst (λ (a : Page). in_place m.config a ≡ true) mine
            (v.typed g.pid g.page e (there m f g v found))
      | inr (other, before) ↦ v.typed p w a before
    ];
    owner = λ k o owns.
        let (a, at, same) = v.owner k o owns in
        elim (Bool-cases (o.pid == g.pid && o.page == g.page)) [
          | inl here ↦
              let one : a ≡ e =
                same_entry m.pages o.pid o.page g.pid g.page a e here at (there m f g v found) in
              (unmarked, if_true _ _ here, ap (λ (a : Page). a.frame) (sym one) ∙ same)
          | inr other ↦
              (a, set_page-other g.pid g.page unmarked m.pages o.pid o.page other ∙ at, same)
        ];
    known = λ p w a at. elim (set_page-cases g.pid g.page unmarked m.pages p w a at) [
      | inl (p_same, w_same, mine) ↦
          subst (λ (a : Page). m.physical a.frame ≡ some (record { pid = p; page = w })) mine
            (v.known g.pid g.page e (there m f g v found) ∙ cc)
      | inr (other, before) ↦ v.known p w a before
    ];
    moving = rest-Moving m f g v found unmarked refl;
    apart = erase-Apart f m.migrations v.apart;
    listed = rest-listed m f g v found unmarked refl;
    ready = λ p w a at still. elim (set_page-cases g.pid g.page unmarked m.pages p w a at) [
      | inl (p_same, w_same, its) ↦
          ap (λ (a : Page). a.stall_on_access) (sym its)
          ∙ (found-Moving m f g v found).0.waits
          ∙ ap is_flushing phase
      | inr (other, before) ↦ v.ready p w a before still
    ];
    size = fewer m f g v found unmarked refl;
  }

  -- The page moves to the frame that it was copied to.
  abbrev pub arrived : Page
  arrived = record e {
    frame = g.dest_frame;
    type = g.dest;
    is_migrating = false;
    stall_on_access = false;
  }

  abbrev pub mine : Owner
  mine = record { pid = g.pid; page = g.page }

  abbrev pub moves : Manager
  moves = record m {
    pages = set_page g.pid g.page arrived m.pages;
    physical = set_owner g.dest_frame (some mine) (set_owner f none m.physical);
    migrations = erase_migration f m.migrations;
    table_size = (m.table_size + 2 ^ 32 - 1) % 2 ^ 32;
  }

  -- The frame that it moves to was nobody's.
  pub dest_unowned : m.physical g.dest_frame ≡ none
  dest_unowned = elim (Option-cases (m.physical g.dest_frame)) [
    | inl free ↦ free
    | inr (o, owns) ↦ absurd (
        ground (
          arith,
          v.conserved g.dest_frame,
          erase-dests f g.dest_frame m.migrations g found,
          ap owned owns,
        ))
  ]

  pub source_owned : m.physical f ≡ some mine
  source_owned =
      ap m.physical (sym (entry_frame m f g v found)) ∙ v.known g.pid g.page e (there m f g v found)

  pub apart_frames : g.dest_frame ≢ f
  apart_frames same = taken_apart source_owned (ap m.physical (sym same) ∙ dest_unowned)

  arrived-in_place :
      (t : PageType) → GoesTo m.config g t → in_place m.config (record arrived { type = t }) ≡ true
  arrived-in_place dram goes = ground (arith, goes.0)
  arrived-in_place pcm goes = ground (arith, goes.0)
  arrived-in_place invalid goes = absurd goes

  -- The owners of the other frames are as before.
  other_owner : (k : ℕ) → k ≢ g.dest_frame → k ≢ f → moves.physical k ≡ m.physical k
  other_owner k not_dest not_source =
      set_owner-other g.dest_frame (some mine) (set_owner f none m.physical) k not_dest
      ∙ set_owner-other f none m.physical k not_source

  moves-owner :
      (k : ℕ) (o : Owner)
      → moves.physical k ≡ some o
      → (a : Page) × (moves.pages o.pid o.page ≡ some a) × (a.frame ≡ k)
  moves-owner k o owns =
      elim (set_owner-cases g.dest_frame (some mine) (set_owner f none m.physical) k o owns) [
        | inl (here, same) ↦
            subst (λ (o : Owner). (a : Page) × (moves.pages o.pid o.page ≡ some a) × (a.frame ≡ k))
              (some_inj same) (arrived, set_page-here g.pid g.page arrived m.pages, sym here)
        | inr (not_dest, inner) ↦ elim (set_owner-cases f none m.physical k o inner) [
          | inl (here, empty) ↦ cc
          | inr (not_source, before) ↦
              let (a, at, same) = v.owner k o before in
              elim (Bool-cases (o.pid == g.pid && o.page == g.page)) [
                | inl its ↦
                    let one : a ≡ e =
                      same_entry m.pages o.pid o.page g.pid g.page a e its at
                        (there m f g v found) in
                    absurd (
                      not_source
                        (sym same ∙ ap (λ (a : Page). a.frame) one ∙ entry_frame m f g v found))
                | inr other ↦
                    (a, set_page-other g.pid g.page arrived m.pages o.pid o.page other ∙ at, same)
              ]
        ]
      ]

  differ : {b : Bool} → b ≡ true → b ≡ false → ⊥
  differ h k = cc

  moves-known :
      (p w : ℕ) (a : Page)
      → moves.pages p w ≡ some a
      → moves.physical a.frame ≡ some (record { pid = p; page = w })
  moves-known p w a at = elim (set_page-cases g.pid g.page arrived m.pages p w a at) [
    | inl (p_same, w_same, its) ↦
        subst (λ (a : Page). moves.physical a.frame ≡ some (record { pid = p; page = w })) its
          (set_owner-here g.dest_frame (some mine) (set_owner f none m.physical) ∙ cc)
    | inr (other, before) ↦
        let its = v.known p w a before in
        other_owner a.frame (λ same. taken_apart its (ap m.physical same ∙ dest_unowned))
          (λ same. differ (alone m f g v found p w a before same) other)
        ∙ its
  ]

  moves_count :
      (x : ℕ)
      → owned (moves.physical x) + (if x == f then 1 else 0)
        ≡ owned (m.physical x) + (if x == g.dest_frame then 1 else 0)
  moves_count x = elim (Bool-cases (x == g.dest_frame)) [
    | inl here ↦
        let same : x ≡ g.dest_frame = ground arith in
        let now : owned (moves.physical x) ≡ 1 = ap owned (
          ap moves.physical same
          ∙ set_owner-here g.dest_frame (some mine) (set_owner f none m.physical)) in
        let before : owned (m.physical x) ≡ 0 = ap owned (ap m.physical same ∙ dest_unowned) in
        let not_source : x ≢ f = λ k. apart_frames (sym same ∙ k) in
        ground (arith, now, before, not_source)
    | inr not_dest ↦ elim (Bool-cases (x == f)) [
      | inl here ↦
          let same : x ≡ f = ground arith in
          let inner : set_owner f none m.physical x ≡ none = if_true {b = x == f} _ _ here in
          let now : owned (moves.physical x) ≡ 0 = ap owned (
            set_owner-other g.dest_frame (some mine) (set_owner f none m.physical) x (ground arith)
            ∙ inner) in
          let before : owned (m.physical x) ≡ 1 = ap owned (ap m.physical same ∙ source_owned) in
          ground (arith, now, before, not_dest, here)
      | inr not_source ↦
          let kept : owned (moves.physical x) ≡ owned (m.physical x) =
            ap owned (other_owner x (ground arith) (ground arith)) in
          ground (arith, kept, not_dest, not_source)
    ]
  ]

  pub moves-IsValid : IsValid (f ∷ []) moves
  unfolding count
  moves-IsValid = record {
    conserved =
        λ x. omega (arith, v.conserved x, erase-dests f x m.migrations g found, moves_count x);
    drams = v.drams;
    pcms = v.pcms;
    typed = λ p w a at. elim (set_page-cases g.pid g.page arrived m.pages p w a at) [
      | inl (p_same, w_same, its) ↦
          subst (λ (a : Page). in_place m.config a ≡ true) its
            (arrived-in_place g.dest (found-Moving m f g v found).0.goes)
      | inr (other, before) ↦ v.typed p w a before
    ];
    owner = moves-owner;
    known = moves-known;
    moving = rest-Moving m f g v found arrived refl;
    apart = erase-Apart f m.migrations v.apart;
    listed = rest-listed m f g v found arrived refl;
    ready = λ p w a at still. elim (set_page-cases g.pid g.page arrived m.pages p w a at) [
      | inl (p_same, w_same, its) ↦ ap (λ (a : Page). a.stall_on_access) (sym its)
      | inr (other, before) ↦ v.ready p w a before still
    ];
    size = fewer m f g v found arrived refl;
  }
