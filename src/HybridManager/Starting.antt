-- ===== src/HybridManager/Starting.antt =====
-- The start of a migration in a `HybridMemoryManager` (MemoryManager.cpp): of a page in PCM that the memory
-- asks to move to DRAM, and of one in DRAM that a policy demotes.
use hmmsim_server.Prelude.{
  ℕ, ◌+◌, ◌%◌, ◌^◌, ◌≡◌, ◌≢◌, refl, sym, ap, ◌∙◌, true, false, ◌&&◌, List, [], ◌∷◌, Option, none,
  some, ◌==◌, All, All-map, Bool-cases, inl, inr, arith, if_true, if_false,
}
use mathlib.Core.Path.{subst}
use hmmsim_server.HybridManager.Flushing.{is_flushing}
use hmmsim_server.HybridManager.{
  Page, Owner, Migration, Manager, in_place, set_page, set_pending, nothing_pending, find_migration,
}
use hmmsim_server.HybridManager.Frames.{
  count, dests, Moving, GoesTo, IsValid, set_page-cases, set_page-here, set_page-other, some_inj,
}

apart_bools : true ≡ false → ⊥
apart_bools h = cc

pub same_entry :
    (pages : ℕ → ℕ → Option Page) (p v q w : ℕ) (a e : Page)
    → (p == q && v == w) ≡ true
    → pages p v ≡ some a
    → pages q w ≡ some e
    → a ≡ e
same_entry pages p v q w a e same h k =
    let pids : p ≡ q = ground arith in
    let numbers : v ≡ w = ground arith in
    some_inj (sym h ∙ ap (λ p. pages p v) pids ∙ ap (pages q) numbers ∙ k)

-- What a search of the migrations finds.
abbrev pub Found : (Migration → Type 0) → ℕ → List Migration → Option Migration → Type 0
Found P f gs none = All (λ h. h.source ≢ f) gs
Found P f gs (some g) = P g × (g.source ≡ f)

pub find_migration-Found :
    (P : Migration → Type 0) (f : ℕ) (gs : List Migration)
    → All P gs
    → Found P f gs (find_migration f gs)
unfolding find_migration
find_migration-Found P f [] h = tt
find_migration-Found P f (g ∷ gs) h = elim (Bool-cases (g.source == f)) [
  | inl here ↦ subst (Found P f (g ∷ gs)) (sym (if_true _ _ here)) (h.0, ground arith)
  | inr other ↦
      subst (Found P f (g ∷ gs)) (sym (if_false _ _ other))
        (not_first (find_migration f gs) (find_migration-Found P f gs h.1) (ground arith))
]
  where
    not_first : (o : Option Migration) → Found P f gs o → g.source ≢ f → Found P f (g ∷ gs) o
    not_first none rest other = (other, rest)
    not_first (some h) rest other = rest

-- A page that is not migrating is the source of no migration.
pub unmoved-absent :
    (m : Manager) (spare : List ℕ) (pid page : ℕ) (e : Page)
    → IsValid spare m
    → m.pages pid page ≡ some e
    → e.is_migrating ≡ false
    → find_migration e.frame m.migrations ≡ none
unmoved-absent m spare pid page e v there still =
    none_of (find_migration e.frame m.migrations)
      (find_migration-Found (Moving m.config m.pages) e.frame m.migrations v.moving)
  where
    none_of :
        (o : Option Migration) → Found (Moving m.config m.pages) e.frame m.migrations o → o ≡ none
    none_of none h = refl
    none_of (some g) (t, same) =
        let mine : m.physical e.frame ≡ some (record { pid = pid; page = page }) =
          v.known pid page e there in
        let other = v.known g.pid g.page t.entry t.known in
        let one : t.entry.frame ≡ e.frame = t.source ∙ same in
        let owner : record { pid = pid; page = page } ≡ record { pid = g.pid; page = g.page } =
          some_inj {A = Owner} (sym mine ∙ ap m.physical (sym one) ∙ other) in
        let entry : e ≡ t.entry =
          some_inj (sym there ∙ ap (λ (o : Owner). m.pages o.pid o.page) owner ∙ t.known) in
        absurd (apart_bools (sym t.moving ∙ ap (λ (e : Page). e.is_migrating) (sym entry) ∙ still))

module _ (m : Manager) (e e' : Page) (g : Migration) (v : IsValid (g.dest_frame ∷ []) m)
    (there : m.pages g.pid g.page ≡ some e) (still : e.is_migrating ≡ false)
    (source : e.frame ≡ g.source) (frame : e'.frame ≡ e.frame) (type : e'.type ≡ e.type)
    (moves : e'.is_migrating ≡ true) (goes : GoesTo m.config g g.dest)
    (waits : e'.stall_on_access ≡ is_flushing g.phase) (fresh : g.rolled_back ≡ false) where
  -- The state once the migration is under way.
  abbrev pub started : Manager
  started = record m {
    pages = set_page g.pid g.page e' m.pages;
    migrations = g ∷ m.migrations;
    pending = set_pending g.source nothing_pending m.pending;
    table_size = (m.table_size + 1) % 2 ^ 32;
  }

  absent : find_migration g.source m.migrations ≡ none
  absent =
      ap (λ f. find_migration f m.migrations) (sym source)
      ∙ unmoved-absent m (g.dest_frame ∷ []) g.pid g.page e v there still

  others : All (λ h. h.source ≢ g.source) m.migrations
  others =
      subst (Found (Moving m.config m.pages) g.source m.migrations) absent
        (find_migration-Found (Moving m.config m.pages) g.source m.migrations v.moving)

  started-Moving : (h : Migration) → Moving m.config m.pages h → Moving m.config started.pages h
  started-Moving h t = record {
    entry = t.entry;
    known = elim (Bool-cases (h.pid == g.pid && h.page == g.page)) [
      | inl same ↦ absurd (
          apart_bools (
            sym t.moving
            ∙ ap (λ (a : Page). a.is_migrating)
                (same_entry m.pages h.pid h.page g.pid g.page t.entry e same t.known there)
            ∙ still))
      | inr other ↦ set_page-other g.pid g.page e' m.pages h.pid h.page other ∙ t.known
    ];
    source = t.source;
    moving = t.moving;
    goes = t.goes;
    waits = t.waits;
    rolled = t.rolled;
  }

  started-owner :
      (f : ℕ) (o : Owner)
      → m.physical f ≡ some o
      → (a : Page) × (started.pages o.pid o.page ≡ some a) × (a.frame ≡ f)
  started-owner f o owns =
      let (a, at, same) = v.owner f o owns in
      elim (Bool-cases (o.pid == g.pid && o.page == g.page)) [
        | inl here ↦
            let one : a ≡ e = same_entry m.pages o.pid o.page g.pid g.page a e here at there in
            (e', if_true _ _ here, frame ∙ ap (λ (a : Page). a.frame) (sym one) ∙ same)
        | inr other ↦ (a, set_page-other g.pid g.page e' m.pages o.pid o.page other ∙ at, same)
      ]

  started-listed :
      (p w : ℕ) (a : Page)
      → started.pages p w ≡ some a
      → a.is_migrating ≡ true
      → (h : Migration) × (find_migration a.frame (g ∷ m.migrations) ≡ some h)
  unfolding find_migration
  started-listed p w a at moving = elim (set_page-cases g.pid g.page e' m.pages p w a at) [
    | inl (p_same, w_same, mine) ↦ (
      g,
      if_true {b = g.source == a.frame} _ _
          (ground (arith, ap (λ (a : Page). a.frame) mine, frame, source)),
    )
    | inr (other, before) ↦
        let (h, found) = v.listed p w a before moving in
        elim (Bool-cases (g.source == a.frame)) [
          | inl new ↦ (g, if_true _ _ new)
          | inr old ↦ (h, if_false _ _ old ∙ found)
        ]
  ]

  still_in_place : in_place m.config e' ≡ true
  still_in_place =
      ap (λ f. in_place m.config (record e' { frame = f })) frame
      ∙ ap (λ t. in_place m.config (record e { type = t })) type
      ∙ v.typed g.pid g.page e there

  pub started-IsValid : IsValid [] started
  unfolding count dests
  started-IsValid = record {
    conserved = λ x. omega (arith, v.conserved x);
    drams = v.drams;
    pcms = v.pcms;
    typed = λ p w a at. elim (set_page-cases g.pid g.page e' m.pages p w a at) [
      | inl (p_same, w_same, mine) ↦
          subst (λ (a : Page). in_place m.config a ≡ true) mine still_in_place
      | inr (other, before) ↦ v.typed p w a before
    ];
    owner = started-owner;
    known = λ p w a at. elim (set_page-cases g.pid g.page e' m.pages p w a at) [
      | inl (p_same, w_same, mine) ↦
          subst (λ (a : Page). m.physical a.frame ≡ some (record { pid = p; page = w })) mine
            (ap m.physical frame ∙ v.known g.pid g.page e there ∙ cc)
      | inr (other, before) ↦ v.known p w a before
    ];
    moving = (
      record {
        entry = e';
        known = set_page-here g.pid g.page e' m.pages;
        source = frame ∙ source;
        moving = moves;
        goes = goes;
        waits = waits;
        rolled = λ back. absurd (apart_bools (sym back ∙ fresh));
      },
      All-map started-Moving m.migrations v.moving,
    );
    apart = (others, v.apart);
    listed = started-listed;
    ready = λ p w a at stays. elim (set_page-cases g.pid g.page e' m.pages p w a at) [
      | inl (p_same, w_same, mine) ↦
          absurd (apart_bools (sym moves ∙ ap (λ (a : Page). a.is_migrating) mine ∙ stays))
      | inr (other, before) ↦ v.ready p w a before stays
    ];
    size = omega (arith, v.size);
  }
