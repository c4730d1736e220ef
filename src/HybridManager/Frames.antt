-- ===== src/HybridManager/Frames.antt =====
-- What holds of the frames between the calls of a `HybridMemoryManager` (MemoryManager.cpp).
use hmmsim_server.Prelude.{
  ℕ, suc, ◌+◌, ◌%◌, ◌^◌, ◌≡◌, ◌≢◌, sym, ap, ◌∙◌, true, false, ◌&&◌, List, [], ◌∷◌, Option, none,
  some, ltb, ◌==◌, if◌then◌else◌, All, Bool-cases, Option-cases, inl, inr, ◌⊎◌, arith, if_true,
  if_false,
}
use hmmsim_server.Migration.Base.{PageType, dram, pcm, invalid}
use hmmsim_server.HybridManager.Flushing.{is_flushing}
use hmmsim_server.HybridManager.{
  Page, Owner, Migration, Config, Manager, is_dram_page, is_pcm_page, in_place, set_page, set_owner,
  find_migration,
}

unfoldable pub count : ℕ → List ℕ → ℕ
count x [] = 0
count x (f ∷ fs) = (if x == f then 1 else 0) + count x fs

-- The migrations that go to a frame.
unfoldable pub dests : ℕ → List Migration → ℕ
dests x [] = 0
dests x (g ∷ gs) = (if x == g.dest_frame then 1 else 0) + dests x gs

abbrev pub owned : Option Owner → ℕ
owned none = 0
owned (some o) = 1

abbrev pub frames : Config → ℕ → ℕ
frames c x = if ltb x (c.num_dram_pages + c.num_pcm_pages) then 1 else 0

-- A migration between the two memories, of a page that knows of it, and that may not be accessed while it is
-- flushed from the caches. Only a migration to DRAM is rolled back.
abbrev pub GoesTo : Config → Migration → PageType → Type 0
GoesTo c g dram = (is_dram_page c g.dest_frame ≡ true) × (is_pcm_page c g.source ≡ true)
GoesTo c g pcm = (is_pcm_page c g.dest_frame ≡ true) × (is_dram_page c g.source ≡ true)
GoesTo c g invalid = ⊥

pub record Moving (c : Config) (pages : ℕ → ℕ → Option Page) (g : Migration) : Type 0 where
  pub entry : Page
  pub known : pages g.pid g.page ≡ some entry
  pub source : entry.frame ≡ g.source
  pub moving : entry.is_migrating ≡ true
  pub goes : GoesTo c g g.dest
  pub waits : entry.stall_on_access ≡ is_flushing g.phase
  pub rolled : g.rolled_back ≡ true → g.dest ≡ dram

-- No two migrations leave one frame.
abbrev pub Apart : List Migration → Type 0
Apart [] = Unit
Apart (g ∷ gs) = All (λ h. h.source ≢ g.source) gs × Apart gs

abbrev pub number : List Migration → ℕ
number [] = 0
number (g ∷ gs) = suc (number gs)

-- Each frame is free, or a page's, or spare for the moment, or set aside for a migration, and no two of these. The tables of pages and of
-- frames agree, and a page is marked as migrating if there is a migration of it.
pub record IsValid (spare : List ℕ) (m : Manager) : Type 0 where
  pub conserved :
      (x : ℕ)
      → count x m.free_dram
          + count x m.free_pcm
          + owned (m.physical x)
          + dests x m.migrations
          + count x spare
        ≡ frames m.config x
  pub drams : All (λ f. is_dram_page m.config f ≡ true) m.free_dram
  pub pcms : All (λ f. is_pcm_page m.config f ≡ true) m.free_pcm
  pub typed : (p v : ℕ) (e : Page) → m.pages p v ≡ some e → in_place m.config e ≡ true
  pub owner :
      (f : ℕ) (o : Owner)
      → m.physical f ≡ some o
      → (e : Page) × (m.pages o.pid o.page ≡ some e) × (e.frame ≡ f)
  pub known :
      (p v : ℕ) (e : Page)
      → m.pages p v ≡ some e
      → m.physical e.frame ≡ some (record { pid = p; page = v })
  pub moving : All (Moving m.config m.pages) m.migrations
  pub apart : Apart m.migrations
  pub listed :
      (p v : ℕ) (e : Page)
      → m.pages p v ≡ some e
      → e.is_migrating ≡ true
      → (g : Migration) × (find_migration e.frame m.migrations ≡ some g)
  pub ready :
      (p v : ℕ) (e : Page)
      → m.pages p v ≡ some e
      → e.is_migrating ≡ false
      → e.stall_on_access ≡ false
  pub size : m.table_size ≡ number m.migrations % 2 ^ 32

-- A spare frame is no page's.
pub spare-free : (m : Manager) (f : ℕ) → IsValid (f ∷ []) m → m.physical f ≡ none
unfolding count
spare-free m f v = elim (Option-cases (m.physical f)) [
  | inl free ↦ free
  | inr (o, there) ↦ absurd (ground (arith, v.conserved f, ap owned there))
]

pub some_inj {ℓ} : {A : Type ℓ} {a a' : A} → some a ≡ some a' → a ≡ a'
some_inj h = cc

-- What an entry of a table is, after one is set.
pub set_page-cases :
    (pid page : ℕ) (n : Page) (pages : ℕ → ℕ → Option Page) (p v : ℕ) (e : Page)
    → set_page pid page n pages p v ≡ some e
    → ((p ≡ pid) × (v ≡ page) × (n ≡ e))
      ⊎ (((p == pid && v == page) ≡ false) × (pages p v ≡ some e))
set_page-cases pid page n pages p v e h = elim (Bool-cases (p == pid && v == page)) [
  | inl here ↦ inl (ground arith, ground arith, some_inj (sym (if_true _ _ here) ∙ h))
  | inr other ↦ inr (other, sym (if_false _ _ other) ∙ h)
]

pub set_page-here :
    (pid page : ℕ) (n : Page) (pages : ℕ → ℕ → Option Page)
    → set_page pid page n pages pid page ≡ some n
set_page-here pid page n pages = if_true {b = pid == pid && page == page} _ _ (ground arith)

pub set_page-other :
    (pid page : ℕ) (n : Page) (pages : ℕ → ℕ → Option Page) (p v : ℕ)
    → (p == pid && v == page) ≡ false
    → set_page pid page n pages p v ≡ pages p v
set_page-other pid page n pages p v other = if_false _ _ other

pub set_owner-cases :
    (f : ℕ) (o : Option Owner) (physical : ℕ → Option Owner) (g : ℕ) (a : Owner)
    → set_owner f o physical g ≡ some a
    → ((g ≡ f) × (o ≡ some a)) ⊎ ((g ≢ f) × (physical g ≡ some a))
set_owner-cases f o physical g a h = elim (Bool-cases (g == f)) [
  | inl here ↦ inl (ground arith, sym (if_true _ _ here) ∙ h)
  | inr other ↦ inr (ground arith, sym (if_false _ _ other) ∙ h)
]

pub set_owner-here :
    (f : ℕ) (o : Option Owner) (physical : ℕ → Option Owner) → set_owner f o physical f ≡ o
set_owner-here f o physical = if_true {b = f == f} _ _ (ground arith)

pub set_owner-other :
    (f : ℕ) (o : Option Owner) (physical : ℕ → Option Owner) (g : ℕ)
    → g ≢ f
    → set_owner f o physical g ≡ physical g
set_owner-other f o physical g other = if_false {b = g == f} _ _ (ground arith)
