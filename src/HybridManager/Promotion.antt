-- ===== src/HybridManager/Promotion.antt =====
-- `migrateOnDemand` (MemoryManager.cpp): the memory asks for a page in PCM to be copied to DRAM.
use hmmsim_server.Prelude.{
  ℕ, ◌≡◌, refl, sym, ap, ◌∙◌, Bool, true, false, ◌&&◌, not, List, [], ◌∷◌, Option, none, some, ltb,
  ◌==◌, if◌then◌else◌, Bool-cases, inl, inr, ◌⊎◌, arith, if_true, if_false,
}
use hmmsim_server.Prelude.Results.{Result, ok}
use hmmsim_server.Migration.Base.{dram}
use hmmsim_server.HybridManager.{
  Page, Owner, Migration, Manager, is_dram_page, is_pcm_page, is_pcm, find_migration, is_empty,
  migrate_on_demand, promote, promote_owned, copying,
}
use hmmsim_server.HybridManager.Frames.{IsValid, GoesTo, set_page-here, spare-free}
use hmmsim_server.HybridManager.Placing.{take_dram-IsValid}
use hmmsim_server.HybridManager.Starting.{unmoved-absent, started, started-IsValid}

abbrev pub is_some {ℓ} : {A : Type ℓ} → Option A → Bool
is_some none = false
is_some (some a) = true

List-cases {ℓ} : {A : Type ℓ} (xs : List A) → (xs ≡ []) ⊎ ((x : A) × (ys : List A) × (xs ≡ x ∷ ys))
List-cases [] = inl refl
List-cases (x ∷ ys) = inr (x, ys, refl)

-- What the memory is told: no, or a frame of DRAM that was free, to which the page is being moved.
abbrev pub Promotes : ℕ → Owner → Manager → Option ℕ → Manager → Type 0
Promotes f o m none m' = m' ≡ m
Promotes f o m (some d) m' =
    (is_dram_page m.config d ≡ true)
    × (m.physical d ≡ none)
    × ((g : Migration) × (find_migration f m'.migrations ≡ some g) × (g.dest_frame ≡ d))
    × ((e : Page) × (m'.pages o.pid o.page ≡ some e) × (e.frame ≡ f) × (e.is_migrating ≡ true))

module _ (granted : Bool) (f : ℕ) (m : Manager) (o : Owner) (e : Page) (v : IsValid [] m)
    (owns : m.physical f ≡ some o) (there : m.pages o.pid o.page ≡ some e) (frame : e.frame ≡ f)
    (in_pcm : is_pcm_page m.config f ≡ true) where
  abbrev Outcome : Result (Option ℕ × Manager) → Bool → Type 0
  Outcome run given =
      (r : Option ℕ) × (m' : Manager) × (run ≡ ok (r, m'))
      × (is_some r ≡ given)
      × IsValid [] m'
      × Promotes f o m r m'

  abbrev migration_to : ℕ → Migration
  migration_to d = record {
    source = e.frame;
    pid = o.pid;
    page = o.page;
    dest_frame = d;
    dest = dram;
    phase = copying;
    rolled_back = false;
    needs_copying = false;
  }

  abbrev marked : Page
  marked = record e { is_migrating = true }

  promote-Outcome :
      (d : ℕ) (ds : List ℕ)
      → m.free_dram ≡ d ∷ ds
      → e.is_migrating ≡ false
      → Outcome (promote o e m) true
  unfolding find_migration
  promote-Outcome d ds here still =
      let (w, in_dram) = take_dram-IsValid m d ds v here in
      let m₁ = record m { free_dram = ds } in
      let absent = unmoved-absent m [] o.pid o.page e v there still in
      let goes : GoesTo m.config (migration_to d) dram =
        (in_dram, ap (is_pcm_page m.config) frame ∙ in_pcm) in
      (
        some d,
        started m₁ e marked (migration_to d) w there still refl refl refl refl goes
            (v.ready o.pid o.page e there still) refl,
        rw (here, absent) refl,
        refl,
        started-IsValid m₁ e marked (migration_to d) w there still refl refl refl refl goes
            (v.ready o.pid o.page e there still) refl,
        (
          in_dram,
          spare-free m₁ d w,
          (migration_to d, if_true {b = e.frame == f} _ _ (ground (arith, frame)), refl),
          (marked, set_page-here o.pid o.page marked m.pages, frame, refl),
        ),
      )

  -- A page of the type of its frame.
  pcm_type : is_pcm e.type ≡ true
  pcm_type = ground (arith, v.typed o.pid o.page e there, frame, in_pcm)

  abbrev wanted : Bool
  wanted = not e.is_migrating && (ltb m.table_size m.config.max_table_size && granted)

  owned_as : promote_owned granted f m ≡ (if wanted then promote o e m else ok (none, m))
  owned_as =
      let pcm_frame : is_pcm_page m.config e.frame ≡ true =
        ap (is_pcm_page m.config) frame ∙ in_pcm in
      rw (owns, there, pcm_frame, pcm_type) refl

  -- Where the tables and the frames are in step, a request for a page in PCM fails no assertion and leaves them in
  -- step. It is granted exactly if DRAM has a free frame, the page is not migrating, the table has room
  -- and the policy agrees. Then the page is being moved to a frame of DRAM that was free; otherwise
  -- nothing changes.
  pub migrate_on_demand-Promotes :
      (r : Option ℕ) × (m' : Manager) × (migrate_on_demand granted f m ≡ ok (r, m'))
      × (is_some r ≡ (
          not (is_empty m.free_dram)
          && (not e.is_migrating && (ltb m.table_size m.config.max_table_size && granted))))
      × IsValid [] m'
      × Promotes f o m r m'
  unfolding migrate_on_demand
  migrate_on_demand-Promotes = elim (List-cases m.free_dram) [
    | inl empty ↦ (
      none,
      m,
      if_true {b = is_empty m.free_dram} _ _ (ap is_empty empty),
      ap (λ (fs : List ℕ). not (is_empty fs) && wanted) (sym empty),
      v,
      refl,
    )
    | inr (d, ds, here) ↦
        let owned : migrate_on_demand granted f m
            ≡ (if wanted then promote o e m else ok (none, m)) =
          if_false {b = is_empty m.free_dram} _ _ (ap is_empty here) ∙ owned_as in
        let given : (not (is_empty m.free_dram) && wanted) ≡ wanted =
          ap (λ (fs : List ℕ). not (is_empty fs) && wanted) here in
        elim (Bool-cases wanted) [
          | inl agreed ↦
              let (r, m', run, some_frame, v', goes) = promote-Outcome d ds here (ground arith) in
              (r, m', owned ∙ if_true _ _ agreed ∙ run, some_frame ∙ sym (given ∙ agreed), v', goes)
          | inr refused ↦ (none, m, owned ∙ if_false _ _ refused, sym (given ∙ refused), v, refl)
        ]
  ]
