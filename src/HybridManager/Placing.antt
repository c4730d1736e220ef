-- ===== src/HybridManager/Placing.antt =====
-- An access of a `HybridMemoryManager` (MemoryManager.cpp), and the frame that a new page gets.
use hmmsim_server.Prelude.{
  ℕ, ◌≡◌, ◌≢◌, refl, sym, ap, ◌∙◌, Bool, true, ◌&&◌, List, [], ◌∷◌, Option, none, some, ◌==◌,
  if◌then◌else◌, All, All-map, Bool-cases, inl, inr, arith, if_true, if_false,
}
use mathlib.Core.Path.{subst}
use hmmsim_server.Prelude.Results.{Result, ok, assert_pass, ◌>>=◌}
use hmmsim_server.Migration.Base.{PageType, dram, pcm, invalid}
use hmmsim_server.HybridManager.{
  Page, Owner, Manager, is_dram_page, is_pcm_page, in_place, set_page, set_owner, new_page, place,
  entry_of, add_cpu, answer, access, get_index, get_offset, get_address,
}
use hmmsim_server.HybridManager.Frames.{
  count, owned, IsValid, spare-free, set_page-cases, set_page-here, set_page-other, set_owner-cases,
  set_owner-here, set_owner-other, some_inj,
}

-- The first free frame is taken off its list.
pub take_dram-IsValid :
    (m : Manager) (f : ℕ) (fs : List ℕ)
    → IsValid [] m
    → m.free_dram ≡ f ∷ fs
    → IsValid (f ∷ []) (record m { free_dram = fs }) × (is_dram_page m.config f ≡ true)
unfolding count
take_dram-IsValid m f fs v here =
    let all = subst (All (λ f. is_dram_page m.config f ≡ true)) here v.drams in
    (
      record {
        conserved = λ x. omega (arith, v.conserved x, ap (count x) here);
        drams = all.1;
        pcms = v.pcms;
        typed = v.typed;
        owner = v.owner;
        known = v.known;
        moving = v.moving;
        apart = v.apart;
        listed = v.listed;
        ready = v.ready;
        size = v.size;
      },
      all.0,
    )

pub take_pcm-IsValid :
    (m : Manager) (f : ℕ) (fs : List ℕ)
    → IsValid [] m
    → m.free_pcm ≡ f ∷ fs
    → IsValid (f ∷ []) (record m { free_pcm = fs }) × (is_pcm_page m.config f ≡ true)
unfolding count
take_pcm-IsValid m f fs v here =
    let all = subst (All (λ f. is_pcm_page m.config f ≡ true)) here v.pcms in
    (
      record {
        conserved = λ x. omega (arith, v.conserved x, ap (count x) here);
        drams = v.drams;
        pcms = all.1;
        typed = v.typed;
        owner = v.owner;
        known = v.known;
        moving = v.moving;
        apart = v.apart;
        listed = v.listed;
        ready = v.ready;
        size = v.size;
      },
      all.0,
    )

pub taken_apart {ℓ} : {A : Type ℓ} {o : Option A} {a : A} → o ≡ some a → o ≡ none → ⊥
taken_apart h g = cc

module _ (m : Manager) (f pid page : ℕ) (type : PageType) (v : IsValid (f ∷ []) m)
    (new : m.pages pid page ≡ none) (fits : in_place m.config (new_page f type) ≡ true) where
  abbrev placed : Manager
  placed = record m {
    physical = set_owner f (some (record { pid = pid; page = page })) m.physical;
    pages = set_page pid page (new_page f type) m.pages;
  }

  -- The entries that were there are not the new one.
  old-kept : (p w : ℕ) (e : Page) → m.pages p w ≡ some e → placed.pages p w ≡ some e
  old-kept p w e there = elim (Bool-cases (p == pid && w == page)) [
    | inl same ↦ let p_same : p ≡ pid = ground arith in let w_same : w ≡ page = ground arith in cc
    | inr other ↦ set_page-other pid page (new_page f type) m.pages p w other ∙ there
  ]

  placed-owner :
      (g : ℕ) (o : Owner)
      → placed.physical g ≡ some o
      → (e : Page) × (placed.pages o.pid o.page ≡ some e) × (e.frame ≡ g)
  placed-owner g o there =
      elim (set_owner-cases f (some (record { pid = pid; page = page })) m.physical g o there) [
        | inl (here, mine) ↦
            subst (λ (o : Owner). (e : Page) × (placed.pages o.pid o.page ≡ some e) × (e.frame ≡ g))
              (some_inj mine)
              (new_page f type, set_page-here pid page (new_page f type) m.pages, sym here)
        | inr (other, before) ↦
            let (e, at, same) = v.owner g o before in (e, old-kept o.pid o.page e at, same)
      ]

  placed-known :
      (p w : ℕ) (e : Page)
      → placed.pages p w ≡ some e
      → placed.physical e.frame ≡ some (record { pid = p; page = w })
  placed-known p w e there = elim (set_page-cases pid page (new_page f type) m.pages p w e there) [
    | inl (p_same, w_same, mine) ↦
        subst (λ (e : Page). placed.physical e.frame ≡ some (record { pid = p; page = w })) mine
          (set_owner-here f (some (record { pid = pid; page = page })) m.physical ∙ cc)
    | inr (other, before) ↦
        let elsewhere : e.frame ≢ f =
          λ same. taken_apart (v.known p w e before) (ap m.physical same ∙ spare-free m f v) in
        set_owner-other f (some (record { pid = pid; page = page })) m.physical e.frame elsewhere
        ∙ v.known p w e before
  ]

  nobodys : (x : ℕ) → x ≡ f → owned (m.physical x) ≡ 0
  nobodys x same = ap owned (ap m.physical same ∙ spare-free m f v)

  pub placed-IsValid : IsValid [] placed
  unfolding count
  placed-IsValid = record {
    conserved = λ x. ground (arith, v.conserved x, nobodys x);
    drams = v.drams;
    pcms = v.pcms;
    typed = λ p w e there. elim (set_page-cases pid page (new_page f type) m.pages p w e there) [
      | inl (p_same, w_same, mine) ↦ subst (λ e. in_place m.config e ≡ true) mine fits
      | inr (other, before) ↦ v.typed p w e before
    ];
    owner = placed-owner;
    known = placed-known;
    moving =
        All-map
          (λ g. λ t. record {
            entry = t.entry;
            known = old-kept g.pid g.page t.entry t.known;
            source = t.source;
            moving = t.moving;
            goes = t.goes;
            waits = t.waits;
            rolled = t.rolled;
          })
          m.migrations v.moving;
    apart = v.apart;
    listed = λ p w e there moves.
        elim (set_page-cases pid page (new_page f type) m.pages p w e there) [
          | inl (p_same, w_same, mine) ↦ cc
          | inr (other, before) ↦ v.listed p w e before moves
        ];
    ready = λ p w e there still.
        elim (set_page-cases pid page (new_page f type) m.pages p w e there) [
          | inl (p_same, w_same, mine) ↦ ap (λ (e : Page). e.stall_on_access) (sym mine)
          | inr (other, before) ↦ v.ready p w e before still
        ];
    size = v.size;
  }

-- The policy chooses a memory that has a free frame.
abbrev pub Granted : PageType → Manager → Type 0
Granted dram m = (f : ℕ) × (fs : List ℕ) × (m.free_dram ≡ f ∷ fs)
Granted pcm m = (f : ℕ) × (fs : List ℕ) × (m.free_pcm ≡ f ∷ fs)
Granted invalid m = ⊥

-- The entry that a page has, or else the new one.
abbrev pub entry_or : Option Page → Page → Page
entry_or none n = n
entry_or (some e) n = e

-- Who waits, and whether a demotion is under way, does not matter.
pub stalled-IsValid :
    (m : Manager) (s : ℕ → ℕ → List ℕ) (d : Bool)
    → IsValid [] m
    → IsValid [] (record m { stalled_cpus = s; demoting = d })
stalled-IsValid m s d v = record {
  conserved = v.conserved;
  drams = v.drams;
  pcms = v.pcms;
  typed = v.typed;
  owner = v.owner;
  known = v.known;
  moving = v.moving;
  apart = v.apart;
  listed = v.listed;
  ready = v.ready;
  size = v.size;
}

module _ (m : Manager) (pid page : ℕ) (v : IsValid [] m) where
  -- The page has an entry, in a valid state that may differ in that only.
  abbrev Entered : PageType → Result (Page × Manager) → Type 0
  Entered type run =
      (e : Page) × (m' : Manager) × (run ≡ ok (e, m'))
      × IsValid [] m'
      × (m'.pages pid page ≡ some e)
      × (m'.config ≡ m.config)
      × ((f : ℕ) × (e ≡ entry_or (m.pages pid page) (new_page f type)))

  place-Entered :
      (type : PageType)
      → m.pages pid page ≡ none
      → Granted type m
      → Entered type (place pid page type m)
  place-Entered dram new (f, fs, here) =
      let (w, fits) = take_dram-IsValid m f fs v here in
      let free = spare-free (record m { free_dram = fs }) f w in
      let placed-valid =
        placed-IsValid (record m { free_dram = fs }) f pid page dram w new (ground arith) in
      (
        new_page f dram,
        placed (record m { free_dram = fs }) f pid page dram w new (ground arith),
        rw (here, free) refl,
        placed-valid,
        set_page-here pid page (new_page f dram) m.pages,
        refl,
        (f, ap (λ o. entry_or o (new_page f dram)) (sym new)),
      )
  place-Entered pcm new (f, fs, here) =
      let (w, fits) = take_pcm-IsValid m f fs v here in
      let free = spare-free (record m { free_pcm = fs }) f w in
      let placed-valid =
        placed-IsValid (record m { free_pcm = fs }) f pid page pcm w new (ground arith) in
      (
        new_page f pcm,
        placed (record m { free_pcm = fs }) f pid page pcm w new (ground arith),
        rw (here, free) refl,
        placed-valid,
        set_page-here pid page (new_page f pcm) m.pages,
        refl,
        (f, ap (λ o. entry_or o (new_page f pcm)) (sym new)),
      )
  place-Entered invalid new granted = absurd granted

  entry_of-Entered :
      (o : Option Page) (type : PageType)
      → m.pages pid page ≡ o
      → (o ≡ none → Granted type m)
      → Entered type (entry_of o pid page type m)
  entry_of-Entered none type new granted = place-Entered type new (granted refl)
  entry_of-Entered (some e) type there granted =
      (e, m, refl, v, there, refl, (0, ap (λ o. entry_or o (new_page 0 type)) (sym there)))

module _ (m : Manager) (pid addr cpu : ℕ) (type : PageType) (v : IsValid [] m) where
  -- Where the tables and the frames are in step, and a page that is new is given a type that has a free frame, an
  -- access fails no assertion and leaves them in step. The page then has an entry, the one that it had, or
  -- a new one of that type. The processor has to wait exactly if the entry says so, and otherwise gets the address in
  -- the frame of the page.
  pub access-IsValid :
      (m.pages pid (get_index m.config addr) ≡ none → Granted type m)
      → (r : Option ℕ) × (m' : Manager) × (access pid addr cpu type m ≡ ok (r, m'))
        × IsValid [] m'
        × (e : Page) × (m'.pages pid (get_index m.config addr) ≡ some e)
        × ((f : ℕ) × (e ≡ entry_or (m.pages pid (get_index m.config addr)) (new_page f type)))
        × (r ≡ (
            if e.stall_on_access
            then none
            else some (get_address m.config e.frame (get_offset m.config addr))))
  unfolding access
  access-IsValid granted =
      let page = get_index m.config addr in
      let (e, m', run, v', there, same_config, old) =
        entry_of-Entered m pid page v (m.pages pid page) type refl granted in
      let passes = v'.typed pid page e there in
      elim (Bool-cases e.stall_on_access) [
        | inl stalls ↦ (
          none,
          record m' { stalled_cpus = add_cpu pid (get_index m'.config addr) cpu m'.stalled_cpus },
          ap (λ x. x >>= answer pid addr cpu) run ∙ assert_pass _ passes ∙ if_true _ _ stalls,
          stalled-IsValid m' (add_cpu pid (get_index m'.config addr) cpu m'.stalled_cpus)
              m'.demoting v',
          e,
          there,
          old,
          sym (if_true _ _ stalls),
        )
        | inr goes ↦ (
          some (get_address m'.config e.frame (get_offset m'.config addr)),
          m',
          ap (λ x. x >>= answer pid addr cpu) run ∙ assert_pass _ passes ∙ if_false _ _ goes,
          v',
          e,
          there,
          old,
          ap (λ c. some (get_address c e.frame (get_offset c addr))) same_config
              ∙ sym (if_false _ _ goes),
        )
      ]
