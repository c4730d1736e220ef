-- ===== src/HybridManager/Demotion.antt =====
-- `startDemotion` (MemoryManager.cpp), of a page in DRAM that is not migrating.
use hmmsim_server.Prelude.{
  ℕ, ◌+◌, ◌≡◌, refl, Bool, true, false, ◌||◌, List, [], ◌∷◌, ◌++◌, some, ltb, ◌==◌, length, arith,
  if_true,
}
use hmmsim_server.Prelude.Results.{ok}
use hmmsim_server.Migration.Base.{pcm}
use hmmsim_server.HybridManager.{
  Page, Owner, Phase, flush_before, copying, flush_after, Migration, Pending, Manager, Action,
  is_dram_page, is_dram, find_migration, set_pending,
}
use hmmsim_server.HybridManager.Flushing.{
  Outcome, is_flushing, addresses, run_flushes, flush_page, first_phase, after_start, demotion,
  start_demotion,
}
use hmmsim_server.HybridManager.Frames.{IsValid, GoesTo, set_page-here}
use hmmsim_server.HybridManager.Placing.{take_pcm-IsValid}
use hmmsim_server.HybridManager.Starting.{unmoved-absent, started, started-IsValid}

-- What is to be flushed does not matter for the frames.
pub flushed-IsValid :
    (m : Manager) (q : List (ℕ × Bool)) (n : ℕ) (pending : ℕ → Pending)
    → IsValid [] m
    → IsValid [] (record m { flush_queue = q; flush_queue_size = n; pending = pending })
flushed-IsValid m q n pending v = record {
  conserved = v.conserved;
  drams = v.drams;
  pcms = v.pcms;
  typed = v.typed;
  owner = v.owner;
  known = v.known;
  moving = v.moving;
  apart = v.apart;
  listed = v.listed;
  ready = v.ready;
  size = v.size;
}

-- The page is being moved from where it is to a frame, and may not be accessed if its blocks are flushed first.
pub record Demotes (o : Owner) (e : Page) (d : ℕ) (phase : Phase) (m : Manager) : Type 0 where
  pub valid : IsValid [] m
  pub listed : find_migration e.frame m.migrations ≡ some (demotion o.pid o.page e d phase)
  pub page : Page
  pub known : m.pages o.pid o.page ≡ some page
  pub frame : page.frame ≡ e.frame
  pub moving : page.is_migrating ≡ true
  pub waits : page.stall_on_access ≡ is_flushing phase

module _ (m : Manager) (o : Owner) (e : Page) (d : ℕ) (ds : List ℕ) (v : IsValid [] m)
    (there : m.pages o.pid o.page ≡ some e) (in_dram : is_dram e.type ≡ true)
    (still : e.is_migrating ≡ false) (room : ltb m.table_size m.config.max_table_size ≡ true)
    (here : m.free_pcm ≡ d ∷ ds) where
  abbrev Begun : Phase → Outcome → Type 0
  Begun phase run =
      (m' : Manager) × (acts : List Action) × (run ≡ ok (m', acts)) × Demotes o e d phase m'

  -- With the blocks of the frame that the page leaves.
  abbrev with_flushes : Manager → Manager
  with_flushes s =
      let blocks = addresses s.config.page_size s.config e.frame 0 in
      record s {
        flush_queue = s.flush_queue ++ blocks;
        pending =
            set_pending e.frame
              (record (s.pending e.frame) { flushes = (s.pending e.frame).flushes + length blocks })
              s.pending;
      }

  after_start-Demotes :
      (phase : Phase) (s : Manager)
      → Demotes o e d phase s
      → Begun phase (after_start phase (demotion o.pid o.page e d phase) s)
  unfolding flush_page
  after_start-Demotes flush_before s t = (
    (run_flushes (with_flushes s)).0,
    (run_flushes (with_flushes s)).1,
    rw (t.listed) refl,
    record {
      valid = flushed-IsValid s _ _ _ t.valid;
      listed = t.listed;
      page = t.page;
      known = t.known;
      frame = t.frame;
      moving = t.moving;
      waits = t.waits;
    },
  )
  after_start-Demotes copying s t = (s, _, refl, t)
  after_start-Demotes flush_after s t = (s, _, refl, t)

  ready : e.stall_on_access ≡ false
  ready = v.ready o.pid o.page e there still

  dram_frame : is_dram_page m.config e.frame ≡ true
  dram_frame = ground (arith, v.typed o.pid o.page e there, in_dram)

  abbrev phase : Phase
  phase = first_phase m.config.flush_policy

  abbrev marked : Page
  marked = record e {
    is_migrating = true;
    stall_on_access = is_flushing phase || e.stall_on_access;
  }

  abbrev to_pcm : Migration
  to_pcm = demotion o.pid o.page e d phase

  abbrev taken : Manager
  taken = record m { free_pcm = ds }

  waits : (is_flushing phase || e.stall_on_access) ≡ is_flushing phase
  waits = ground (arith, ready)

  goes : GoesTo m.config to_pcm pcm
  goes = ((take_pcm-IsValid m d ds v here).1, dram_frame)

  valid : IsValid (d ∷ []) taken
  valid = (take_pcm-IsValid m d ds v here).0

  abbrev begun : Manager
  begun = started taken e marked to_pcm valid there still refl refl refl refl goes waits refl

  begun-Demotes : Demotes o e d phase begun
  unfolding find_migration
  begun-Demotes = record {
    valid =
        started-IsValid taken e marked to_pcm valid there still refl refl refl refl goes waits refl;
    listed = if_true {b = e.frame == e.frame} _ _ (ground arith);
    page = marked;
    known = set_page-here o.pid o.page marked m.pages;
    frame = refl;
    moving = refl;
    waits = waits;
  }

  -- Where the tables and the frames are in step, the demotion that a policy asks for, of a page in DRAM that is
  -- not migrating, fails no assertion if the table of migrations has room and PCM a free frame, and
  -- leaves them in step. The page is then being moved to that frame, and has to wait for its flush exactly
  -- if the flush comes before the copy.
  pub start_demotion-Demotes :
      (m' : Manager) × (acts : List Action) × (start_demotion (some o) m ≡ ok (true, m', acts))
      × Demotes o e d phase m'
  unfolding start_demotion
  start_demotion-Demotes =
      let absent = unmoved-absent m [] o.pid o.page e v there still in
      let (m', acts, run, t) = after_start-Demotes phase begun begun-Demotes in
      (m', acts, rw (room, there, still, dram_frame, in_dram, here, absent, run) refl, t)
