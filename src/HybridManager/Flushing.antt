-- ===== src/HybridManager/Flushing.antt =====
-- Demotions, and the flushes of the last level cache before and after the copy of a page
-- (MemoryManager.cpp).
use hmmsim_server.Prelude.{
  ℕ, zero, suc, ◌+◌, Bool, true, false, ◌||◌, List, [], ◌∷◌, ◌++◌, Option, none, some, ltb,
  if◌then◌else◌, length,
}
use hmmsim_server.Prelude.Results.{Result, ok, asserted, assert, ◌>>=◌, ◌>>◌}
use hmmsim_server.Migration.Base.{pcm}
use hmmsim_server.HybridManager.{
  FlushPolicy, flush_pcm_before, flush_only_after, remap, change_tag, Page, Owner, Phase,
  flush_before, copying, flush_after, Migration, Config, Manager, Action, copy_page, roll_back,
  flush, get_address, is_dram_page, is_pcm_page, is_dram, is_pcm, take_frame, find_migration,
  revise_migration, set_pending, start_migration, count_migration, with_page,
}

abbrev pub Outcome : Type 0
Outcome = Result (Manager × List Action)

abbrev pub then_also : List Action → Outcome → Outcome
then_also acts o = do (m, more) ← o; ok (m, acts ++ more)

abbrev pub is_flushing : Phase → Bool
is_flushing flush_before = true
is_flushing copying = false
is_flushing flush_after = true

-- The addresses of the blocks of a frame from an offset on. A block of some bytes leaves fewer rounds than a
-- page has bytes.
unfoldable pub addresses : ℕ → Config → ℕ → ℕ → List (ℕ × Bool)
addresses zero c f offset = []
addresses (suc fuel) c f offset =
    let rest = addresses fuel c f (offset + c.block_size) in
    if ltb offset c.page_size then (get_address c f offset, false) ∷ rest else []

-- The flushes that may start, in order, while fewer than the most are under way.
unfoldable pub start_flushes : ℕ → ℕ → List (ℕ × Bool) → ℕ × List (ℕ × Bool) × List Action
start_flushes most n [] = (n, [], [])
start_flushes most n ((a, started) ∷ q) =
    let (n', q', acts) = start_flushes most (if started then n else n + 1) q in
    if ltb n most
    then (n', (a, true) ∷ q', if started then acts else flush a ∷ acts)
    else (n, (a, started) ∷ q, [])

abbrev pub run_flushes : Manager → Manager × List Action
run_flushes m =
    let (n, q, acts) =
      start_flushes m.config.max_flush_queue_size m.flush_queue_size m.flush_queue in
    (record m { flush_queue_size = n; flush_queue = q }, acts)

unfoldable pub flush_page : ℕ → Manager → Outcome
flush_page f m = do
  g ← asserted (find_migration f m.migrations)
  assert (is_flushing g.phase)
  let blocks = addresses m.config.page_size m.config f 0
  ok (
      run_flushes (record m {
        flush_queue = m.flush_queue ++ blocks;
        pending =
            set_pending f (record (m.pending f) { flushes = (m.pending f).flushes + length blocks })
              m.pending;
      }))

-- A demotion of a page in DRAM begins, before its blocks are flushed.
abbrev pub first_phase : FlushPolicy → Phase
first_phase flush_pcm_before = flush_before
first_phase flush_only_after = copying
first_phase remap = copying
first_phase change_tag = copying

abbrev pub after_start : Phase → Migration → Manager → Outcome
after_start flush_before g m = flush_page g.source m
after_start copying g m = ok (m, copy_page g.source g.dest_frame ∷ [])
after_start flush_after g m = ok (m, [])

abbrev pub demotion : ℕ → ℕ → Page → ℕ → Phase → Migration
demotion pid page e f phase = record {
  source = e.frame;
  pid = pid;
  page = page;
  dest_frame = f;
  dest = pcm;
  phase = phase;
  rolled_back = false;
  needs_copying = false;
}

abbrev pub demote : ℕ → ℕ → Page → Manager → Outcome
demote pid page e m = do
  assert (is_dram_page m.config e.frame)
  assert (is_dram e.type)
  let phase = first_phase m.config.flush_policy
  let moving = record e {
    is_migrating = true;
    stall_on_access = is_flushing phase || e.stall_on_access;
  }
  (f, m') ← take_frame pcm (with_page pid page moving m)
  let g = demotion pid page e f phase
  m'' ← start_migration g m'
  after_start phase g (count_migration m'')

-- The migration of the page to DRAM is under way, and is rolled back.
abbrev pub roll_back_copy : Phase → ℕ → List Action
roll_back_copy copying f = roll_back f ∷ []
roll_back_copy flush_before f = []
roll_back_copy flush_after f = []

abbrev pub undo : Page → Manager → Outcome
undo e m = do
  assert (is_pcm_page m.config e.frame)
  assert (is_pcm e.type)
  g ← asserted (find_migration e.frame m.migrations)
  ok (
    record m {
      migrations = revise_migration (λ g. record g { rolled_back = true }) e.frame m.migrations;
    },
    roll_back_copy g.phase e.frame,
  )

abbrev pub demote_or_undo : ℕ → ℕ → Page → Manager → Outcome
demote_or_undo pid page e m = if e.is_migrating then undo e m else demote pid page e m

-- With the page that the policy asks to demote, if it is asked and names one.
abbrev pub demote_chosen : Option Owner → Manager → Result (Bool × Manager × List Action)
demote_chosen none m = ok (false, m, [])
demote_chosen (some o) m = do
  e ← asserted (m.pages o.pid o.page)
  (m', acts) ← demote_or_undo o.pid o.page e m
  ok (true, m', acts)

unfoldable pub start_demotion : Option Owner → Manager → Result (Bool × Manager × List Action)
start_demotion chosen m =
    if ltb m.table_size m.config.max_table_size then demote_chosen chosen m else ok (false, m, [])
