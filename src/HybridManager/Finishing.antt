-- ===== src/HybridManager/Finishing.antt =====
-- What comes after the flushes and the copies of a migration (MemoryManager.cpp): `finishFlushing` and
-- `copyCompleted`.
use hmmsim_server.Prelude.{
  ℕ, ◌+◌, ◌%◌, ◌^◌, Bool, true, false, ◌&&◌, not, List, [], ◌∷◌, ◌++◌, none, ◌==◌, if◌then◌else◌,
  length,
}
use hmmsim_server.Prelude.Results.{Result, ok, fault, assertion, asserted, assert, ◌>>=◌, ◌>>◌}
use hmmsim_server.Migration.Base.{PageType, dram, pcm, invalid}
use hmmsim_server.HybridManager.{
  FlushPolicy, flush_pcm_before, flush_only_after, remap, change_tag, Page, Phase, flush_before,
  copying, flush_after, Migration, Manager, Action, copy_page, finish_migration, drain, remap_page,
  policy_done, resume_cpus, demote_event, copy_event, is_dram, is_pcm, in_place, set_owner, own,
  find_migration, erase_migration, revise_migration, set_pending, start_migration,
  uncount_migration, with_page,
}
use hmmsim_server.HybridManager.Flushing.{Outcome, is_flushing, demotion}

-- The frame of a page is now the one that it was copied to.
abbrev pub moved : Migration → Page → Page
moved g e = record e { frame = g.dest_frame; type = g.dest; stall_on_access = false }

abbrev pub disown : ℕ → Manager → Result Manager
disown f m = do
  o ← asserted (m.physical f)
  ok (record m { physical = set_owner f none m.physical })

abbrev pub change_owner : Migration → Manager → Result Manager
change_owner g m = do
  m' ← disown g.source m
  own g.dest_frame (record { pid = g.pid; page = g.page }) m'

abbrev pub drop_migration : ℕ → Manager → Manager
drop_migration f m = record m { migrations = erase_migration f m.migrations }

-- `unstallCpus`
abbrev pub clear_cpus : ℕ → ℕ → Manager → Manager
clear_cpus pid page m = record m {
  stalled_cpus = λ p v. if p == pid && v == page then [] else m.stalled_cpus p v;
}

abbrev pub is_after : Phase → Bool
is_after flush_after = true
is_after flush_before = false
is_after copying = false

-- A page that was copied to DRAM but is wanted in PCM goes back to the frame that it came from.
abbrev pub go_back : Migration → Page → Manager → Outcome
go_back g e m = do
  assert (is_dram g.dest)
  assert (is_after g.phase)
  m' ← change_owner g (with_page g.pid g.page (moved g e) m)
  m'' ←
      start_migration (demotion g.pid g.page (moved g e) g.source copying)
        (clear_cpus g.pid g.page (drop_migration g.source m'))
  ok (
    m'',
    resume_cpus (m.stalled_cpus g.pid g.page)
        ∷ finish_migration g.source
        ∷ copy_page g.dest_frame g.source
        ∷ [],
  )

-- The frame that a page leaves is free.
abbrev pub free_frame : PageType → ℕ → Manager → Result Manager
free_frame dram f m = ok (record m { free_pcm = m.free_pcm ++ f ∷ [] })
free_frame pcm f m = ok (record m { free_dram = m.free_dram ++ f ∷ [] })
free_frame invalid f m = fault assertion

abbrev pub end_demotion : PageType → Manager → Manager × List Action
end_demotion pcm m = (record m { demoting = false }, demote_event 1 ∷ [])
end_demotion dram m = (m, [])
end_demotion invalid m = (m, [])

abbrev pub arrive_in : PageType → Migration → Page → Manager → Outcome
arrive_in dest g e m = do
  let (m1, acts) = end_demotion dest m
  m2 ←
      free_frame dest g.source
        (with_page g.pid g.page (record (moved g e) { is_migrating = false }) m1)
  m3 ← change_owner g m2
  ok (
    uncount_migration (drop_migration g.source (clear_cpus g.pid g.page m3)),
    acts
        ++ resume_cpus (m.stalled_cpus g.pid g.page)
          ∷ policy_done g.pid g.page
          ∷ finish_migration g.source
          ∷ [],
  )

-- The blocks are flushed, and the copy may begin.
abbrev pub begin_copy : Migration → Page → Manager → Outcome
begin_copy g e m = ok (
  clear_cpus g.pid g.page
      (record (with_page g.pid g.page (record e { stall_on_access = false }) m) {
        migrations =
            revise_migration (λ g. record g { phase = copying; needs_copying = true }) g.source
              m.migrations;
      }),
  copy_event 0 ∷ resume_cpus (m.stalled_cpus g.pid g.page) ∷ [],
)

abbrev pub finish_in : Phase → Migration → Page → Manager → Outcome
finish_in flush_before g e m = begin_copy g e m
finish_in flush_after g e m = arrive_in g.dest g e m
finish_in copying g e m = fault assertion

unfoldable pub finish_flushing : ℕ → Manager → Outcome
finish_flushing f m = do
  g ← asserted (find_migration f m.migrations)
  assert (is_flushing g.phase)
  e ← asserted (m.pages g.pid g.page)
  assert (in_place m.config e)
  if g.rolled_back then go_back g e m else finish_in g.phase g e m

-- The copy of a page was rolled back: its frame in DRAM is free, and it stays.
abbrev pub rolled_back : Migration → Page → Manager → Outcome
rolled_back g e m = do
  assert (is_dram g.dest)
  assert (is_pcm e.type)
  assert (not e.stall_on_access)
  let m' = with_page g.pid g.page (record e { is_migrating = false }) m
  ok (
    uncount_migration (
        drop_migration g.source
          (record m' { free_dram = m.free_dram ++ g.dest_frame ∷ []; demoting = false })),
    policy_done g.pid g.page ∷ finish_migration g.source ∷ demote_event 1 ∷ [],
  )

abbrev pub drains : ℕ → List ℕ → List Action
drains f [] = []
drains f (cpu ∷ cpus) = drain cpu f ∷ drains f cpus

abbrev pub drain_all : Migration → Manager → Outcome
drain_all g m = ok (
  record m {
    pending =
        set_pending g.source
          (record (m.pending g.source) {
            drains = ((m.pending g.source).drains + length m.config.cpus) % 2 ^ 32;
          })
          m.pending;
  },
  drains g.source m.config.cpus,
)

-- `changeTags` begins with an assertion that fails.
abbrev pub flush_again : FlushPolicy → Migration → Manager → Outcome
flush_again remap g m = ok (m, remap_page g.source g.dest_frame ∷ [])
flush_again change_tag g m = fault assertion
flush_again flush_pcm_before g m = drain_all g m
flush_again flush_only_after g m = drain_all g m

abbrev pub copied : Migration → Page → Manager → Outcome
copied g e m =
    flush_again m.config.flush_policy g
      (record (with_page g.pid g.page (record e { stall_on_access = true }) m) {
        migrations = revise_migration (λ g. record g { phase = flush_after }) g.source m.migrations;
      })

abbrev pub is_copying : Phase → Bool
is_copying copying = true
is_copying flush_before = false
is_copying flush_after = false

unfoldable pub copy_completed : ℕ → Manager → Outcome
copy_completed f m = do
  g ← asserted (find_migration f m.migrations)
  assert (is_copying g.phase)
  e ← asserted (m.pages g.pid g.page)
  assert (in_place m.config e)
  if g.rolled_back then rolled_back g e m else copied g e m
