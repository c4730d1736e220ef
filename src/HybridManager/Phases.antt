-- ===== src/HybridManager/Phases.antt =====
-- The phases of a migration in a `HybridMemoryManager` (MemoryManager.cpp): `finishFlushing` before the copy, and
-- `copyCompleted` of a copy that is not rolled back.
use hmmsim_server.Prelude.{
  ℕ, ◌+◌, ◌%◌, ◌^◌, ◌≡◌, ◌≢◌, refl, sym, ap, ◌∙◌, Bool, true, false, List, [], ◌∷◌, some, ◌==◌,
  ◌&&◌, if◌then◌else◌, if_true, length, arith,
}
use mathlib.Core.Path.{subst}
use hmmsim_server.Prelude.Results.{ok}
use hmmsim_server.HybridManager.{
  FlushPolicy, flush_pcm_before, flush_only_after, remap, change_tag, Page, Migration, Pending,
  Manager, Action, Phase, flush_before, copying, flush_after, copy_event, resume_cpus, remap_page,
  in_place, find_migration, set_pending,
}
use hmmsim_server.HybridManager.Flushing.{Outcome, is_flushing}
use hmmsim_server.HybridManager.Finishing.{
  is_copying, drains, flush_again, copied, copy_completed, finish_in, finish_flushing,
}
use hmmsim_server.HybridManager.Frames.{IsValid, set_page-here}
use hmmsim_server.HybridManager.Placing.{stalled-IsValid}
use hmmsim_server.HybridManager.Demotion.{flushed-IsValid}
use hmmsim_server.HybridManager.Ending.{entry, there, entry_frame}
use hmmsim_server.HybridManager.Continuing.{waiting, revised, revised-IsValid}
use hmmsim_server.HybridManager.Revising.{find-revised}

-- The migration is in a phase, and its page where it was; the page may be accessed exactly if it is not flushed.
pub record Goes (g : Migration) (m : Manager) : Type 0 where
  pub valid : IsValid [] m
  pub listed : find_migration g.source m.migrations ≡ some g
  pub page : Page
  pub known : m.pages g.pid g.page ≡ some page
  pub frame : page.frame ≡ g.source
  pub waits : page.stall_on_access ≡ is_flushing g.phase

-- What the manager asks for to flush a page after its copy.
abbrev pub asks : FlushPolicy → Migration → Manager → List Action
asks flush_pcm_before g m = drains g.source m.config.cpus
asks flush_only_after g m = drains g.source m.config.cpus
asks remap g m = remap_page g.source g.dest_frame ∷ []
asks change_tag g m = []

module _ (m : Manager) (g : Migration) (v : IsValid [] m)
    (found : find_migration g.source m.migrations ≡ some g) where
  abbrev e : Page
  e = entry m g.source g v found

  abbrev next : Phase → (Migration → Bool) → Manager
  next phase copies = revised m g.source g v found phase copies

  abbrev gone_on : Phase → (Migration → Bool) → Migration
  gone_on phase copies = record g { phase = phase; needs_copying = copies g }

  next-Goes :
      (phase : Phase) (copies : Migration → Bool) → Goes (gone_on phase copies) (next phase copies)
  next-Goes phase copies = record {
    valid = revised-IsValid m g.source g v found phase copies;
    listed = find-revised g.source phase copies m.migrations g found;
    page = waiting m g.source g v found phase copies;
    known = set_page-here g.pid g.page (waiting m g.source g v found phase copies) m.pages;
    frame = entry_frame m g.source g v found;
    waits = refl;
  }

  abbrev as_before : Migration → Bool
  as_before h = h.needs_copying

  abbrev Flushes : FlushPolicy → Outcome → Type 0
  Flushes policy run =
      (m' : Manager) × (run ≡ ok (m', asks policy g m)) × Goes (gone_on flush_after as_before) m'

  abbrev counting : ℕ → Pending
  counting =
      set_pending g.source
        (record (m.pending g.source) {
          drains = ((m.pending g.source).drains + length m.config.cpus) % 2 ^ 32;
        })
        m.pending

  drained-Goes :
      Goes
        (gone_on flush_after as_before)
        (record (next flush_after as_before) { pending = counting })
  drained-Goes =
      let t = next-Goes flush_after as_before in
      record {
        valid =
            flushed-IsValid (next flush_after as_before) m.flush_queue m.flush_queue_size counting
              t.valid;
        listed = t.listed;
        page = t.page;
        known = t.known;
        frame = t.frame;
        waits = t.waits;
      }

  flush_again-Flushes :
      (policy : FlushPolicy)
      → policy ≢ change_tag
      → Flushes policy (flush_again policy g (next flush_after as_before))
  flush_again-Flushes flush_pcm_before other =
      (record (next flush_after as_before) { pending = counting }, refl, drained-Goes)
  flush_again-Flushes flush_only_after other =
      (record (next flush_after as_before) { pending = counting }, refl, drained-Goes)
  flush_again-Flushes remap other =
      (next flush_after as_before, refl, next-Goes flush_after as_before)
  flush_again-Flushes change_tag other = absurd (other refl)

  fits : in_place m.config e ≡ true
  fits = v.typed g.pid g.page e (there m g.source g v found)

  abbrev wanted : Migration → Bool
  wanted h = true

  abbrev cleared : ℕ → ℕ → List ℕ
  cleared p w = if p == g.pid && w == g.page then [] else m.stalled_cpus p w

  abbrev begun : Manager
  begun = record (next copying wanted) { stalled_cpus = cleared }

  begun-Goes : Goes (gone_on copying wanted) begun
  begun-Goes =
      let t = next-Goes copying wanted in
      record {
        valid = stalled-IsValid (next copying wanted) cleared m.demoting t.valid;
        listed = t.listed;
        page = t.page;
        known = t.known;
        frame = t.frame;
        waits = t.waits;
      }

  -- Where the tables and the frames are in step, the end of a copy that was not rolled back fails no assertion and
  -- leaves them in step, unless the flush policy is CHANGE_TAG. The migration goes on to the flushes, for
  -- which the manager asks every processor to drain the page or, under REMAP, the cache to remap it. The
  -- page is where it was, and has to wait.
  pub copy_completed-Goes :
      g.phase ≡ copying
      → g.rolled_back ≡ false
      → m.config.flush_policy ≢ change_tag
      → (m' : Manager) × (copy_completed g.source m ≡ ok (m', asks m.config.flush_policy g m))
        × Goes (record g { phase = flush_after }) m'
  unfolding copy_completed
  copy_completed-Goes phase onward other =
      let copies : is_copying g.phase ≡ true = ap is_copying phase in
      let run : copy_completed g.source m ≡ copied g e m =
        rw (found, copies, there m g.source g v found, fits, onward) refl in
      subst (Flushes m.config.flush_policy) (sym run)
        (flush_again-Flushes m.config.flush_policy other)

  -- Where they are in step, the end of the flushes before a copy fails no assertion and leaves them in step. The
  -- migration waits for its copy, for which the manager has an event; the page is where it was and may be
  -- accessed, and the processors that waited for it go on.
  pub finish_flushing-Goes :
      g.phase ≡ flush_before
      → g.rolled_back ≡ false
      → (m' : Manager) × (finish_flushing g.source m
          ≡ ok (m', copy_event 0 ∷ resume_cpus (m.stalled_cpus g.pid g.page) ∷ []))
        × (m'.stalled_cpus g.pid g.page ≡ [])
        × Goes (record g { phase = copying; needs_copying = true }) m'
  unfolding finish_flushing
  finish_flushing-Goes phase onward =
      let flushing : is_flushing g.phase ≡ true = ap is_flushing phase in
      let run : finish_flushing g.source m ≡ finish_in g.phase g e m =
        rw (found, flushing, there m g.source g v found, fits, onward) refl in
      (
        begun,
        run ∙ ap (λ p. finish_in p g e m) phase,
        if_true {b = g.pid == g.pid && g.page == g.page} _ _ (ground arith),
        begun-Goes,
      )
