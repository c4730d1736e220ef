-- ===== src/HybridManager/Steps.antt =====
-- The last step of a migration in a `HybridMemoryManager` (MemoryManager.cpp): `finishFlushing` after the copy,
-- and `copyCompleted` of a copy that was rolled back.
use hmmsim_server.Prelude.{
  ℕ, ◌≡◌, ◌≢◌, refl, sym, ap, ◌∙◌, true, false, not, List, [], ◌∷◌, ◌++◌, none, some, ◌==◌, ◌&&◌,
  if◌then◌else◌, arith,
}
use mathlib.Core.Path.{subst}
use hmmsim_server.Prelude.Results.{ok}
use hmmsim_server.Migration.Base.{PageType, dram, pcm, invalid}
use hmmsim_server.HybridManager.{
  Page, Migration, Manager, Action, copying, flush_after, policy_done, resume_cpus,
  finish_migration, demote_event, is_dram, is_pcm, is_free, set_owner, find_migration,
}
use hmmsim_server.HybridManager.Flushing.{Outcome, is_flushing}
use hmmsim_server.HybridManager.Finishing.{
  arrive_in, finish_in, finish_flushing, copy_completed, is_copying,
}
use hmmsim_server.HybridManager.Frames.{
  IsValid, GoesTo, set_page-here, set_owner-here, set_owner-other,
}
use hmmsim_server.HybridManager.Placing.{stalled-IsValid}
use hmmsim_server.HybridManager.Ending.{
  found-Moving, entry, there, entry_frame, free_dram-IsValid, free_pcm-IsValid,
}
use hmmsim_server.HybridManager.Leaving.{
  unmarked, stays, stays-IsValid, arrived, moves, moves-IsValid, dest_unowned, source_owned,
  apart_frames, mine,
}

-- The page is in the frame that it was copied to, of the type that it was to get, and the frame that it left is
-- the last of the free ones.
pub record Arrives (g : Migration) (m m' : Manager) : Type 0 where
  pub page : Page
  pub known : m'.pages g.pid g.page ≡ some page
  pub frame : page.frame ≡ g.dest_frame
  pub type : page.type ≡ g.dest
  pub still : page.is_migrating ≡ false
  pub ready : page.stall_on_access ≡ false
  pub owned : m'.physical g.source ≡ none
  pub free_dram :
      m'.free_dram ≡ (if is_pcm g.dest then m.free_dram ++ g.source ∷ [] else m.free_dram)
  pub free_pcm : m'.free_pcm ≡ (if is_dram g.dest then m.free_pcm ++ g.source ∷ [] else m.free_pcm)

module _ (m : Manager) (g : Migration) (v : IsValid [] m)
    (found : find_migration g.source m.migrations ≡ some g) where
  abbrev e : Page
  e = entry m g.source g v found

  abbrev Done : Outcome → Type 0
  Done run =
      (m' : Manager) × (acts : List Action) × (run ≡ ok (m', acts)) × IsValid [] m' × Arrives g m m'

  not_source : g.dest_frame ≢ g.source
  not_source = apart_frames m g.source g v found

  dest_free : is_free (set_owner g.source none m.physical g.dest_frame) ≡ true
  dest_free = ap is_free (
      set_owner-other g.source none m.physical g.dest_frame not_source
      ∙ dest_unowned m g.source g v found)

  source_free :
      set_owner g.dest_frame
        (some (mine m g.source g v found))
        (set_owner g.source none m.physical)
        g.source
      ≡ none
  source_free =
      set_owner-other g.dest_frame (some (mine m g.source g v found))
        (set_owner g.source none m.physical) g.source (λ same. not_source (sym same))
      ∙ set_owner-here g.source none m.physical

  abbrev cleared : ℕ → ℕ → List ℕ
  cleared p w = if p == g.pid && w == g.page then [] else m.stalled_cpus p w

  abbrev in_dram : Manager
  in_dram = record (moves m g.source g v found) {
    free_pcm = m.free_pcm ++ g.source ∷ [];
    stalled_cpus = cleared;
  }

  abbrev in_pcm : Manager
  in_pcm = record (moves m g.source g v found) {
    free_dram = m.free_dram ++ g.source ∷ [];
    stalled_cpus = cleared;
    demoting = false;
  }

  abbrev news : List Action
  news =
      resume_cpus (m.stalled_cpus g.pid g.page)
      ∷ policy_done g.pid g.page
      ∷ finish_migration g.source
      ∷ []

  arrive-Done : (t : PageType) → g.dest ≡ t → GoesTo m.config g t → Done (arrive_in t g e m)
  arrive-Done dram is goes = (
    in_dram,
    news,
    rw (source_owned m g.source g v found, dest_free) refl,
    stalled-IsValid (record (moves m g.source g v found) { free_pcm = m.free_pcm ++ g.source ∷ [] })
        cleared m.demoting
        (free_pcm-IsValid (moves m g.source g v found) g.source (moves-IsValid m g.source g v found)
          (goes.1)),
    record {
      page = arrived m g.source g v found;
      known = set_page-here g.pid g.page (arrived m g.source g v found) m.pages;
      frame = refl;
      type = refl;
      still = refl;
      ready = refl;
      owned = source_free;
      free_dram = ap (λ t. if is_pcm t then m.free_dram ++ g.source ∷ [] else m.free_dram) (sym is);
      free_pcm = ap (λ t. if is_dram t then m.free_pcm ++ g.source ∷ [] else m.free_pcm) (sym is);
    },
  )
  arrive-Done pcm is goes = (
    in_pcm,
    demote_event 1 ∷ news,
    rw (source_owned m g.source g v found, dest_free) refl,
    stalled-IsValid
        (record (moves m g.source g v found) { free_dram = m.free_dram ++ g.source ∷ [] }) cleared
        false
        (free_dram-IsValid (moves m g.source g v found) g.source
          (moves-IsValid m g.source g v found) (goes.1)),
    record {
      page = arrived m g.source g v found;
      known = set_page-here g.pid g.page (arrived m g.source g v found) m.pages;
      frame = refl;
      type = refl;
      still = refl;
      ready = refl;
      owned = source_free;
      free_dram = ap (λ t. if is_pcm t then m.free_dram ++ g.source ∷ [] else m.free_dram) (sym is);
      free_pcm = ap (λ t. if is_dram t then m.free_pcm ++ g.source ∷ [] else m.free_pcm) (sym is);
    },
  )
  arrive-Done invalid is goes = absurd goes

  -- Where the tables and the frames are in step, the end of the flushes after a copy that is not rolled back fails
  -- no assertion and leaves them in step. The page is in the frame that it was copied to, is of that
  -- memory's type and may be accessed and migrated, and the frame that it left is free.
  pub finish_flushing-Arrives :
      g.phase ≡ flush_after
      → g.rolled_back ≡ false
      → (m' : Manager) × (acts : List Action) × (finish_flushing g.source m ≡ ok (m', acts))
        × IsValid [] m'
        × Arrives g m m'
  unfolding finish_flushing
  finish_flushing-Arrives phase onward =
      let flushing : is_flushing g.phase ≡ true = ap is_flushing phase in
      let fits = v.typed g.pid g.page e (there m g.source g v found) in
      let run : finish_flushing g.source m ≡ finish_in g.phase g e m =
        rw (found, flushing, there m g.source g v found, fits, onward) refl in
      subst Done (sym (run ∙ ap (λ p. finish_in p g e m) phase))
        (arrive-Done g.dest refl (found-Moving m g.source g v found).0.goes)

  abbrev back : Manager
  back = record (stays m g.source g v found) {
    free_dram = m.free_dram ++ g.dest_frame ∷ [];
    demoting = false;
  }

  -- Where they are in step, the end of a copy that was rolled back fails no assertion and leaves them in step. The
  -- page is where it was, and may be migrated again; the frame that was set aside for it is the last of
  -- the free ones, and the next demotion is asked for.
  pub copy_completed-RolledBack :
      g.phase ≡ copying
      → g.rolled_back ≡ true
      → (m' : Manager) × (copy_completed g.source m
          ≡ ok (m', policy_done g.pid g.page ∷ finish_migration g.source ∷ demote_event 1 ∷ []))
        × IsValid [] m'
        × (m'.free_dram ≡ m.free_dram ++ g.dest_frame ∷ [])
        × (m'.demoting ≡ false)
        × (a : Page) × (m'.pages g.pid g.page ≡ some a)
        × (a.frame ≡ g.source)
        × (a.is_migrating ≡ false)
  unfolding copy_completed
  copy_completed-RolledBack phase over =
      let to_dram : g.dest ≡ dram = (found-Moving m g.source g v found).0.rolled over in
      let goes = subst (GoesTo m.config g) to_dram (found-Moving m g.source g v found).0.goes in
      let copies : is_copying g.phase ≡ true = ap is_copying phase in
      let fits = v.typed g.pid g.page e (there m g.source g v found) in
      let in_dram : is_dram g.dest ≡ true = ap is_dram to_dram in
      let frame : e.frame ≡ g.source = entry_frame m g.source g v found in
      let typed : is_pcm e.type ≡ true = ground (arith, fits, goes.1, frame) in
      let ready : not e.stall_on_access ≡ true =
        ap not ((found-Moving m g.source g v found).0.waits ∙ ap is_flushing phase) in
      (
        back,
        rw (found, copies, there m g.source g v found, fits, over, in_dram, typed, ready) refl,
        stalled-IsValid
            (record (stays m g.source g v found) { free_dram = m.free_dram ++ g.dest_frame ∷ [] })
            m.stalled_cpus false
            (free_dram-IsValid (stays m g.source g v found) g.dest_frame
              (stays-IsValid m g.source g v found phase) (goes.0)),
        refl,
        refl,
        unmarked m g.source g v found,
        set_page-here g.pid g.page (unmarked m g.source g v found) m.pages,
        frame,
        refl,
      )
