-- ===== src/Tests/Managers.antt =====
-- A small `HybridMemoryManager` (MemoryManager.cpp): one frame of DRAM, two of PCM, pages of 4096 bytes.
use hmmsim_server.Prelude.{
  ℕ, ◌≡◌, refl, sym, Bool, true, false, List, [], ◌∷◌, Option, none, some, if◌then◌else◌, inl, inr,
  arith,
}
use mathlib.Core.Path.{subst}
use hmmsim_server.Prelude.Results.{ok}
use hmmsim_server.Mapping.{field}
use hmmsim_server.Migration.Base.{dram, pcm}
use hmmsim_server.HybridManager.{
  flush_pcm_before, flush_only_after, Page, Owner, Phase, flush_before, copying, flush_after,
  Migration, Config, Manager, nothing_pending, new_page, in_place, get_address, get_offset, Action,
  policy_done, drain, copy_event, resume_cpus, finish_migration, demote_event, set_page, set_owner,
  access, find_migration, migrate_on_demand,
}
use hmmsim_server.HybridManager.Flushing.{is_flushing, start_demotion}
use hmmsim_server.HybridManager.Finishing.{finish_flushing, copy_completed}
use hmmsim_server.HybridManager.Frames.{
  count, dests, IsValid, set_page-cases, set_owner-cases, some_inj,
}
use hmmsim_server.HybridManager.Placing.{
  access-IsValid, placed-IsValid, take_dram-IsValid, take_pcm-IsValid,
}
use hmmsim_server.HybridManager.Promotion.{is_some, Promotes, migrate_on_demand-Promotes}
use hmmsim_server.HybridManager.Phases.{Goes, copy_completed-Goes, finish_flushing-Goes}
use hmmsim_server.HybridManager.Demotion.{Demotes, start_demotion-Demotes}
use hmmsim_server.HybridManager.Steps.{Arrives, finish_flushing-Arrives, copy_completed-RolledBack}

abbrev small : Config
small = record {
  num_dram_pages = 1;
  num_pcm_pages = 2;
  page_size = 4096;
  block_size = 64;
  offset = field 12 0;
  index = field 52 12;
  flush_policy = flush_only_after;
  max_table_size = 4;
  max_flush_queue_size = 16;
  suppress_writebacks = false;
  demote_timeout = 1000;
  cpus = 0 ∷ [];
}

abbrev unused : Manager
unused = record {
  config = small;
  free_dram = 0 ∷ [];
  free_pcm = 1 ∷ 2 ∷ [];
  pages = λ p v. none;
  physical = λ f. none;
  migrations = [];
  table_size = 0;
  demoting = false;
  current_policy = 0;
  pending = λ f. nothing_pending;
  flush_queue = [];
  flush_queue_size = 0;
  stalled_requests = [];
  stalled_cpus = λ p v. [];
}

unused-IsValid : IsValid [] unused
unfolding count dests
unused-IsValid = record {
  conserved = λ x. ground arith;
  drams = (refl, tt);
  pcms = (refl, (refl, tt));
  typed = λ p v e h. cc;
  owner = λ f o h. cc;
  known = λ p v e h. cc;
  moving = tt;
  apart = tt;
  listed = λ p v e h. cc;
  ready = λ p v e h. cc;
  size = refl;
}

-- The first access of page 5 takes the frame 1.
access-IsValid_example :
    (r : Option ℕ) × (m' : Manager) × (access 0 20490 0 pcm unused ≡ ok (r, m'))
    × IsValid [] m'
    × (e : Page) × (m'.pages 0 5 ≡ some e)
    × ((f : ℕ) × (e ≡ new_page f pcm))
    × (r ≡ (
        if e.stall_on_access
        then none
        else some (get_address small e.frame (get_offset small 20490))))
access-IsValid_example =
    access-IsValid unused 0 20490 0 pcm unused-IsValid (λ new. (1, 2 ∷ [], refl))

-- Page 5 in the frame 1 of PCM.
abbrev page_5 : Owner
page_5 = record { pid = 0; page = 5 }

abbrev in_pcm : Page
in_pcm = new_page 1 pcm

abbrev one_page : Manager
one_page = record unused {
  free_pcm = 2 ∷ [];
  pages = set_page 0 5 in_pcm unused.pages;
  physical = set_owner 1 (some page_5) unused.physical;
}

one_page-IsValid : IsValid [] one_page
unfolding count
one_page-IsValid =
    placed-IsValid (record unused { free_pcm = 2 ∷ [] }) 1 0 5 pcm
      (take_pcm-IsValid unused 1 (2 ∷ []) unused-IsValid refl).0 refl refl

first_access : access 0 20490 0 pcm unused ≡ ok (some 4106, one_page)
unfolding access hmmsim_server.Mapping.set_bits
first_access = refl

migrate_on_demand-Promotes_example :
    (r : Option ℕ) × (m' : Manager) × (migrate_on_demand true 1 one_page ≡ ok (r, m'))
    × (is_some r ≡ true)
    × IsValid [] m'
    × Promotes 1 page_5 one_page r m'
migrate_on_demand-Promotes_example =
    migrate_on_demand-Promotes true 1 one_page page_5 in_pcm one_page-IsValid refl refl refl refl

-- Page 5 on its way to the frame 0.
abbrev going : Phase → Bool → Migration
going phase back = record {
  source = 1;
  pid = 0;
  page = 5;
  dest_frame = 0;
  dest = dram;
  phase = phase;
  rolled_back = back;
  needs_copying = false;
}

abbrev marked : Phase → Page
marked phase = record in_pcm { is_migrating = true; stall_on_access = is_flushing phase }

abbrev on_its_way : Phase → Bool → Manager
on_its_way phase back = record one_page {
  free_dram = [];
  pages = set_page 0 5 (marked phase) unused.pages;
  migrations = going phase back ∷ [];
  table_size = 1;
}

on_its_way-IsValid : (phase : Phase) (back : Bool) → IsValid [] (on_its_way phase back)
unfolding count dests find_migration
on_its_way-IsValid phase back = record {
  conserved = λ x. ground arith;
  drams = tt;
  pcms = (refl, tt);
  typed = λ p v e h. elim (set_page-cases 0 5 (marked phase) unused.pages p v e h) [
    | inl (p_same, v_same, mine) ↦ subst (λ e. in_place small e ≡ true) mine refl
    | inr (other, before) ↦ cc
  ];
  owner = λ f o h. elim (set_owner-cases 1 (some page_5) unused.physical f o h) [
    | inl (here, mine) ↦
        subst
          (λ (o : Owner).
            (e : Page) × (set_page 0 5 (marked phase) unused.pages o.pid o.page ≡ some e)
            × (e.frame ≡ f))
          (some_inj mine) (marked phase, refl, sym here)
    | inr (other, before) ↦ cc
  ];
  known = λ p v e h. elim (set_page-cases 0 5 (marked phase) unused.pages p v e h) [
    | inl (p_same, v_same, mine) ↦
        subst
          (λ (e : Page).
            set_owner 1 (some page_5) unused.physical e.frame ≡ some (record { pid = p; page = v }))
          mine cc
    | inr (other, before) ↦ cc
  ];
  moving = (
    record {
      entry = marked phase;
      known = refl;
      source = refl;
      moving = refl;
      goes = (refl, refl);
      waits = refl;
      rolled = λ b. refl;
    },
    tt,
  );
  apart = (tt, tt);
  listed = λ p v e h moves. elim (set_page-cases 0 5 (marked phase) unused.pages p v e h) [
    | inl (p_same, v_same, mine) ↦
        subst
          (λ (e : Page).
            (g : Migration) × (find_migration e.frame (going phase back ∷ []) ≡ some g))
          mine (going phase back, refl)
    | inr (other, before) ↦ cc
  ];
  ready = λ p v e h still. elim (set_page-cases 0 5 (marked phase) unused.pages p v e h) [
    | inl (p_same, v_same, mine) ↦ cc
    | inr (other, before) ↦ cc
  ];
  size = refl;
}

found_it :
    (phase : Phase) (back : Bool)
    → find_migration 1 (going phase back ∷ []) ≡ some (going phase back)
unfolding find_migration
found_it phase back = refl

finish_flushing-Arrives_example :
    (m' : Manager) × (acts : List Action) × (finish_flushing 1 (on_its_way flush_after false)
      ≡ ok (m', acts))
    × IsValid [] m'
    × Arrives (going flush_after false) (on_its_way flush_after false) m'
finish_flushing-Arrives_example =
    finish_flushing-Arrives (on_its_way flush_after false) (going flush_after false)
      (on_its_way-IsValid flush_after false) (found_it flush_after false) refl refl

copy_completed-RolledBack_example :
    (m' : Manager) × (copy_completed 1 (on_its_way copying true)
      ≡ ok (m', policy_done 0 5 ∷ finish_migration 1 ∷ demote_event 1 ∷ []))
    × IsValid [] m'
    × (m'.free_dram ≡ 0 ∷ [])
    × (m'.demoting ≡ false)
    × (a : Page) × (m'.pages 0 5 ≡ some a)
    × (a.frame ≡ 1)
    × (a.is_migrating ≡ false)
copy_completed-RolledBack_example =
    copy_completed-RolledBack (on_its_way copying true) (going copying true)
      (on_its_way-IsValid copying true) (found_it copying true) refl refl

-- Page 5 in the frame 0 of DRAM, where its blocks are flushed before it is copied.
abbrev flushed_first : Manager
flushed_first = record unused { config = record small { flush_policy = flush_pcm_before } }

abbrev in_dram : Page
in_dram = new_page 0 dram

abbrev dram_page : Manager
dram_page = record flushed_first {
  free_dram = [];
  pages = set_page 0 5 in_dram unused.pages;
  physical = set_owner 0 (some page_5) unused.physical;
}

flushed_first-IsValid : IsValid [] flushed_first
unfolding count dests
flushed_first-IsValid = record {
  conserved = λ x. ground arith;
  drams = (refl, tt);
  pcms = (refl, (refl, tt));
  typed = λ p v e h. cc;
  owner = λ f o h. cc;
  known = λ p v e h. cc;
  moving = tt;
  apart = tt;
  listed = λ p v e h. cc;
  ready = λ p v e h. cc;
  size = refl;
}

start_demotion-Demotes_example :
    (m' : Manager) × (acts : List Action) × (start_demotion (some page_5) dram_page
      ≡ ok (true, m', acts))
    × Demotes page_5 in_dram 1 flush_before m'
start_demotion-Demotes_example =
    start_demotion-Demotes dram_page page_5 in_dram 1 (2 ∷ [])
      (placed-IsValid (record flushed_first { free_dram = [] }) 0 0 5 dram
        (take_dram-IsValid flushed_first 0 [] flushed_first-IsValid refl).0 refl refl)
      refl refl refl refl refl

copy_completed-Goes_example :
    (m' : Manager) × (copy_completed 1 (on_its_way copying false) ≡ ok (m', drain 0 1 ∷ []))
    × Goes (going flush_after false) m'
copy_completed-Goes_example =
    copy_completed-Goes (on_its_way copying false) (going copying false)
      (on_its_way-IsValid copying false) (found_it copying false) refl refl (λ h. cc)

finish_flushing-Goes_example :
    (m' : Manager) × (finish_flushing 1 (on_its_way flush_before false)
      ≡ ok (m', copy_event 0 ∷ resume_cpus [] ∷ []))
    × (m'.stalled_cpus 0 5 ≡ [])
    × Goes (record (going copying false) { needs_copying = true }) m'
finish_flushing-Goes_example =
    finish_flushing-Goes (on_its_way flush_before false) (going flush_before false)
      (on_its_way-IsValid flush_before false) (found_it flush_before false) refl refl
