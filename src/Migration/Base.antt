-- ===== src/Migration/Base.antt =====
-- `BaseMigrationPolicy` (Migration.cpp, include/Migration.H): how many DRAM pages are left, where a
-- new page goes, and which migration to complete or roll back.
pub mod Completion
pub mod Limits
use hmmsim_server.Prelude.{
  ℕ, ◌+◌, Bool, true, false, Option, none, some, List, [], ◌∷◌, ltb, ◌==◌, if◌then◌else◌, add64,
  sub64, is_positive, is_nonpositive, get_elem?,
}
use hmmsim_server.Prelude.Results.{Result, ok, assert, ◌>>=◌, ◌>>◌}

-- `PageType`
pub data PageType : Type 0 where
  dram pcm invalid : PageType

-- `AllocationPolicy`
pub data AllocationPolicy : Type 0 where
  dram_first pcm_only custom : AllocationPolicy

-- `ProgressEntry`
pub record ProgressEntry : Type 0 where
  pub pid : ℕ
  pub page : ℕ
  pub blocks_left : ℕ
  pub start_time : ℕ

-- `dram_pages_left` and `max_free_dram_pages` are `int64`.
pub record Base : Type 0 where
  pub dram_pages : ℕ
  pub policy : AllocationPolicy
  pub num_pids : ℕ
  pub complete_threshold : ℕ
  pub rollback_timeout : ℕ
  pub dram_pages_left : ℕ
  pub max_free_dram_pages : ℕ
  pub dram_full : Bool
  pub progress : List ProgressEntry

-- The last part of `allocate`: a DRAM page is taken.
unfoldable pub take_dram : Base → Result (PageType × Base)
take_dram b = do
  assert (is_positive b.dram_pages_left)
  let left = sub64 b.dram_pages_left 1
  ok (
    dram,
    record b { dram_pages_left = left; dram_full = if left == 0 then true else b.dram_full },
  )

-- `allocate`
unfoldable pub allocate : Base → Result (PageType × Base)
allocate b = elim b.policy [
  | dram_first ↦ if b.dram_full then ok (pcm, b) else take_dram b
  | pcm_only ↦ ok (pcm, b)
  | custom ↦ assert false >> ok (invalid, b)
]

-- The loops of `complete` and `rollback`, to the index of the entry that they remember and to that
-- at which they stop. `pit` is the second.
unfoldable pub fewest_blocks : ℕ → ℕ → Option ℕ → List ProgressEntry → Option ℕ × ℕ
fewest_blocks min_blocks pit min_pit [] = (min_pit, pit)
fewest_blocks min_blocks pit min_pit (e ∷ es) =
    fewest_blocks (if ltb e.blocks_left min_blocks then e.blocks_left else min_blocks) (pit + 1)
      (if ltb e.blocks_left min_blocks then some pit else min_pit) es

unfoldable pub longest_time : ℕ → ℕ → ℕ → Option ℕ → List ProgressEntry → Option ℕ × ℕ
longest_time timestamp max_time pit max_pit [] = (max_pit, pit)
longest_time timestamp max_time pit max_pit (e ∷ es) =
    let time = sub64 timestamp e.start_time in
    longest_time timestamp (if ltb max_time time then time else max_time) (pit + 1)
      (if ltb max_time time then some pit else max_pit) es

-- The page of the entry at an iterator, if that is not `end()`.
unfoldable pub page_at : ℕ → List ProgressEntry → Option (ℕ × ℕ)
page_at pit es = elim (get_elem? es pit) [ none ↦ none | some e ↦ some (e.pid, e.page) ]

-- `complete`
unfoldable pub complete : Base → Option (ℕ × ℕ)
complete b = page_at (fewest_blocks b.complete_threshold 0 none b.progress).1 b.progress

-- `rollback`
unfoldable pub rollback : ℕ → Base → Option (ℕ × ℕ)
rollback timestamp b =
    page_at (longest_time timestamp b.rollback_timeout 0 none b.progress).1 b.progress

-- `demote`; `select` is `selectDemotionPage` of the policy, with what it makes of its state.
unfoldable pub demote {ℓ} :
    {S : Type ℓ} → Base → (S → Result (Option (ℕ × ℕ) × S)) → S → Result (Option (ℕ × ℕ) × S)
demote b select s = elim b.policy [
  | dram_first ↦ if b.dram_full then select s else ok (none, s)
  | pcm_only ↦ select s
  | custom ↦ assert false >> ok (none, s)
]

-- `monitor`
unfoldable pub monitor : List ProgressEntry → Base → Base
monitor progress b = record b { progress = progress }

-- `setNumDramPages`; `max_free` is `dramPages * maxFreeDram`, a product of doubles.
unfoldable pub set_num_dram_pages : (ℕ → ℕ) → ℕ → Base → Base
set_num_dram_pages max_free pages b =
    let more = add64 b.dram_pages_left (sub64 pages b.dram_pages) in
    let less = sub64 b.dram_pages_left (sub64 b.dram_pages pages) in
    if ltb b.dram_pages pages
    then record b {
      dram_pages_left = more;
      dram_pages = pages;
      max_free_dram_pages = max_free pages;
    }
    else if ltb pages b.dram_pages
    then record b {
      dram_pages_left = less;
      dram_full = if b.dram_full then true else if is_nonpositive less then true else b.dram_full;
      dram_pages = pages;
      max_free_dram_pages = max_free pages;
    }
    else b
