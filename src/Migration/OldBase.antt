-- ===== src/Migration/OldBase.antt =====
-- `OldBaseMigrationPolicy` (Migration.cpp, include/Migration.H).
pub mod Counting
use hmmsim_server.Prelude.{
  ℕ, Bool, true, false, ◌&&◌, Option, none, some, ltb, ◌==◌, if◌then◌else◌, add64, sub64,
  is_positive, is_nonpositive,
}
use hmmsim_server.Prelude.Results.{Result, ok, assert, ◌>>=◌, ◌>>◌}
use hmmsim_server.Migration.Base.{
  PageType, dram, pcm, invalid, AllocationPolicy, dram_first, pcm_only, custom,
}

pub record OldBase : Type 0 where
  pub dram_pages : ℕ
  pub policy : AllocationPolicy
  pub num_pids : ℕ
  pub dram_pages_left : ℕ
  pub dram_full : Bool

abbrev pub is_dram : PageType → Bool
is_dram dram = true
is_dram pcm = false
is_dram invalid = false

-- Where `allocate` puts a page, before it counts it. `hint` is what the allocator advises.
unfoldable pub choose : PageType → OldBase → Result PageType
choose hint b = elim b.policy [
  | dram_first ↦ if b.dram_full then ok pcm else ok dram
  | pcm_only ↦ ok pcm
  | custom ↦ if is_dram hint && is_positive b.dram_pages_left then ok dram else ok pcm
]

-- A DRAM page is counted.
unfoldable pub count : PageType → OldBase → Result OldBase
count ret b =
    let left = sub64 b.dram_pages_left 1 in
    if is_dram ret
    then (do
      assert (is_positive b.dram_pages_left)
      ok (record b { dram_pages_left = left; dram_full = if left == 0 then true else b.dram_full }))
    else ok b

-- `allocate`
unfoldable pub allocate : PageType → OldBase → Result (PageType × OldBase)
unfolding choose count
allocate hint b = do ret ← choose hint b; b' ← count ret b; ok (ret, b')

-- `migrate`; `select` is `selectPage` of the policy, with what it makes of its state.
unfoldable pub migrate {ℓ} :
    {S : Type ℓ} → OldBase → (S → Result (Option (ℕ × ℕ) × S)) → S → Result (Option (ℕ × ℕ) × S)
migrate b select s = elim b.policy [
  | dram_first ↦ if b.dram_full then select s else ok (none, s)
  | pcm_only ↦ select s
  | custom ↦ select s
]

-- `changeNumDramPages`
unfoldable pub change_num_dram_pages : ℕ → OldBase → OldBase
change_num_dram_pages pages b =
    let less = sub64 b.dram_pages_left (sub64 b.dram_pages pages) in
    if ltb b.dram_pages pages
    then record b { dram_pages_left = add64 b.dram_pages_left (sub64 pages b.dram_pages) }
    else if ltb pages b.dram_pages
    then record b {
      dram_pages_left = less;
      dram_pages = pages;
      dram_full = if b.dram_full then true else if is_nonpositive less then true else b.dram_full;
    }
    else b
