-- ===== src/Migration/Base/Limits.antt =====
-- The count of the DRAM pages left in `BaseMigrationPolicy` and `OldBaseMigrationPolicy`
-- (Migration.cpp).
use hmmsim_server.Prelude.{ℕ, ◌+◌, ◌%◌, ◌<◌, ◌≡◌, true, word, add64, sub64, is_nonpositive, arith}
use hmmsim_server.Migration.Base.{Base, set_num_dram_pages}
use hmmsim_server.Migration.OldBase.{OldBase, change_num_dram_pages}

-- Where the old and the new limit fit into 64 bits, and the pages left and those in use make up the
-- old limit modulo 2 ^ 64, `setNumDramPages` sets the new limit, which those left and those in use
-- make up again; and where it lowers the limit and no page is left, it closes DRAM.
pub set_num_dram_pages_lem :
    (max_free : ℕ → ℕ) (pages used : ℕ) (b : Base)
    → pages < word
    → b.dram_pages < word
    → (b.dram_pages_left + used) % word ≡ b.dram_pages
    → let b' = set_num_dram_pages max_free pages b in
      (b'.dram_pages ≡ pages)
      × ((b'.dram_pages_left + used) % word ≡ pages)
      × (pages < b.dram_pages → is_nonpositive b'.dram_pages_left ≡ true → b'.dram_full ≡ true)
unfolding set_num_dram_pages
set_num_dram_pages_lem max_free pages used b fits old_fits counted = ground arith

-- Under the same conditions, `changeNumDramPages` does so when it lowers the limit. When it raises
-- it, the pages left grow, so that they and those in use make up the limit asked for, but the limit
-- stays the old one; to ask for the same limit a second time adds the difference once more.
pub change_num_dram_pages_lem :
    (pages used : ℕ) (b : OldBase)
    → pages < word
    → b.dram_pages < word
    → (b.dram_pages_left + used) % word ≡ b.dram_pages
    → let b' = change_num_dram_pages pages b in
      (pages < b.dram_pages
        → (b'.dram_pages ≡ pages) × ((b'.dram_pages_left + used) % word ≡ pages))
      × (b.dram_pages < pages
          → (b'.dram_pages ≡ b.dram_pages)
            × ((b'.dram_pages_left + used) % word ≡ pages)
            × ((change_num_dram_pages pages b').dram_pages_left
                ≡ add64 b'.dram_pages_left (sub64 pages b.dram_pages)))
unfolding change_num_dram_pages
change_num_dram_pages_lem pages used b fits old_fits counted =
    (λ less. (ground arith, ground arith), λ more. (ground arith, ground arith, ground arith))
