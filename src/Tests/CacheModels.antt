-- ===== src/Tests/CacheModels.antt =====
-- `CacheModel` (Cache.cpp) with two sets of two blocks of 64 bytes, and its constructor.
use hmmsim_server.Prelude.{ℕ, ◌-◌, ◌≡◌, true, false, [], ◌∷◌, arith, shl32}
use hmmsim_server.Prelude.Results.{ok}
use hmmsim_server.Mapping.{field, logarithm, logb}
use hmmsim_server.CacheSet.{Block, Set, lru}
use hmmsim_server.CacheModel.{CacheModel, init}
use hmmsim_server.CacheModel.Contents.{IsValid, contains}
use hmmsim_server.CacheModel.Start.{init-IsValid}

abbrev old_block : Block
old_block = record { tag = 7; timestamp = 3; clean = false; valid = true }

-- The blocks of tags 7 and 8, of which that of 7 is older and dirty; and an empty set.
abbrev two_blocks : Set
two_blocks = record {
  blocks = old_block ∷ record { tag = 8; timestamp = 4; clean = true; valid = true } ∷ [];
  pinned = [];
}

abbrev no_blocks : Set
no_blocks = record {
  blocks = record old_block { valid = false } ∷ record old_block { valid = false } ∷ [];
  pinned = [];
}

abbrev cache : CacheModel
cache = record {
  block_size = 64;
  page_size = 4096;
  policy = lru;
  offset = field 6 0;
  index = field 1 6;
  tag = field 57 7;
  page_offset = field 12 0;
  page_index = field 52 12;
  sets = two_blocks ∷ no_blocks ∷ [];
  timestamp = 4;
  remap_table = [];
  inv_remap_table = [];
  next_node = 0;
}

init-IsValid_example :
    (c : CacheModel) × (init old_block lru 1024 64 2 4096 ≡ ok c)
    × IsValid
        (logb (shl32 1 (logb 64)))
        (logarithm 64 8)
        (64 - logb (shl32 1 (logb 64)) - logarithm 64 8)
        c
    × ((a : ℕ) → contains c a ≡ false)
unfolding logarithm
init-IsValid_example =
    init-IsValid old_block 1024 64 2 4096 (ground arith) (ground arith) (ground arith)
      (ground arith) (ground arith)
