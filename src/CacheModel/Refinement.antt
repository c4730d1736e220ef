-- ===== src/CacheModel/Refinement.antt =====
-- `CacheModel::access` (Cache.cpp) as a cache of blocks: a map from addresses to whether their block is held.
use hmmsim_server.Prelude.{ℕ, ◌^◌, ◌<◌, ◌≡◌, Bool, some, get_elem?}
use hmmsim_server.Prelude.Results.{Result}
use hmmsim_server.CacheSet.{Set}
use hmmsim_server.CacheSet.Allocation.{Allocation}
use hmmsim_server.CacheModel.{CacheModel, Accessed, get_index}
use hmmsim_server.CacheModel.Contents.{Good, IsValid}
use hmmsim_server.CacheModel.Accesses.{Outcome}

module _ (o i w : ℕ) (c : CacheModel) (v : IsValid o i w c) (addr : ℕ) (low : addr < 2 ^ 63)
    (read : Bool) where
  module _ (s : Set) (here : get_elem? c.sets (get_index c addr) ≡ some s) (good : Good w s) where
    abbrev Done : Result (Accessed × CacheModel) → Type 0
    Done = Outcome o i w c v addr low read s here good
