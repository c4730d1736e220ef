-- ===== src/Tests/CacheSets.antt =====
-- A set of two blocks (`Set`, Cache.cpp): the older one is taken.
use hmmsim_server.Prelude.{◌≡◌, refl, true, false, [], ◌∷◌}
use hmmsim_server.Prelude.Results.{ok}
use hmmsim_server.CacheSet.{Set, Allocated, lru, allocate}
use hmmsim_server.CacheSet.Lookup.{Distinct}
use hmmsim_server.CacheSet.Allocation.{Allocation, allocate-Allocation}

abbrev two_blocks : Set
two_blocks = record {
  blocks =
      record { tag = 7; timestamp = 40; clean = true; valid = true }
      ∷ record { tag = 8; timestamp = 30; clean = false; valid = true }
      ∷ [];
  pinned = 9 ∷ [];
}

two_blocks-Distinct : Distinct two_blocks.blocks
two_blocks-Distinct = (λ v. (refl, tt), (λ v. tt, tt))

allocate-Allocation_example :
    (a : Allocated) × (s : Set) × (allocate lru 5 50 true two_blocks ≡ ok (a, s))
    × Allocation 5 50 true two_blocks a.block a s
allocate-Allocation_example =
    allocate-Allocation 5 50 true two_blocks two_blocks-Distinct (refl, (refl, tt))
