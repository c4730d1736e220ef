-- ===== src/Tests/TwoLru.antt =====
-- `OldTwoLRUMigrationPolicy` (Migration.cpp) with one page in DRAM, or one in each memory.
use hmmsim_server.Prelude.{ℕ, ◌≡◌, refl, true, Option, some, add64, arith}
use hmmsim_server.Prelude.Results.{ok}
use hmmsim_server.Migration.Base.{PageType, dram, dram_first}
use hmmsim_server.Migration.Store.{Entry, erase, front, link, emplace, last}
use hmmsim_server.Migration.Store.Links.{link-Linked}
use hmmsim_server.Migration.TwoLru.{
  TwoLru, dram_list, list_tags, allocate, monitor, demote, migrate,
}
use hmmsim_server.Migration.TwoLru.Invariant.{
  IsValid, allocate-IsValid, monitor-IsValid, demote-IsValid,
}
use hmmsim_server.Migration.TwoLru.Migrate.{migrate-IsValid}
use hmmsim_server.Tests.Stores.{empty, empty-Linked}

abbrev page : Entry ℕ
page = record { pid = 0; addr = 40; body = 2 }

-- One DRAM page, which is in use.
abbrev full : TwoLru
full = record {
  base = record {
    dram_pages = 1;
    policy = dram_first;
    num_pids = 1;
    dram_pages_left = 0;
    dram_full = true;
  };
  store = link front dram_list 0 40 page empty;
}

full-IsValid : IsValid full
unfolding link emplace
full-IsValid = record {
  linked = link-Linked front dram_list page refl empty-Linked;
  one = refl;
  alone = λ p a q h. ground arith;
  counted = refl;
  left_fits = ground arith;
  room = λ p q. cc;
}

allocate-IsValid_example :
    (ret : PageType) × (s' : TwoLru) × (allocate dram 0 41 full ≡ ok (ret, s')) × IsValid s'
unfolding link
allocate-IsValid_example = allocate-IsValid dram 41 full-IsValid refl

monitor-IsValid_example :
    (s' : TwoLru) × (monitor 0 40 full ≡ ok s') × IsValid s' × (s'.base ≡ full.base)
unfolding link
monitor-IsValid_example = monitor-IsValid 40 dram_list 0 full-IsValid refl

demote-IsValid_example :
    (s' : TwoLru) × (demote full ≡ ok (some (0, 40), s'))
    × IsValid s'
    × (s'.store.lists dram_list ≡ erase 0 (full.store.lists dram_list))
    × (s'.base.dram_pages_left ≡ add64 full.base.dram_pages_left 1)
unfolding link emplace last
demote-IsValid_example = demote-IsValid 0 page full-IsValid refl refl

migrate-IsValid_example :
    (r : Option (ℕ × ℕ)) × (s' : TwoLru) × (migrate full ≡ ok (r, s')) × IsValid s'
unfolding link emplace
migrate-IsValid_example = migrate-IsValid full-IsValid ((λ h p. cc), (λ h. cc))
