-- ===== src/Tests/Queues.antt =====
-- `MultiQueueMigrationPolicy` (Migration.cpp) with a page in PCM and
-- one in DRAM, of two queues for each memory.
use hmmsim_server.Prelude.{ℕ, ◌≡◌, refl, Bool, true, false, some, List, [], ◌∷◌, is_positive, arith}
use hmmsim_server.Prelude.Results.{ok}
use hmmsim_server.Migration.Base.{dram, dram_first}
use hmmsim_server.Migration.Store.{find, emplace, link}
use hmmsim_server.Migration.MultiQueue
use hmmsim_server.Migration.MultiQueue.{
  Position, queues, victims, history, position_tags, MultiQueue, init_thresholds, level_of,
}
use hmmsim_server.Migration.MultiQueue.Invariant
use hmmsim_server.Migration.MultiQueue.Invariant.{Levelled}
use hmmsim_server.Migration.MultiQueue.Monitor
use hmmsim_server.Migration.MultiQueue.Monitor.{monitor-Goes}
use hmmsim_server.Migration.MultiQueue.Demotion.{Demoted, select_demotion_page-Demotes}
use hmmsim_server.Migration.MultiQueue.Promotion.{Promoted, migrate-Promoted, done-IsValid}
use hmmsim_server.Tests.Stores.{two_pages, two_pages-Levelled}

abbrev access : Bool → MultiQueue.Access
access migrating = record { expiration_time = 5; count = 3; demoted = false; migrating = migrating }

abbrev config : MultiQueue.Config
config = record {
  threshold_queue = 1;
  lifetime = 100;
  logical_time = false;
  second_demotion_eviction = true;
  aging = true;
  use_history = true;
  use_pending_list = false;
  enable_rollback = false;
  promotion_filter = false;
  demotion_attempts = 0;
  thresholds = init_thresholds 1 0;
}

abbrev state : ℕ → MultiQueue
state left = record {
  base = record {
    dram_pages = 1;
    policy = dram_first;
    num_pids = 1;
    complete_threshold = 0;
    rollback_timeout = 0;
    dram_pages_left = left;
    max_free_dram_pages = 1;
    dram_full = true;
    progress = [];
  };
  config = config;
  store = two_pages (access false) (access true);
  pending = [];
  current_time = 0;
  tries = 0;
}

state-IsValid : (left : ℕ) → Invariant.IsValid (state left)
unfolding init_thresholds
state-IsValid left = two_pages-Levelled (access false) (access true)

abbrev accesses : List MultiQueue.CountEntry
accesses = record { pid = 0; page = 40; reads = 6 } ∷ record { pid = 0; page = 41; reads = 1 } ∷ []

monitor-Goes_example : Monitor.Goes (state 0) (MultiQueue.monitor 700 accesses [] (state 0))
unfolding link
monitor-Goes_example =
    monitor-Goes 700 accesses [] (state-IsValid 0) (λ h. ground arith) (refl, (refl, tt))

select_demotion_page-Demotes_example : Demoted (state 0) (MultiQueue.select_demotion_page (state 0))
unfolding init_thresholds
select_demotion_page-Demotes_example = select_demotion_page-Demotes (state-IsValid 0) (ground arith)

migrate-Promoted_example :
    (b : Bool) × (s' : MultiQueue) × (MultiQueue.migrate 0 40 (state 1) ≡ ok (b, s'))
    × Invariant.IsValid s'
    × Promoted 0 40 3 b (state 1) s'
    × (b ≡ true → is_positive 1 ≡ true)
unfolding link emplace find
migrate-Promoted_example =
    migrate-Promoted 0 40 history 0 (record { pid = 0; addr = 40; body = access false }) (state 1)
      (state-IsValid 1) refl refl refl refl

done-IsValid_example :
    (s' : MultiQueue) × (MultiQueue.done 0 41 (state 0) ≡ ok s')
    × Invariant.IsValid s'
    × (s'.store.pages ≡ (state 0).store.pages)
    × (find 1 (s'.store.lists (queues dram 0))
        ≡ some (record { pid = 0; addr = 41; body = access false }))
unfolding link emplace find
done-IsValid_example =
    done-IsValid 0 41 (queues dram 0) 1 (record { pid = 0; addr = 41; body = access true })
      (state 0) (state-IsValid 0) refl refl refl
