-- ===== src/Tests/OldQueues.antt =====
-- `OldMultiQueueMigrationPolicy` (Migration.cpp) with a page in PCM and one in DRAM.
use hmmsim_server.Prelude.{refl, true, false, some, [], ◌∷◌, arith}
use hmmsim_server.Migration.Base.{dram_first}
use hmmsim_server.Migration.Store.{find, emplace, link}
use hmmsim_server.Migration.MultiQueue.{history, position_tags, init_thresholds}
use hmmsim_server.Migration.OldMultiQueue.{OldMultiQueue, Access, monitor, select_page}
use hmmsim_server.Migration.OldMultiQueue.Monitor.{IsValid, Goes, monitor_in_step}
use hmmsim_server.Migration.OldMultiQueue.Selection.{Turns, select_page-Turns}
use hmmsim_server.Tests.Stores.{two_pages, two_pages-Levelled}

abbrev old_access : Access
old_access = record { expiration_time = 5; count = 3; demoted = false }

abbrev old_state : OldMultiQueue
old_state = record {
  base = record {
    dram_pages = 1;
    policy = dram_first;
    num_pids = 1;
    dram_pages_left = 0;
    dram_full = true;
  };
  config = record {
    threshold_queue = 1;
    lifetime = 100;
    logical_time = false;
    filter_threshold = 10;
    second_demotion_eviction = true;
    aging = true;
    use_history = true;
    use_pending_list = true;
    thresholds = init_thresholds 1 0;
  };
  store = two_pages old_access old_access;
  monitored = λ _ _. record { first_monitor = false; last_monitor = 0 };
  pending = (0, 40) ∷ [];
  current_time = 0;
}

old_state-IsValid : IsValid old_state
unfolding init_thresholds
old_state-IsValid = two_pages-Levelled old_access old_access

monitor_in_step_example : Goes old_state (monitor 700 0 40 old_state)
unfolding link emplace find
monitor_in_step_example =
    monitor_in_step 700 0 40 1 old_state history 0 old_state-IsValid refl (λ h. ground arith) refl
      (λ e h. ground arith)

select_page-Turns_example : Turns true (some (0, 41)) old_state (select_page old_state)
unfolding init_thresholds link emplace
select_page-Turns_example =
    select_page-Turns old_state old_state-IsValid (refl, tt) (ground arith) (ground arith)
