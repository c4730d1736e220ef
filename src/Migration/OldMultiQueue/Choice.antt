-- ===== src/Migration/OldMultiQueue/Choice.antt =====
-- The page that `OldMultiQueueMigrationPolicy::selectPage` (Migration.cpp) is to move, told without its loops.
use hmmsim_server.Prelude.{
  ℕ, zero, suc, ◌+◌, ◌-◌, Bool, false, ◌&&◌, not, Option, none, some, List, [], ◌∷◌, if◌then◌else◌,
}
use hmmsim_server.Migration.Base.{dram, pcm}
use hmmsim_server.Migration.Store.{Nodes}
use hmmsim_server.Migration.MultiQueue.{Position, queues, victims, same_type, type_of, is_above}
use hmmsim_server.Migration.OldMultiQueue.{Access, OldMultiQueue, num_queues}

-- The front page of the first of some queues that holds one.
abbrev pub first_page : List (Nodes Access) → Option (ℕ × ℕ)
first_page [] = none
first_page ([] ∷ qs) = first_page qs
first_page (((i, e) ∷ q) ∷ qs) = some (e.pid, e.addr)

-- The queues of `n` levels from a level on, and of `n` levels below one, downwards.
abbrev pub levels_up : ℕ → ℕ → (ℕ → Nodes Access) → List (Nodes Access)
levels_up zero l qs = []
levels_up (suc n) l qs = qs l ∷ levels_up n (l + 1) qs

abbrev pub levels_down : ℕ → ℕ → (ℕ → Nodes Access) → List (Nodes Access)
levels_down zero l qs = []
levels_down (suc n) zero qs = []
levels_down (suc n) (suc l) qs = qs l ∷ levels_down n l qs

-- A page of the pending list is to be promoted if it is not in DRAM and its queue is high enough.
abbrev pub is_wanted : ℕ → Option (Position × ℕ) → Bool
is_wanted threshold none = false
is_wanted threshold (some (pos, it)) = not (same_type (type_of pos) dram) && is_above threshold pos

abbrev pub first_wanted : OldMultiQueue → List (ℕ × ℕ) → Option (ℕ × ℕ)
first_wanted s [] = none
first_wanted s ((p, a) ∷ q) =
    if is_wanted s.config.threshold_queue (s.store.pages p a) then some (p, a) else first_wanted s q

-- The page to demote: the first victim, or else a page of the lowest queue below the threshold that has one.
abbrev pub to_demote : OldMultiQueue → Option (ℕ × ℕ)
to_demote s = first_page (
    s.store.lists victims
    ∷ levels_up s.config.threshold_queue 0 (λ l. s.store.lists (queues dram l)))

-- The page to promote: the first of the pending list that is to be, or a page of the highest queue from the
-- threshold on that has one.
abbrev pub to_promote : OldMultiQueue → Option (ℕ × ℕ)
to_promote s =
    if s.config.use_pending_list
    then first_wanted s s.pending
    else first_page (
        levels_down (num_queues s - s.config.threshold_queue) (num_queues s)
          (λ l. s.store.lists (queues pcm l)))

abbrev pub choice : Bool → OldMultiQueue → Option (ℕ × ℕ)
choice b s = if b then to_demote s else to_promote s
