-- ===== src/RequestQueue.antt =====
-- The requests that wait at a bank (`Bank::Queue`, include/Bank.H): a list for each priority, in the
-- order of the priorities, the most urgent first. A request is known by its pointer, `id`; what the
-- source keeps of it for statistics is left out.
pub mod Counts
use hmmsim_server.Prelude.{
  ℕ, Bool, true, false, ◌&&◌, ◌||◌, not, List, [], ◌∷◌, ◌++◌, Option, none, some, ltb, ◌==◌,
  if◌then◌else◌,
}

pub record Request : Type 0 where
  pub id : ℕ
  pub addr : ℕ
  pub size : ℕ
  pub read : Bool
  pub priority : ℕ

abbrev pub Requests : Type 0
Requests = List Request

-- `map<uint8, RequestList>`, smallest key first.
abbrev pub Queue : Type 0
Queue = List (ℕ × Requests)

abbrev pub is_empty {ℓ} : {A : Type ℓ} → List A → Bool
is_empty [] = true
is_empty (x ∷ xs) = false

-- `queue[request->priority].emplace_back(request)`
unfoldable pub push : Request → Queue → Queue
push r [] = (r.priority, r ∷ []) ∷ []
push r ((p, rs) ∷ q) =
    if r.priority == p
    then (p, rs ++ r ∷ []) ∷ q
    else if ltb r.priority p
    then (r.priority, r ∷ []) ∷ (p, rs) ∷ q
    else (p, rs) ∷ push r q

-- The first list without the request that was taken from it, and without the list itself when that was
-- the last one.
abbrev pub rest_of : ℕ → Requests → Queue → Queue
rest_of p [] q = q
rest_of p (r ∷ rs) q = (p, r ∷ rs) ∷ q

-- A request that stays in the list before the one that is found.
abbrev pub keep : Request → Option (Request × Requests) → Option (Request × Requests)
keep r none = none
keep r (some (found, rest)) = some (found, r ∷ rest)

-- The first request of a list that passes a test, and the others.
unfoldable pub take_first : (Request → Bool) → Requests → Option (Request × Requests)
take_first test [] = none
take_first test (r ∷ rs) = if test r then some (r, rs) else keep r (take_first test rs)

-- A read of an address that an earlier request of a list writes.
unfoldable pub is_forwarded : Request → Requests → Bool
is_forwarded r [] = false
is_forwarded r (earlier ∷ rs) =
    (r.addr == earlier.addr && (r.read && not earlier.read)) || is_forwarded r rs

unfoldable pub is_forwarded_in : Request → Queue → Bool
unfolding is_forwarded
is_forwarded_in r [] = false
is_forwarded_in r ((p, rs) ∷ q) = is_forwarded r rs || is_forwarded_in r q
