-- ===== src/Memory/Counts.antt =====
-- How many requests of a `Memory` (Memory.cpp) are in a queue.
use hmmsim_server.Prelude.{
  ℕ, ◌+◌, ◌≡◌, List, [], ◌∷◌, ◌++◌, Option, none, some, ◌==◌, if◌then◌else◌, arith, inl, inr,
  Bool-cases, refl, if_true, if_false, sym,
}
use mathlib.Core.Path.{subst}
use hmmsim_server.RequestQueue.{Request}
use hmmsim_server.Memory.{Waiting, take_request, found_after}

-- Of a list of numbers, those that are `q`.
unfoldable pub count : ℕ → List ℕ → ℕ
count q [] = 0
count q (i ∷ is) = (if i == q then 1 else 0) + count q is

-- The requests that wait in the queue `q`, each by `index`.
unfoldable pub in_queue : (Request → ℕ) → ℕ → List Waiting → ℕ
in_queue index q [] = 0
in_queue index q (w ∷ ws) = (if index w.request == q then 1 else 0) + in_queue index q ws

pub in_queue-append :
    (index : Request → ℕ) (q : ℕ) (ws : List Waiting) (w : Waiting)
    → in_queue index q (ws ++ w ∷ [])
      ≡ in_queue index q ws + (if index w.request == q then 1 else 0)
unfolding in_queue
in_queue-append index q [] w = omega arith
in_queue-append index q (v ∷ ws) w = omega (arith, in_queue-append index q ws w)

-- What is found has the pointer asked for, and is taken out once.
abbrev pub Took : (Request → ℕ) → Request → List Waiting → Option (Waiting × List Waiting) → Type 0
Took index r ws none = Unit
Took index r ws (some (w, rest)) =
    (w.request.id ≡ r.id)
    × ((q : ℕ)
        → in_queue index q ws ≡ (if index w.request == q then 1 else 0) + in_queue index q rest)

found_after-Took :
    (index : Request → ℕ) (r : Request) (w : Waiting) (ws : List Waiting)
    (o : Option (Waiting × List Waiting))
    → Took index r ws o
    → Took index r (w ∷ ws) (found_after w o)
unfolding in_queue
found_after-Took index r w ws none h = tt
found_after-Took index r w ws (some (v, rest)) h = (h.0, λ q. omega (arith, h.1 q))

pub take_request-Took :
    (index : Request → ℕ) (r : Request) (ws : List Waiting) → Took index r ws (take_request r ws)
unfolding take_request in_queue
take_request-Took index r [] = tt
take_request-Took index r (w ∷ ws) = elim (Bool-cases (w.request.id == r.id)) [
  | inl same ↦ subst (Took index r (w ∷ ws)) (sym (if_true _ _ same)) (ground arith, λ q. refl)
  | inr other ↦
      subst (Took index r (w ∷ ws)) (sym (if_false _ _ other))
        (found_after-Took index r w ws _ (take_request-Took index r ws))
]
