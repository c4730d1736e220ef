-- ===== src/Engine/Pending.antt =====
-- The events that wait in an `Engine` (Engine.cpp), counted by a test: the search for the next cycle only moves
-- them.
use mathlib.Core.Bool.{false}
use mathlib.Core.Path.{subst}
use hmmsim_server.Prelude.{
  ℕ, zero, suc, ◌+◌, ◌-◌, ◌%◌, add64, ◌<◌, ◌≡◌, refl, Bool, List, [], ◌∷◌, ◌++◌, All, ltb,
  if◌then◌else◌, arith,
}
use hmmsim_server.Engine.{Event, Engine, set_slot, due, after_due, refill}
use hmmsim_server.Engine.Order.{IsAt, IsFrom, IsValid}

module _ (test : Event → Bool) where
  abbrev pub tally : List Event → ℕ
  tally [] = 0
  tally (v ∷ vs) = (if test v then 1 else 0) + tally vs

  -- Over the four deques and the priority queue.
  abbrev pub pending : Engine → ℕ
  pending e =
      tally (e.slots 0) + tally (e.slots 1) + tally (e.slots 2) + tally (e.slots 3) + tally e.events

  pub tally-append : (l m : List Event) → tally (l ++ m) ≡ tally l + tally m
  tally-append [] m = omega arith
  tally-append (v ∷ l) m = omega (arith, tally-append l m)

  pub tally-due : (t : ℕ) (l : List Event) → tally (due t l) + tally (after_due t l) ≡ tally l
  unfolding due after_due
  tally-due t [] = refl
  tally-due t (v ∷ vs) = ground (arith, tally-due t vs)

  -- A deque with more events in place of one with fewer.
  pub pending-set :
      (k : ℕ) (l rest : List Event) (e : Engine)
      → k < 4
      → tally l + tally rest ≡ tally (e.slots k) + tally e.events
      → pending (record e { slots = set_slot k l e.slots; events = rest }) ≡ pending e
  pending-set zero l rest e h moved = omega (arith, moved)
  pending-set (suc zero) l rest e h moved = omega (arith, moved)
  pending-set (suc (suc zero)) l rest e h moved = omega (arith, moved)
  pending-set (suc (suc (suc zero))) l rest e h moved = omega (arith, moved)
  pending-set (suc (suc (suc (suc k)))) l rest e h moved = absurd (omega (arith, h))

  pub pending-refill : (i : ℕ) (e : Engine) → pending (refill i e) ≡ pending e
  unfolding refill
  pending-refill i e =
      let t = add64 e.timestamp i in
      pending-set (t % 4) (due t e.events ++ e.slots (t % 4)) (after_due t e.events) e (omega arith)
        (omega (arith, tally-append (due t e.events) (e.slots (t % 4)), tally-due t e.events))

  tally-none :
      (P : Event → Type 0) (l : List Event)
      → ((v : Event) → P v → test v ≡ false)
      → All P l
      → tally l ≡ 0
  tally-none P [] none h = refl
  tally-none P (v ∷ vs) none h = ground (arith, none v h.0, tally-none P vs none h.1)

abbrev pub is_before : ℕ → Event → Bool
is_before t v = ltb v.time t

slot-before :
    (e : Engine) → IsValid e → (m : ℕ) → m < 4 → tally (is_before e.timestamp) (e.slots m) ≡ 0
slot-before e v m h =
    let j = (m + 4 - e.timestamp % 4) % 4 in
    let there : (e.timestamp + j) % 4 ≡ m = omega arith in
    tally-none (is_before e.timestamp) (IsAt (e.timestamp + j)) (e.slots m)
      (λ v h. ground (arith, h.0))
      (subst (λ m. All (IsAt (e.timestamp + j)) (e.slots m)) there (v.now j (omega arith)))

-- In a valid queue nothing that waits is behind the clock.
pub pending-before : (e : Engine) → IsValid e → pending (is_before e.timestamp) e ≡ 0
pending-before e v =
    let later =
      tally-none (is_before e.timestamp) (IsFrom (suc e.timestamp)) e.events
        (λ v h. ground (arith, h.0)) v.later in
    omega (
      arith,
      slot-before e v 0 (omega arith),
      slot-before e v 1 (omega arith),
      slot-before e v 2 (omega arith),
      slot-before e v 3 (omega arith),
      later,
    )
