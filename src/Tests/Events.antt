-- ===== src/Tests/Events.antt =====
-- `Engine` (Engine.cpp) with two events, one in a deque and one in the priority queue.
use mathlib.Core.Path.{subst}
use hmmsim_server.Prelude.{ℕ, suc, ◌≡◌, refl, List, [], ◌∷◌, arith}
use hmmsim_server.Prelude.Results.{Result, ok, fault}
use hmmsim_server.Engine.{
  Event, Engine, Call, add, quit, init, perform, perform_all, add_event, insert, reschedule, run,
  next_event, advance, current_events_empty, scan, refill, jump, take_front, due, after_due,
  execute,
}
use hmmsim_server.Engine.Order.{IsValid, Fits, perform_all-IsValid}
use hmmsim_server.Engine.Advance.{Advanced, HasEvent, advance-Advanced}
use hmmsim_server.Engine.Run.{InOrder, RunFits, run-InOrder}

-- Each event of the handler 1 asks for another, three cycles later.
abbrev again : ℕ → Event → ℕ → ℕ × List Call
again t v w = (suc w, add 3 1 v.payload ∷ [])

abbrev two_calls : List Call
two_calls = add 1 1 7 ∷ add 6 1 8 ∷ []

abbrev two_events : Engine
two_events = perform_all two_calls (init 0 0)

init-IsValid : IsValid (init 0 0)
unfolding init reschedule perform_all
init-IsValid = record { now = λ j h. tt; later = tt; sorted = tt; small = ground arith }

two_events-IsValid : IsValid two_events
unfolding init perform_all reschedule
two_events-IsValid = perform_all-IsValid two_calls (ground arith, (ground arith, tt)) init-IsValid

two_events-some : HasEvent two_events
unfolding current_events_empty init reschedule perform perform_all add_event insert
two_events-some = refl

advance-Advanced_example : (e' : Engine) × (advance two_events ≡ ok e') × Advanced two_events e'
advance-Advanced_example = advance-Advanced two_events-IsValid two_events-some

perform_all-IsValid_example : IsValid (perform_all (add 2 1 0 ∷ quit ∷ add 9 1 1 ∷ []) two_events)
unfolding init reschedule perform perform_all add_event insert
perform_all-IsValid_example =
    perform_all-IsValid (add 2 1 0 ∷ quit ∷ add 9 1 1 ∷ []) (ground arith, (ground arith, tt))
      two_events-IsValid

-- A condition on the result of a step, which holds of every result that the step has.
abbrev Holds : {A : Type 0} → (A → Type 0) → Result A → Type 0
Holds P (ok a) = P a
Holds P (fault e) = Unit

from_result : {A : Type 0} (P : A → Type 0) (m : Result A) → Holds P m → (b : A) → m ≡ ok b → P b
from_result P m p b k = subst (Holds P) k p

two_events-fit : RunFits again 2 two_events 0
unfolding current_events_empty init reschedule perform perform_all add_event insert next_event
    advance scan refill jump take_front due after_due execute
two_events-fit v e' next =
    from_result
      (λ (p : Event × Engine).
        let (e'', w', calls) = execute again p.0 p.1 0 in
        Fits p.1.timestamp calls × RunFits again 1 (perform_all calls e'') w')
      (next_event two_events)
      (
        (ground arith, tt),
        λ v' e'' next'.
            from_result
              (λ (p : Event × Engine).
                let (_, w', calls) = execute again p.0 p.1 1 in Fits p.1.timestamp calls × Unit {0})
              _ ((ground arith, tt), tt) (v', e'') next',
      )
      (v, e') next

run-InOrder_example :
    (trace : List (ℕ × Event)) × (last : Engine) × (w' : ℕ) × (run again 2 two_events 0
      ≡ ok (trace, last, w'))
    × InOrder two_events.timestamp trace
    × IsValid last
run-InOrder_example = run-InOrder again 2 two_events 0 two_events-IsValid two_events-fit
