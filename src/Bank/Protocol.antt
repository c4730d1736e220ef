-- ===== src/Bank/Protocol.antt =====
-- What a `Bank` (Bank.cpp) has to be called with: for each state, how many events of the engine and
-- transfers of the bus are on their way to it.
use mathlib.Core.Path.{subst}
use hmmsim_server.Prelude.{
  ℕ, suc, ◌+◌, ◌<◌, ◌≡◌, refl, Bool, true, List, [], ◌∷◌, Option, none, some, length, All,
  if◌then◌else◌, arith, lt→ltb, sym, ap, ◌∙◌, Bool-cases, if_true, if_false, inl, inr,
}
use hmmsim_server.Prelude.Results.{Result, ok, fault, ◌>>=◌}
use hmmsim_server.RequestQueue.{Request, Requests, is_empty}
use hmmsim_server.RequestQueue.Counts.{one, count, count_in, NoneEmpty}
use hmmsim_server.Bank.{
  Config, Bank, State, closed, opening, open_clean, open_dirty, closing, Moment, Action, bank_event,
  queue_event, pipeline_event, transfer, completed, Outcome, column_of, is_open, is_dirty,
  set_dirty, start_access,
}
use hmmsim_server.Bank.Events.{same_kind}

-- The bank events, the transfers and the queue events that a list of actions asks for.
unfoldable pub bank_events : List Action → ℕ
bank_events [] = 0
bank_events (bank_event d ∷ acts) = suc (bank_events acts)
bank_events (queue_event d ∷ acts) = bank_events acts
bank_events (pipeline_event d ∷ acts) = bank_events acts
bank_events (transfer d ∷ acts) = bank_events acts
bank_events (completed r ∷ acts) = bank_events acts

unfoldable pub transfers : List Action → ℕ
transfers [] = 0
transfers (bank_event d ∷ acts) = transfers acts
transfers (queue_event d ∷ acts) = transfers acts
transfers (pipeline_event d ∷ acts) = transfers acts
transfers (transfer d ∷ acts) = suc (transfers acts)
transfers (completed r ∷ acts) = transfers acts

unfoldable pub queue_events : List Action → ℕ
queue_events [] = 0
queue_events (bank_event d ∷ acts) = queue_events acts
queue_events (queue_event d ∷ acts) = suc (queue_events acts)
queue_events (pipeline_event d ∷ acts) = queue_events acts
queue_events (transfer d ∷ acts) = queue_events acts
queue_events (completed r ∷ acts) = queue_events acts

-- How often a request is completed.
unfoldable pub done : ℕ → List Action → ℕ
done x [] = 0
done x (bank_event d ∷ acts) = done x acts
done x (queue_event d ∷ acts) = done x acts
done x (pipeline_event d ∷ acts) = done x acts
done x (transfer d ∷ acts) = done x acts
done x (completed r ∷ acts) = one x r + done x acts

-- The current request and those of the pipeline all read, and each has a transfer on its way; or all
-- write, and each has a transfer or, after it, a bank event on its way.
abbrev pub Flow : Request → Requests → ℕ → ℕ → Type 0
Flow r ps events moves =
    All (λ p. same_kind r p ≡ true) ps
    × (events + moves ≡ suc (length ps))
    × (r.read ≡ true → events ≡ 0)

-- A bank that rests: it is woken if there is a request.
abbrev pub Rest : Bool → ℕ → ℕ → Type 0
Rest empty events moves = (events ≡ (if empty then 0 else 1)) × (moves ≡ 0)

-- A bank that opens or closes a row.
abbrev pub Change : ℕ → ℕ → Type 0
Change events moves = (events ≡ 1) × (moves ≡ 0)

abbrev pub OpenPhase : Option Request → Requests → Bool → ℕ → ℕ → Type 0
OpenPhase none [] empty events moves = Rest empty events moves
OpenPhase none (p ∷ ps) empty events moves = ⊥
OpenPhase (some r) ps empty events moves = Flow r ps events moves

abbrev pub Phase : State → Option Request → Requests → Bool → ℕ → ℕ → Type 0
Phase closed none [] empty events moves = Rest empty events moves
Phase closed none (p ∷ ps) empty events moves = ⊥
Phase closed (some r) ps empty events moves = ⊥
Phase opening none ps empty events moves = ⊥
Phase opening (some r) [] empty events moves = Change events moves
Phase opening (some r) (p ∷ ps) empty events moves = ⊥
Phase closing current [] empty events moves = Change events moves
Phase closing current (p ∷ ps) empty events moves = ⊥
Phase open_clean current ps empty events moves = OpenPhase current ps empty events moves
Phase open_dirty current ps empty events moves = OpenPhase current ps empty events moves

-- A bank whose columns fit the set of the dirty ones.
abbrev pub ColumnsFit : Config → Type 0
ColumnsFit c = (r : Request) → column_of c r < 64

-- A bank with what is on its way to it.
pub record IsValid (b : Bank) (events moves queued : ℕ) : Type 0 where
  pub phase : Phase b.state b.current b.pipeline (is_empty b.queue) events moves
  pub noted : queued ≡ (if is_empty b.notifications then 0 else 1)
  pub lists : NoneEmpty b.queue
  pub fits : ColumnsFit b.config

unfoldable pub count_current : ℕ → Option Request → ℕ
count_current x none = 0
count_current x (some r) = one x r

-- How often a bank holds a request.
unfoldable pub held : ℕ → Bank → ℕ
unfolding count_current
held x b =
    count_current x b.current + count x b.pipeline + count_in x b.queue + count x b.notifications

-- A call that fails no assertion, with what it leaves to come: the bank is valid, and of the requests that
-- the bank held, each is held still or completed.
abbrev pub Safe : Outcome → ℕ → ℕ → ℕ → (ℕ → ℕ) → Type 0
Safe (fault e) events moves queued before = ⊥
Safe (ok (b, acts)) events moves queued before =
    IsValid b (events + bank_events acts) (moves + transfers acts) (queued + queue_events acts)
    × ((x : ℕ) → held x b + done x acts ≡ before x)

set_dirty_lem : (c : ℕ) (ds : List ℕ) → c < 64 → (ds' : List ℕ) × (set_dirty c ds ≡ ok ds')
unfolding set_dirty
set_dirty_lem c ds fits = (if is_dirty c ds then ds else c ∷ ds, rw (lt→ltb c 64 fits) refl)

pub Safe-eq :
    (events moves queued : ℕ) (before : ℕ → ℕ) {o o' : Outcome}
    → o ≡ o'
    → Safe o' events moves queued before
    → Safe o events moves queued before
Safe-eq events moves queued before e safe =
    subst (λ o. Safe o events moves queued before) (sym e) safe

-- The same bank, with the same counts written otherwise.
pub IsValid-at :
    {b : Bank} {events events' moves moves' queued queued' : ℕ}
    → IsValid b events moves queued
    → events' ≡ events
    → moves' ≡ moves
    → queued' ≡ queued
    → IsValid b events' moves' queued'
IsValid-at v e m q = rw (e, m, q) v

pub open_phase :
    (state : State) (current : Option Request) (ps : Requests) (empty : Bool) (events moves : ℕ)
    → is_open state ≡ true
    → Phase state current ps empty events moves
    → OpenPhase current ps empty events moves
open_phase open_clean current ps empty events moves h p = p
open_phase open_dirty current ps empty events moves h p = p
open_phase closed current ps empty events moves h p = cc
open_phase opening current ps empty events moves h p = cc
open_phase closing current ps empty events moves h p = cc

-- An access for the current request, or for one that has joined the pipeline: one more transfer is on
-- its way.
pub start_access-Safe :
    (m : Moment) (r : Request) (b : Bank) {events moves queued : ℕ} {before : ℕ → ℕ}
    → ColumnsFit b.config
    → is_open b.state ≡ true
    → IsValid b events (suc moves) queued
    → ((x : ℕ) → held x b ≡ before x)
    → Safe (start_access m r b) events moves queued before
unfolding start_access bank_events transfers queue_events done held
start_access-Safe m r b {events} {moves} {queued} {before} fits is_open v same =
    elim (Bool-cases r.read) [
      | inl reads ↦ Safe-eq events moves queued before (if_true _ _ reads) (
        record {
          phase = (IsValid-at v (omega arith) (omega arith) refl).phase;
          noted = omega (arith, v.noted);
          lists = v.lists;
          fits = v.fits;
        },
        λ x. omega (arith, same x),
      )
      | inr writes ↦
          let (dirty, set) = set_dirty_lem (column_of b.config r) b.dirty (fits r) in
          Safe-eq events moves queued before
            (if_false _ _ writes
              ∙ ap
                  (λ (d : Result (List ℕ)). d >>= λ dirty.
                    ok (record b { state = open_dirty; dirty = dirty }, transfer 0 ∷ []))
                  set)
            (
              record {
                phase =
                    open_phase b.state b.current b.pipeline (is_empty b.queue) _ _ is_open
                      (IsValid-at v (omega arith) (omega arith) refl).phase;
                noted = omega (arith, v.noted);
                lists = v.lists;
                fits = v.fits;
              },
              λ x. omega (arith, same x),
            )
    ]
