-- ===== src/Bank/System.antt =====
-- A `Bank` (Bank.cpp) with its engine, its bus and its memory: any access, and any event or transfer that
-- is on its way, in any order.
use hmmsim_server.Prelude.{ℕ, suc, ◌+◌, ◌≡◌, refl, sym, List, arith}
use hmmsim_server.Prelude.Results.{ok, fault}
use hmmsim_server.RequestQueue.{Request}
use hmmsim_server.RequestQueue.Counts.{one}
use hmmsim_server.Bank.{Bank, Moment, Action, Outcome}
use hmmsim_server.Bank.Events.{on_bank, on_queue, on_pipeline, process, transfer_completed, access}
use hmmsim_server.Bank.Protocol.{
  IsValid, Safe, held, bank_events, transfers, queue_events, done, IsValid-at,
}
use hmmsim_server.Bank.Handlers.{process_bank-Safe, transfer_completed-Safe}
use hmmsim_server.Bank.Accesses.{process_queue-Safe, access-Safe}
use hmmsim_server.Bank.Pipeline.{process_pipeline-Safe}

-- The bank, what is on its way to it, and how often each request came and was completed.
pub record System : Type 0 where
  pub bank : Bank
  pub events : ℕ
  pub moves : ℕ
  pub queued : ℕ
  pub came : ℕ → ℕ
  pub went : ℕ → ℕ

-- What a call does to all this.
abbrev pub after : System → Bank → List Action → System
after s b acts = record {
  bank = b;
  events = s.events + bank_events acts;
  moves = s.moves + transfers acts;
  queued = s.queued + queue_events acts;
  came = s.came;
  went = λ x. s.went x + done x acts;
}

-- What may happen: an access at any time; a bank event, a queue event or a transfer that is on its way; a
-- pipeline event at any time.
pub data Input (s : System) : Type 0 where
  accessed : Request → Input s
  bank_fires : (n : ℕ) → s.events ≡ suc n → Input s
  queue_fires : (n : ℕ) → s.queued ≡ suc n → Input s
  bus_done : (n : ℕ) → s.moves ≡ suc n → Input s
  pipeline_fires : Input s

-- The state that a call starts from: what fires is on its way no more, and what comes has come.
abbrev pub taken : (s : System) → Input s → System
taken s (accessed r) = record s { came = λ x. s.came x + one x r }
taken s (bank_fires n h) = record s { events = n }
taken s (queue_fires n h) = record s { queued = n }
taken s (bus_done n h) = record s { moves = n }
taken s pipeline_fires = s

-- The call that an input is.
abbrev pub call : Moment → (s : System) → Input s → Outcome
call m s (accessed r) = access m r s.bank
call m s (bank_fires n h) = process m on_bank s.bank
call m s (queue_fires n h) = process m on_queue s.bank
call m s (bus_done n h) = transfer_completed m s.bank
call m s pipeline_fires = process m on_pipeline s.bank

-- The events and the transfers on their way are those that the state of the bank asks for, and each
-- request that came is held or was completed, as often as it came.
pub record InStep (s : System) : Type 0 where
  pub valid : IsValid s.bank s.events s.moves s.queued
  pub kept : (x : ℕ) → held x s.bank + s.went x ≡ s.came x

-- A call that returns leaves the next state.
abbrev pub Leads : System → Outcome → Type 0
Leads s o = (b : Bank) × (acts : List Action) × (o ≡ ok (b, acts)) × InStep (after s b acts)

leads :
    (s : System) (o : Outcome) (before : ℕ → ℕ)
    → Safe o s.events s.moves s.queued before
    → ((x : ℕ) → before x + s.went x ≡ s.came x)
    → Leads s o
leads s (ok (b, acts)) before (v, kept) balance =
    (b, acts, refl, record { valid = v; kept = λ x. omega (arith, kept x, balance x) })
leads s (fault e) before safe balance = absurd safe

-- In step, whatever may happen fails no assertion and leaves the bank in step: it is in no wrong state, and
-- no request is lost or completed twice.
pub call-InStep :
    (m : Moment) (s : System) (i : Input s) → InStep s → Leads (taken s i) (call m s i)
unfolding process
call-InStep m s (accessed r) v =
    leads (taken s (accessed r)) _ (λ x. held x s.bank + one x r) (access-Safe m s.bank r v.valid)
      (λ x. omega (arith, v.kept x))
call-InStep m s (bank_fires n h) v =
    leads (taken s (bank_fires n h)) _ (λ x. held x s.bank)
      (process_bank-Safe m s.bank v.valid.fits (IsValid-at v.valid (sym h) refl refl)) v.kept
call-InStep m s (queue_fires n h) v =
    leads (taken s (queue_fires n h)) _ (λ x. held x s.bank)
      (process_queue-Safe m s.bank (IsValid-at v.valid refl refl (sym h))) v.kept
call-InStep m s (bus_done n h) v =
    leads (taken s (bus_done n h)) _ (λ x. held x s.bank)
      (transfer_completed-Safe m s.bank v.valid.fits (IsValid-at v.valid refl (sym h) refl)) v.kept
call-InStep m s pipeline_fires v =
    leads s _ (λ x. held x s.bank) (process_pipeline-Safe m s.bank v.valid.fits v.valid) v.kept
