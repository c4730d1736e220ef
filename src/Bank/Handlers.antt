-- ===== src/Bank/Handlers.antt =====
-- The events and the transfers that a `Bank` (Bank.cpp) waits for, each handled in a state that expects
-- it.
use hmmsim_server.Prelude.{
  ℕ, suc, ◌+◌, ◌≡◌, refl, ap, ◌∙◌, true, not, [], ◌∷◌, Option, none, some, length, All, All-map,
  if◌then◌else◌, if_true, if_false, inl, inr, Bool-cases, arith,
}
use hmmsim_server.Prelude.Results.{asserted, assert_pass, ◌>>=◌}
use hmmsim_server.RequestQueue.{Request, Requests, is_empty}
use hmmsim_server.RequestQueue.Counts.{NoneEmpty}
use hmmsim_server.Bank.{
  Bank, State, closed, opening, open_clean, open_dirty, closing, Moment, Outcome, is_open, is_none,
  serve, change_state, change_state_in,
}
use hmmsim_server.Bank.Events.{same_kind, wake_open, process_bank, transferred, transfer_completed}
use hmmsim_server.Bank.Protocol.{
  IsValid, Safe, Safe-eq, ColumnsFit, OpenPhase, Phase, Flow, held, bank_events, transfers,
  queue_events, done,
}
use hmmsim_server.Bank.Rows.{Settled, Phase-open}
use hmmsim_server.Bank.Service.{
  closed-Safe, closing-Safe, opening-Safe, serve_last-Safe, serve_piped-Safe,
}

-- Requests of the kind of one are of the kind of any of them.
same_kind_trans :
    (r p t : Request) → same_kind r p ≡ true → same_kind r t ≡ true → same_kind p t ≡ true
same_kind_trans r p t h k = ground arith

pub next-Flow :
    (r p : Request) (ps : Requests) (events moves : ℕ)
    → All (λ t. same_kind r t ≡ true) (p ∷ ps)
    → events + moves ≡ suc (length ps)
    → (r.read ≡ true → events ≡ 0)
    → Flow p ps events moves
next-Flow r p ps events moves kind sum reads =
    (All-map (λ t. same_kind_trans r p t kind.0) ps kind.1, sum, λ h. reads (ground arith))

at_zero :
    (o : Outcome) (events moves queued : ℕ) (before : ℕ → ℕ)
    → events ≡ 0
    → moves ≡ 0
    → Safe o 0 0 queued before
    → Safe o events moves queued before
at_zero o events moves queued before e t safe = rw (e, t) safe

change_open :
    (state : State) (m : Moment) (b : Bank)
    → is_open state ≡ true
    → change_state_in state m b ≡ serve m b
unfolding change_state_in
change_open open_clean m b h = refl
change_open open_dirty m b h = refl
change_open closed m b h = cc
change_open opening m b h = cc
change_open closing m b h = cc

module _ (m : Moment) (b : Bank) (fits : ColumnsFit b.config) where
  serve_open : is_open b.state ≡ true → change_state m b ≡ serve m b
  unfolding change_state
  serve_open opened = change_open b.state m b opened

  change_at : (state : State) → b.state ≡ state → change_state m b ≡ change_state_in state m b
  unfolding change_state
  change_at state here = ap (λ t. change_state_in t m b) here

  settled :
      {events moves queued : ℕ}
      → IsValid b events moves queued
      → b.pipeline ≡ []
      → Settled b queued (λ x. held x b)
  settled v drained = record {
    fits = fits;
    drained = drained;
    noted = v.noted;
    lists = v.lists;
    kept = λ x. refl;
  }

  -- The end of the current request: the next one is served.
  next-Safe :
      (r : Request) (ps : Requests) (events moves queued : ℕ)
      → queued ≡ (if is_empty b.notifications then 0 else 1)
      → NoneEmpty b.queue
      → is_open b.state ≡ true
      → b.pipeline ≡ ps
      → All (λ t. same_kind r t ≡ true) ps
      → events + moves ≡ length ps
      → (r.read ≡ true → events ≡ 0)
      → Safe (change_state m b) events moves queued (λ x. held x b)
  next-Safe r [] events moves queued noted lists opened here kind sum reads =
      at_zero _ events moves queued (λ x. held x b) (omega arith) (omega arith)
        (Safe-eq 0 0 queued (λ x. held x b) (serve_open opened)
          (serve_last-Safe m b fits noted lists opened here))
  next-Safe r (p ∷ ps) events moves queued noted lists opened here kind sum reads =
      Safe-eq events moves queued (λ x. held x b) (serve_open opened)
        (serve_piped-Safe m b fits noted lists p ps events moves opened here
          (next-Flow r p ps events moves kind sum reads))

  open_wake :
      (current : Option Request) (ps : Requests) {events moves queued : ℕ}
      → IsValid b (suc events) moves queued
      → is_open b.state ≡ true
      → b.current ≡ current
      → b.pipeline ≡ ps
      → OpenPhase current ps (is_empty b.queue) (suc events) moves
      → Safe (wake_open m current b) events moves queued (λ x. held x b)
  open_wake none [] {events} {moves} {queued} v opened cu pi (rest, still) =
      at_zero _ events moves queued (λ x. held x b) (ground arith) still
        (Safe-eq 0 0 queued (λ x. held x b) (serve_open opened)
          (serve_last-Safe m b fits v.noted v.lists opened pi))
  open_wake none (p ∷ ps) v opened cu pi h = absurd h
  open_wake (some r) ps {events} {moves} {queued} v opened cu pi (kind, sum, reads) =
      let writes : not r.read ≡ true = ground arith in
      Safe-eq events moves queued (λ x. held x b) (assert_pass (change_state m b) writes)
        (next-Safe r ps events moves queued v.noted v.lists opened pi kind (omega arith)
          (λ h. absurd (omega (arith, reads h))))

  bank_at :
      (state : State) (current : Option Request) (ps : Requests) {events moves queued : ℕ}
      → IsValid b (suc events) moves queued
      → b.state ≡ state
      → b.current ≡ current
      → b.pipeline ≡ ps
      → Phase state current ps (is_empty b.queue) (suc events) moves
      → Safe (process_bank m state b) events moves queued (λ x. held x b)
  unfolding process_bank change_state_in
  bank_at closed none [] {events} {moves} {queued} v st cu pi (rest, still) =
      at_zero _ events moves queued (λ x. held x b) (ground arith) still
        (Safe-eq 0 0 queued (λ x. held x b) (change_at closed st)
          (closed-Safe m (settled v pi) cu (ground arith) st))
  bank_at closed none (p ∷ ps) v st cu pi h = absurd h
  bank_at closed (some r) ps v st cu pi h = absurd h
  bank_at opening none ps v st cu pi h = absurd h
  bank_at opening (some r) [] {events} {moves} {queued} v st cu pi (one_event, still) =
      at_zero _ events moves queued (λ x. held x b) (omega arith) still
        (Safe-eq 0 0 queued (λ x. held x b)
          (assert_pass (change_state m b) (ap (λ c. not (is_none c)) cu) ∙ change_at opening st)
          (opening-Safe m b fits v.noted v.lists r cu pi))
  bank_at opening (some r) (p ∷ ps) v st cu pi h = absurd h
  bank_at closing current [] {events} {moves} {queued} v st cu pi (one_event, still) =
      at_zero _ events moves queued (λ x. held x b) (omega arith) still
        (Safe-eq 0 0 queued (λ x. held x b) (change_at closing st)
          (closing-Safe m (settled v pi) b.current refl st))
  bank_at closing current (p ∷ ps) v st cu pi h = absurd h
  bank_at open_clean current ps {events} {moves} {queued} v st cu pi h =
      Safe-eq events moves queued (λ x. held x b) (ap (λ c. wake_open m c b) cu)
        (open_wake current ps v (ap is_open st) cu pi h)
  bank_at open_dirty current ps {events} {moves} {queued} v st cu pi h =
      Safe-eq events moves queued (λ x. held x b) (ap (λ c. wake_open m c b) cu)
        (open_wake current ps v (ap is_open st) cu pi h)

  pub process_bank-Safe :
      {events moves queued : ℕ}
      → IsValid b (suc events) moves queued
      → Safe (process_bank m b.state b) events moves queued (λ x. held x b)
  process_bank-Safe v = bank_at b.state b.current b.pipeline v refl refl refl v.phase

  -- A transfer is completed: that of the current request.
  moved :
      (r : Request) (ps : Requests) {events moves queued : ℕ}
      → IsValid b events (suc moves) queued
      → is_open b.state ≡ true
      → b.current ≡ some r
      → b.pipeline ≡ ps
      → Flow r ps events (suc moves)
      → Safe (transferred m r b) events moves queued (λ x. held x b)
  unfolding bank_events transfers queue_events done held
  moved r ps {events} {moves} {queued} v opened cu pi (kind, sum, reads) =
      elim (Bool-cases r.read) [
        | inl read ↦
            Safe-eq events moves queued (λ x. held x b) (if_true _ _ read)
              (next-Safe r ps events moves queued v.noted v.lists opened pi kind (omega arith)
                reads)
        | inr write ↦
            Safe-eq events moves queued (λ x. held x b) (if_false _ _ write)
              (
                record {
                  phase =
                      Phase-open b.state b.current b.pipeline _ _ _ opened
                        (rw (cu, pi) (kind, omega arith, λ h. cc));
                  noted = omega (arith, v.noted);
                  lists = v.lists;
                  fits = v.fits;
                },
                λ x. omega arith,
              )
      ]

  open_moved :
      (current : Option Request) (ps : Requests) {events moves queued : ℕ}
      → IsValid b events (suc moves) queued
      → is_open b.state ≡ true
      → b.current ≡ current
      → b.pipeline ≡ ps
      → OpenPhase current ps (is_empty b.queue) events (suc moves)
      → Safe (transfer_completed m b) events moves queued (λ x. held x b)
  unfolding transfer_completed
  open_moved none [] v opened cu pi (rest, still) = absurd (omega arith)
  open_moved none (p ∷ ps) v opened cu pi h = absurd h
  open_moved (some r) ps {events} {moves} {queued} v opened cu pi h =
      Safe-eq events moves queued (λ x. held x b)
        (ap (λ (c : Option Request). asserted c >>= λ r. transferred m r b) cu)
        (moved r ps v opened cu pi h)

  transfer_at :
      (state : State) (current : Option Request) (ps : Requests) {events moves queued : ℕ}
      → IsValid b events (suc moves) queued
      → b.state ≡ state
      → b.current ≡ current
      → b.pipeline ≡ ps
      → Phase state current ps (is_empty b.queue) events (suc moves)
      → Safe (transfer_completed m b) events moves queued (λ x. held x b)
  transfer_at closed none [] v st cu pi (rest, still) = absurd (omega arith)
  transfer_at closed none (p ∷ ps) v st cu pi h = absurd h
  transfer_at closed (some r) ps v st cu pi h = absurd h
  transfer_at opening none ps v st cu pi h = absurd h
  transfer_at opening (some r) [] v st cu pi (one_event, still) = absurd (omega arith)
  transfer_at opening (some r) (p ∷ ps) v st cu pi h = absurd h
  transfer_at closing current [] v st cu pi (one_event, still) = absurd (omega arith)
  transfer_at closing current (p ∷ ps) v st cu pi h = absurd h
  transfer_at open_clean current ps v st cu pi h = open_moved current ps v (ap is_open st) cu pi h
  transfer_at open_dirty current ps v st cu pi h = open_moved current ps v (ap is_open st) cu pi h

  pub transfer_completed-Safe :
      {events moves queued : ℕ}
      → IsValid b events (suc moves) queued
      → Safe (transfer_completed m b) events moves queued (λ x. held x b)
  transfer_completed-Safe v = transfer_at b.state b.current b.pipeline v refl refl refl v.phase
