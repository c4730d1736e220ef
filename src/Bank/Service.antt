-- ===== src/Bank/Service.antt =====
-- `Bank::changeState` (Bank.cpp), where it is called with nothing on its way but what the protocol
-- has.
use hmmsim_server.Prelude.{
  ℕ, ◌+◌, ◌≡◌, refl, ap, ◌∙◌, true, false, [], ◌∷◌, Option, none, some, if◌then◌else◌, arith,
}
use hmmsim_server.Prelude.Results.{Result, ok, fault, deref, ◌>>=◌}
use hmmsim_server.RequestQueue.{Request, Requests, is_empty}
use hmmsim_server.RequestQueue.Counts.{count, NoneEmpty}
use hmmsim_server.Bank.{
  Bank, State, closed, opening, open_clean, open_dirty, closing, Moment, Outcome, is_open,
  select_next_request, open_row, start_access, serve_selected, serve_next, serve, finish, reopen,
  after_closing, change_state_in,
}
use hmmsim_server.Bank.Protocol.{
  Safe, Safe-eq, ColumnsFit, Flow, held, count_current, bank_events, transfers, queue_events, done,
  IsValid-at,
}
use hmmsim_server.Bank.Rows.{
  Settled, Phase-open, open_row-Safe, start-Safe, serve_selected-Safe, done-append_completed,
  events-append_completed,
}
use hmmsim_server.Bank.Selection.{may_select, Selected, select_next_request-Selects}

finish-Safe :
    (old : Option Request) (o : Outcome) (events moves queued : ℕ) (before : ℕ → ℕ)
    → Safe o events moves queued before
    → Safe (finish old o) events moves queued (λ x. before x + count_current x old)
unfolding count_current
finish-Safe none (ok (b, acts)) events moves queued before (v, kept) =
    (v, λ x. omega (arith, kept x))
finish-Safe (some r) (ok (b, acts)) events moves queued before (v, kept) =
    let (e, t, q) = events-append_completed acts r in
    (
      IsValid-at v (ap (λ (n : ℕ). events + n) e) (ap (λ (n : ℕ). moves + n) t)
          (ap (λ (n : ℕ). queued + n) q),
      λ x. omega (arith, kept x, done-append_completed x acts r),
    )
finish-Safe old (fault e) events moves queued before h = absurd h

pub Safe-before :
    (o : Outcome) (events moves queued : ℕ) {before before' : ℕ → ℕ}
    → ((x : ℕ) → before x ≡ before' x)
    → Safe o events moves queued before
    → Safe o events moves queued before'
Safe-before (ok (b, acts)) events moves queued same (v, kept) = (v, λ x. kept x ∙ same x)
Safe-before (fault e) events moves queued same h = absurd h

open_may_select : (state : State) → is_open state ≡ true → may_select state ≡ true
open_may_select open_clean h = refl
open_may_select open_dirty h = refl
open_may_select closed h = cc
open_may_select opening h = cc
open_may_select closing h = cc

-- A bank between two requests, with its pipeline empty.
module _ (m : Moment) {b : Bank} {queued : ℕ} (s : Settled b queued (λ x. held x b)) where
  select_and_serve :
      is_open b.state ≡ true
      → b.current ≡ none
      → Safe
          (do b' ← select_next_request b; serve_selected m b'.current b')
          0
          0
          queued
          (λ x. held x b)
  select_and_serve opened idle =
      let (b', run, sel) = select_next_request-Selects s idle (open_may_select b.state opened) in
      Safe-eq 0 0 queued (λ x. held x b)
        (ap (λ (r : Result Bank). r >>= λ b'. serve_selected m b'.current b') run)
        (serve_selected-Safe sel.settled m b'.current (ap is_open sel.state ∙ opened) refl
          sel.nothing)

  pub closed-Safe :
      b.current ≡ none
      → is_empty b.queue ≡ false
      → b.state ≡ closed
      → Safe (change_state_in closed m b) 0 0 queued (λ x. held x b)
  unfolding change_state_in
  closed-Safe idle waiting is_closed =
      let (b', run, sel) = select_next_request-Selects s idle (ap may_select is_closed) in
      let (r, chosen) = sel.something waiting in
      Safe-eq 0 0 queued (λ x. held x b)
        (ap (λ (r : Result Bank). r >>= λ b'. deref b'.current >>= λ r. open_row r b') run
          ∙ ap (λ (c : Option Request). deref c >>= λ r. open_row r b') chosen)
        (open_row-Safe sel.settled r chosen)

  reopen-Safe :
      {b' : Bank} (chosen : Option Request)
      → Selected b b' queued (λ x. held x b)
      → b'.current ≡ chosen
      → Safe (reopen chosen b') 0 0 queued (λ x. held x b)
  unfolding bank_events transfers queue_events done held
  reopen-Safe (some r) sel chosen = open_row-Safe sel.settled r chosen
  reopen-Safe none sel chosen = (
    record {
      phase = rw (chosen, sel.settled.drained, sel.nothing chosen) (refl, refl);
      noted = omega (arith, sel.settled.noted);
      lists = sel.settled.lists;
      fits = sel.settled.fits;
    },
    λ x. omega (arith, sel.settled.kept x),
  )

  pub closing-Safe :
      (current : Option Request)
      → b.current ≡ current
      → b.state ≡ closing
      → Safe (after_closing current b) 0 0 queued (λ x. held x b)
  closing-Safe (some r) chosen is_closing = open_row-Safe s r chosen
  closing-Safe none idle is_closing =
      let (b', run, sel) = select_next_request-Selects s idle (ap may_select is_closing) in
      Safe-eq 0 0 queued (λ x. held x b)
        (ap (λ (r : Result Bank). r >>= λ b'. reopen b'.current b') run)
        (reopen-Safe b'.current sel refl)

module _ (m : Moment) (b : Bank) {queued : ℕ} (fits : ColumnsFit b.config)
    (noted : queued ≡ (if is_empty b.notifications then 0 else 1)) (lists : NoneEmpty b.queue) where
  Settled-without :
      b.pipeline ≡ []
      → Settled (record b { current = none }) queued (λ x. held x (record b { current = none }))
  Settled-without drained = record {
    fits = fits;
    drained = drained;
    noted = noted;
    lists = lists;
    kept = λ x. refl;
  }

  pub opening-Safe :
      (r : Request)
      → b.current ≡ some r
      → b.pipeline ≡ []
      → Safe (change_state_in opening m b) 0 0 queued (λ x. held x b)
  unfolding change_state_in held
  opening-Safe r chosen drained =
      let s : Settled (record b { state = open_clean }) queued (λ x. held x b) = record {
        fits = fits;
        drained = drained;
        noted = noted;
        lists = lists;
        kept = λ x. refl;
      } in
      Safe-eq 0 0 queued (λ x. held x b)
        (ap
          (λ (c : Option Request).
            deref c >>= λ r. start_access m r (record b { state = open_clean }))
          chosen)
        (start-Safe s m r refl chosen)

  serve_last :
      (old : Option Request)
      → is_open b.state ≡ true
      → b.pipeline ≡ []
      → Safe
          (finish old (serve_next m b.pipeline (record b { current = none })))
          0
          0
          queued
          (λ x. held x (record b { current = none }) + count_current x old)
  serve_last old opened drained =
      finish-Safe old _ 0 0 queued (λ x. held x (record b { current = none }))
        (Safe-eq 0 0 queued (λ x. held x (record b { current = none }))
          (ap (λ ps. serve_next m ps (record b { current = none })) drained)
          (select_and_serve m (Settled-without drained) opened refl))

  serve_piped :
      (old : Option Request) (r : Request) (rs : Requests) (events moves : ℕ)
      → is_open b.state ≡ true
      → b.pipeline ≡ r ∷ rs
      → Flow r rs events moves
      → Safe
          (finish old (serve_next m b.pipeline (record b { current = none })))
          events
          moves
          queued
          (λ x. held x (record b { current = none }) + count_current x old)
  unfolding bank_events transfers queue_events done held count_current count
  serve_piped old r rs events moves opened piped flow =
      finish-Safe old _ events moves queued (λ x. held x (record b { current = none }))
        (Safe-eq events moves queued (λ x. held x (record b { current = none }))
          (ap (λ ps. serve_next m ps (record b { current = none })) piped)
          (
            record {
              phase =
                  Phase-open b.state (some r) rs _ _ _ opened
                    (flow.0, omega (arith, flow.1), λ h. omega (arith, flow.2 h));
              noted = omega (arith, noted);
              lists = lists;
              fits = fits;
            },
            λ x. omega (arith, ap (count x) piped),
          ))

  -- The requests that the bank holds, with the current one.
  with_current :
      (x : ℕ) → held x (record b { current = none }) + count_current x b.current ≡ held x b
  unfolding held count_current
  with_current x = omega arith

  pub serve_last-Safe :
      is_open b.state ≡ true → b.pipeline ≡ [] → Safe (serve m b) 0 0 queued (λ x. held x b)
  unfolding serve
  serve_last-Safe opened drained =
      Safe-before _ 0 0 queued with_current (serve_last b.current opened drained)

  pub serve_piped-Safe :
      (r : Request) (rs : Requests) (events moves : ℕ)
      → is_open b.state ≡ true
      → b.pipeline ≡ r ∷ rs
      → Flow r rs events moves
      → Safe (serve m b) events moves queued (λ x. held x b)
  unfolding serve
  serve_piped-Safe r rs events moves opened piped flow =
      Safe-before _ events moves queued with_current
        (serve_piped b.current r rs events moves opened piped flow)
