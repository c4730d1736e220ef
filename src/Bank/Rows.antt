-- ===== src/Bank/Rows.antt =====
-- The steps of `Bank::changeState` (Bank.cpp) that open, close or keep a row.
use hmmsim_server.Prelude.{
  ℕ, ◌+◌, ◌≡◌, refl, Bool, true, [], ◌∷◌, ◌++◌, List, Option, none, some, ◌==◌, if◌then◌else◌,
  if_true, if_false, inl, inr, Bool-cases, arith,
}
use hmmsim_server.Prelude.Results.{ok}
use hmmsim_server.RequestQueue.{Request, Requests, is_empty}
use hmmsim_server.RequestQueue.Counts.{one, NoneEmpty}
use hmmsim_server.Bank.{
  Bank, State, closed, opening, open_clean, open_dirty, closing, RowBufferPolicy, open_page,
  closed_page, MemoryType, destructive_reads, non_destructive_reads, Moment, Action, bank_event,
  queue_event, pipeline_event, transfer, completed, row_of, is_open, open_row, close_clean,
  close_dirty, miss, idle, serve_selected, start_access,
}
use hmmsim_server.Bank.Protocol.{
  Safe, Safe-eq, ColumnsFit, OpenPhase, Phase, held, bank_events, transfers, queue_events, done,
  start_access-Safe,
}

-- A bank with no pipeline, in the middle of a call: nothing is on its way but queue events.
pub record Settled (b : Bank) (queued : ℕ) (before : ℕ → ℕ) : Type 0 where
  pub fits : ColumnsFit b.config
  pub drained : b.pipeline ≡ []
  pub noted : queued ≡ (if is_empty b.notifications then 0 else 1)
  pub lists : NoneEmpty b.queue
  pub kept : (x : ℕ) → held x b ≡ before x

pub Phase-open :
    (state : State) (current : Option Request) (ps : Requests) (empty : Bool) (events moves : ℕ)
    → is_open state ≡ true
    → OpenPhase current ps empty events moves
    → Phase state current ps empty events moves
Phase-open open_clean current ps empty events moves h p = p
Phase-open open_dirty current ps empty events moves h p = p
Phase-open closed current ps empty events moves h p = cc
Phase-open opening current ps empty events moves h p = cc
Phase-open closing current ps empty events moves h p = cc

module _ {b : Bank} {queued : ℕ} {before : ℕ → ℕ} (s : Settled b queued before) where
  pub open_row-Safe : (r : Request) → b.current ≡ some r → Safe (open_row r b) 0 0 queued before
  unfolding open_row bank_events transfers queue_events done held
  open_row-Safe r chosen = (
    record {
      phase = rw (chosen, s.drained) (refl, refl);
      noted = omega (arith, s.noted);
      lists = s.lists;
      fits = s.fits;
    },
    λ x. omega (arith, s.kept x),
  )

  pub close_clean-Safe : Safe (close_clean b) 0 0 queued before
  unfolding bank_events transfers queue_events done held
  close_clean-Safe = (
    record {
      phase = rw s.drained (refl, refl);
      noted = omega (arith, s.noted);
      lists = s.lists;
      fits = s.fits;
    },
    λ x. omega (arith, s.kept x),
  )

  pub close_dirty-Safe : Safe (close_dirty b) 0 0 queued before
  unfolding close_dirty bank_events transfers queue_events done held
  close_dirty-Safe = (
    record {
      phase = rw s.drained (refl, refl);
      noted = omega (arith, s.noted);
      lists = s.lists;
      fits = s.fits;
    },
    λ x. omega (arith, s.kept x),
  )

  pub start-Safe :
      (m : Moment) (r : Request)
      → is_open b.state ≡ true
      → b.current ≡ some r
      → Safe (start_access m r b) 0 0 queued before
  start-Safe m r opened chosen =
      start_access-Safe m r b s.fits opened
        (record {
          phase =
              Phase-open b.state b.current b.pipeline _ 0 1 opened
                (rw (chosen, s.drained) (tt, refl, λ h. refl));
          noted = s.noted;
          lists = s.lists;
          fits = s.fits;
        })
        s.kept

  miss-Safe :
      (state : State) (type : MemoryType) (r : Request)
      → is_open state ≡ true
      → b.current ≡ some r
      → Safe (miss state type r b) 0 0 queued before
  unfolding miss
  miss-Safe open_dirty type r opened chosen = close_dirty-Safe
  miss-Safe open_clean destructive_reads r opened chosen = close_clean-Safe
  miss-Safe open_clean non_destructive_reads r opened chosen = open_row-Safe r chosen
  miss-Safe closed type r opened chosen = cc
  miss-Safe opening type r opened chosen = cc
  miss-Safe closing type r opened chosen = cc

  -- The bank rests with its row open.
  rest-Safe :
      is_open b.state ≡ true
      → b.current ≡ none
      → is_empty b.queue ≡ true
      → Safe (ok (b, [])) 0 0 queued before
  unfolding bank_events transfers queue_events done held
  rest-Safe opened nothing empty = (
    record {
      phase =
          Phase-open b.state b.current b.pipeline _ 0 0 opened
            (rw (nothing, s.drained, empty) (refl, refl));
      noted = omega (arith, s.noted);
      lists = s.lists;
      fits = s.fits;
    },
    λ x. omega (arith, s.kept x),
  )

  idle-Safe :
      (state : State) (policy : RowBufferPolicy) (type : MemoryType)
      → is_open state ≡ true
      → Safe (ok (b, [])) 0 0 queued before
      → Safe (idle state policy type b) 0 0 queued before
  unfolding idle
  idle-Safe state open_page type opened rest = rest
  idle-Safe open_dirty closed_page type opened rest = close_dirty-Safe
  idle-Safe open_clean closed_page destructive_reads opened rest = close_clean-Safe
  idle-Safe open_clean closed_page non_destructive_reads opened rest = rest
  idle-Safe closed closed_page type opened rest = cc
  idle-Safe opening closed_page type opened rest = cc
  idle-Safe closing closed_page type opened rest = cc

  pub serve_selected-Safe :
      (m : Moment) (chosen : Option Request)
      → is_open b.state ≡ true
      → b.current ≡ chosen
      → (chosen ≡ none → is_empty b.queue ≡ true)
      → Safe (serve_selected m chosen b) 0 0 queued before
  unfolding serve_selected
  serve_selected-Safe m none opened chosen empty =
      idle-Safe b.state b.config.policy b.config.type opened (rest-Safe opened chosen (empty refl))
  serve_selected-Safe m (some r) opened chosen empty =
      elim (Bool-cases (b.row == row_of b.config r)) [
        | inl hit ↦ Safe-eq 0 0 queued before (if_true _ _ hit) (start-Safe m r opened chosen)
        | inr other ↦
            Safe-eq 0 0 queued before (if_false _ _ other)
              (miss-Safe b.state b.config.type r opened chosen)
      ]

-- A request that is completed at the end of a call.
pub done-append_completed :
    (x : ℕ) (acts : List Action) (r : Request)
    → done x (acts ++ completed r ∷ []) ≡ done x acts + one x r
unfolding done
done-append_completed x [] r = omega arith
done-append_completed x (bank_event d ∷ acts) r = done-append_completed x acts r
done-append_completed x (queue_event d ∷ acts) r = done-append_completed x acts r
done-append_completed x (pipeline_event d ∷ acts) r = done-append_completed x acts r
done-append_completed x (transfer d ∷ acts) r = done-append_completed x acts r
done-append_completed x (completed t ∷ acts) r = omega (arith, done-append_completed x acts r)

pub events-append_completed :
    (acts : List Action) (r : Request)
    → (bank_events (acts ++ completed r ∷ []) ≡ bank_events acts)
      × (transfers (acts ++ completed r ∷ []) ≡ transfers acts)
      × (queue_events (acts ++ completed r ∷ []) ≡ queue_events acts)
unfolding bank_events transfers queue_events
events-append_completed [] r = (refl, refl, refl)
events-append_completed (bank_event d ∷ acts) r = omega (arith, events-append_completed acts r)
events-append_completed (queue_event d ∷ acts) r = omega (arith, events-append_completed acts r)
events-append_completed (pipeline_event d ∷ acts) r = events-append_completed acts r
events-append_completed (transfer d ∷ acts) r = omega (arith, events-append_completed acts r)
events-append_completed (completed t ∷ acts) r = events-append_completed acts r
