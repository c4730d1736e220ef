-- ===== src/Bank/Pipeline.antt =====
-- The pipeline of a `Bank` (Bank.cpp): the requests for the open row that ask for the bus before the
-- current one is done.
use mathlib.Core.Path.{subst}
use native.Mathlib.Nat.{add-zero}
use hmmsim_server.Prelude.{
  ℕ, suc, ◌≡◌, refl, sym, ap, true, ◌&&◌, [], ◌∷◌, ◌++◌, Option, none, some, length-append, All,
  All-append, ◌==◌, if_true, if_false, inl, inr, Bool-cases, arith,
}
use hmmsim_server.Prelude.Results.{ok, assert_pass}
use hmmsim_server.RequestQueue.{Request, Requests, Queue, is_empty, rest_of}
use hmmsim_server.RequestQueue.Counts.{
  count, count_in, Took, take_first-Took, count_in-rest_of, rest_of-NoneEmpty, count-append,
}
use hmmsim_server.Bank.{Bank, Moment, is_open, row_of}
use hmmsim_server.Bank.Events.{same_kind, previous, follows, join, extend, process_pipeline}
use hmmsim_server.Bank.Protocol.{
  IsValid, Safe, Safe-eq, ColumnsFit, OpenPhase, Flow, held, bank_events, transfers, queue_events,
  done, open_phase, start_access-Safe,
}
use hmmsim_server.Bank.Rows.{Phase-open}

-- Where nothing happens.
same-Safe :
    (b : Bank) {events moves queued : ℕ}
    → IsValid b events moves queued
    → Safe (ok (b, [])) events moves queued (λ x. held x b)
unfolding bank_events transfers queue_events done
same-Safe b v = (
  record {
    phase = rw (add-zero, add-zero) v.phase;
    noted = omega (arith, v.noted);
    lists = v.lists;
    fits = v.fits;
  },
  λ x. omega arith,
)

-- What follows the pipeline is of the kind of the current request.
same_kind-previous :
    (r t p : Request) (ps : Requests)
    → same_kind r p ≡ true
    → All (λ s. same_kind r s ≡ true) ps
    → same_kind (previous p ps) t ≡ true
    → same_kind r t ≡ true
same_kind-previous r t p [] same h k = ground arith
same_kind-previous r t p (s ∷ ps) same h k = same_kind-previous r t s ps h.0 h.1 k

module _ (m : Moment) (b : Bank) where
  join-Safe :
      (r : Request) (p : ℕ) (rs : Requests) (q : Queue) (found : Option (Request × Requests))
      {events moves queued : ℕ}
      → ColumnsFit b.config
      → IsValid b events moves queued
      → is_open b.state ≡ true
      → b.current ≡ some r
      → b.queue ≡ (p, rs) ∷ q
      → Took (follows b (previous r b.pipeline)) rs found
      → Safe (join m p q b found) events moves queued (λ x. held x b)
  unfolding held count count_in
  join-Safe r p rs q none fits v opened cu here took = same-Safe b v
  join-Safe r p rs q (some (t, rest)) {events} {moves} {queued} fits v opened cu here
        (test, counted) =
      let hit : (b.row == row_of b.config t) ≡ true = ground arith in
      let after : same_kind (previous r b.pipeline) t ≡ true = ground arith in
      let flow : Flow r b.pipeline events moves =
        subst (λ c. OpenPhase c b.pipeline (is_empty b.queue) events moves) cu
          (open_phase b.state b.current b.pipeline (is_empty b.queue) events moves opened
            v.phase) in
      let b' = record b { pipeline = b.pipeline ++ t ∷ []; queue = rest_of p rest q } in
      let lists = v.lists in
      let lists' = rw here at lists in
      let grown : Flow r (b.pipeline ++ t ∷ []) events (suc moves) = (
        All-append (λ s. same_kind r s ≡ true) b.pipeline (t ∷ []) flow.0
            (same_kind-previous r t r b.pipeline (ground arith) flow.0 after, tt),
        omega (arith, flow.1, length-append b.pipeline (t ∷ [])),
        flow.2,
      ) in
      Safe-eq events moves queued (λ x. held x b) (assert_pass _ hit)
        (start_access-Safe m t b' fits opened
          (record {
            phase = Phase-open b.state b.current _ _ events (suc moves) opened (
                subst
                  (λ c.
                    OpenPhase c (b.pipeline ++ t ∷ []) (is_empty (rest_of p rest q)) events
                      (suc moves))
                  (sym cu) grown);
            noted = v.noted;
            lists = rest_of-NoneEmpty p rest q lists'.1;
            fits = v.fits;
          })
          (λ x. omega (
            arith,
            counted x,
            count-append x b.pipeline (t ∷ []),
            count_in-rest_of x p rest q,
            ap (count_in x) here,
          )))

  extend-Safe :
      (r : Request) (q : Queue) {events moves queued : ℕ}
      → ColumnsFit b.config
      → IsValid b events moves queued
      → is_open b.state ≡ true
      → b.current ≡ some r
      → b.queue ≡ q
      → Safe (extend m r b q) events moves queued (λ x. held x b)
  extend-Safe r [] fits v opened cu here = same-Safe b v
  extend-Safe r ((p, rs) ∷ q) fits v opened cu here =
      join-Safe r p rs q _ fits v opened cu here
        (take_first-Took (follows b (previous r b.pipeline)) rs)

  pipeline_at :
      (current : Option Request) {events moves queued : ℕ}
      → ColumnsFit b.config
      → IsValid b events moves queued
      → b.current ≡ current
      → Safe (process_pipeline m current b) events moves queued (λ x. held x b)
  unfolding process_pipeline
  pipeline_at none fits v cu = same-Safe b v
  pipeline_at (some r) {events} {moves} {queued} fits v cu =
      elim (Bool-cases (is_open b.state && b.next_pipeline == m.timestamp)) [
        | inl now ↦
            Safe-eq events moves queued (λ x. held x b) (if_true _ _ now)
              (extend-Safe r b.queue fits v (ground arith) cu refl)
        | inr not_now ↦
            Safe-eq events moves queued (λ x. held x b) (if_false _ _ not_now) (same-Safe b v)
      ]

  pub process_pipeline-Safe :
      {events moves queued : ℕ}
      → ColumnsFit b.config
      → IsValid b events moves queued
      → Safe (process_pipeline m b.current b) events moves queued (λ x. held x b)
  process_pipeline-Safe fits v = pipeline_at b.current fits v refl
