-- ===== src/Bank/Selection.antt =====
-- `Bank::selectNextRequest` (Bank.cpp).
use mathlib.Core.Path.{subst}
use hmmsim_server.Prelude.{
  ℕ, ◌+◌, ◌≡◌, refl, sym, ap, Bool, true, false, [], ◌∷◌, Option, none, some, ◌==◌, arith,
}
use hmmsim_server.Prelude.Results.{Result, ok, assert, ◌>>◌}
use hmmsim_server.RequestQueue.{Request, Requests, Queue, is_empty, rest_of}
use hmmsim_server.RequestQueue.Counts.{
  one, count, count_in, count_in-rest_of, rest_of-NoneEmpty, Took, take_first-Took,
}
use hmmsim_server.Bank.{
  Bank, State, closed, opening, open_clean, open_dirty, closing, row_of, is_none, take_front,
  take_hit, select_from, select_in, select_next_request,
}
use hmmsim_server.Bank.Protocol.{held, count_current}
use hmmsim_server.Bank.Rows.{Settled}

abbrev pub may_select : State → Bool
may_select closed = true
may_select closing = true
may_select open_clean = true
may_select open_dirty = true
may_select opening = false

-- What a selection without a fault leaves: a request of the queue as the current one, or an empty queue.
pub record Selected (b b' : Bank) (queued : ℕ) (before : ℕ → ℕ) : Type 0 where
  pub settled : Settled b' queued before
  pub state : b'.state ≡ b.state
  pub nothing : b'.current ≡ none → is_empty b'.queue ≡ true
  pub something : is_empty b.queue ≡ false → (r : Request) × (b'.current ≡ some r)

abbrev pub Selects : Bank → ℕ → (ℕ → ℕ) → Result Bank → Type 0
Selects b queued before result = (b' : Bank) × (result ≡ ok b') × Selected b b' queued before

module _ {b : Bank} {queued : ℕ} {before : ℕ → ℕ} (s : Settled b queued before)
    (idle : b.current ≡ none) where
  take-Selects :
      (p : ℕ) (rs : Requests) (q : Queue) (r : Request) (rest : Requests)
      → b.queue ≡ (p, rs) ∷ q
      → ((x : ℕ) → count x rs ≡ one x r + count x rest)
      → Selects b queued before (ok (record b { current = some r; queue = rest_of p rest q }))
  unfolding held count_in
  take-Selects p rs q r rest here counted =
      let lists = s.lists in
      let lists' = rw here at lists in
      (
        _,
        refl,
        record {
          settled = record {
            fits = s.fits;
            drained = s.drained;
            noted = s.noted;
            lists = rest_of-NoneEmpty p rest q lists'.1;
            kept = λ x. omega (
              arith,
              s.kept x,
              ap (count_current x) idle,
              ap (count_in x) here,
              counted x,
              count_in-rest_of x p rest q,
            );
          };
          state = refl;
          nothing = λ h. cc;
          something = λ h. (r, refl);
        },
      )

  front-Selects :
      (p : ℕ) (rs : Requests) (q : Queue)
      → b.queue ≡ (p, rs) ∷ q
      → is_empty rs ≡ false
      → Selects b queued before (take_front b p rs q)
  unfolding count
  front-Selects p [] q here some' = cc
  front-Selects p (r ∷ rs) q here some' = take-Selects p (r ∷ rs) q r rs here (λ x. refl)

  hit-Selects :
      (p : ℕ) (rs : Requests) (q : Queue) (test : Request → Bool)
      (found : Option (Request × Requests))
      → b.queue ≡ (p, rs) ∷ q
      → is_empty rs ≡ false
      → Took test rs found
      → Selects b queued before (take_hit b p rs q found)
  hit-Selects p rs q test none here some' took = front-Selects p rs q here some'
  hit-Selects p rs q test (some (r, rest)) here some' took = take-Selects p rs q r rest here took.1

  from-Selects :
      (state : State) (p : ℕ) (rs : Requests) (q : Queue)
      → may_select state ≡ true
      → b.queue ≡ (p, rs) ∷ q
      → is_empty rs ≡ false
      → Selects b queued before (select_from state b p rs q)
  unfolding select_from
  from-Selects closed p rs q may here some' = front-Selects p rs q here some'
  from-Selects closing p rs q may here some' = front-Selects p rs q here some'
  from-Selects opening p rs q may here some' = cc
  from-Selects open_clean p rs q may here some' =
      hit-Selects p rs q _ _ here some' (take_first-Took (λ r. row_of b.config r == b.row) rs)
  from-Selects open_dirty p rs q may here some' =
      hit-Selects p rs q _ _ here some' (take_first-Took (λ r. row_of b.config r == b.row) rs)

  in-Selects :
      (q : Queue)
      → may_select b.state ≡ true
      → b.queue ≡ q
      → Selects b queued before (select_in b q)
  in-Selects [] may here = (
    b,
    refl,
    record {
      settled = s;
      state = refl;
      nothing = λ h. ap is_empty here;
      something = λ h. cc (ap is_empty here);
    },
  )
  in-Selects ((p, rs) ∷ q) may here =
      let lists = s.lists in
      let lists' = rw here at lists in from-Selects b.state p rs q may here lists'.0

  pub select_next_request-Selects :
      may_select b.state ≡ true → Selects b queued before (select_next_request b)
  unfolding select_next_request
  select_next_request-Selects may =
      subst (Selects b queued before)
        (sym (ap (λ c. assert (is_none c) >> select_in b b.queue) idle))
        (in-Selects b.queue may refl)
