-- ===== src/Bank/Reach.antt =====
-- Every state that a `Bank` (Bank.cpp) comes to from its construction.
use hmmsim_server.Prelude.{
  ℕ, zero, suc, if◌then◌else◌, ◌+◌, ◌<◌, ◌≡◌, refl, sym, ◌∙◌, Bool, false, [], ◌∷◌, List, Option,
  none, some, inl, inr, arith, ◌⊎◌,
}
use hmmsim_server.Prelude.Results.{ok_inj, ok}
use hmmsim_server.RequestQueue.{Request, Requests, Queue, is_empty}
use hmmsim_server.RequestQueue.Counts.{count, count_in}
use hmmsim_server.Bank.{
  Config, Bank, State, closed, opening, open_clean, open_dirty, closing, Moment, Action,
}
use hmmsim_server.Bank.Protocol.{OpenPhase, ColumnsFit, Phase, held, count_current}
use hmmsim_server.Bank.System.{System, after, Input, taken, call, InStep, Leads, call-InStep}
use mathlib.Core.Path.{subst}

-- A new bank: nothing is on its way, and nothing came.
unfoldable pub new : Config → System
new c = record {
  bank = record {
    config = c;
    state = closed;
    row = 0;
    current = none;
    pipeline = [];
    next_pipeline = 0;
    queue = [];
    dirty = [];
    notifications = [];
  };
  events = 0;
  moves = 0;
  queued = 0;
  came = λ x. 0;
  went = λ x. 0;
}

new-InStep : (c : Config) → ColumnsFit c → InStep (new c)
unfolding new held count count_in count_current
new-InStep c fits = record {
  valid = record { phase = (refl, refl); noted = refl; lists = tt; fits = fits };
  kept = λ x. refl;
}

-- The states that a bank comes to, at any times and with any delays that the bus grants.
pub data Reach (c : Config) : System → Type 0 where
  start : Reach c (new c)
  next :
      {s t : System}
      → Reach c s
      → (m : Moment) (i : Input s) (b : Bank) (acts : List Action) → call m s i ≡ ok (b, acts)
      → t ≡ after (taken s i) b acts
      → Reach c t

reach-InStep : (c : Config) {s : System} → ColumnsFit c → Reach c s → InStep s
reach-InStep c fits start = new-InStep c fits
reach-InStep c fits (next {s} {t} r m i b acts run here) =
    let (b', acts', run', v) = call-InStep m s i (reach-InStep c fits r) in
    let same = ok_inj (sym run ∙ run') in
    rw here (subst (λ p. InStep (after (taken s i) p.0 p.1)) (sym same) v)

-- A bank whose addresses have columns below 64 comes, from its construction, by any accesses, events
-- and bus transfers in any order, at any times and with any delays, only to states from which every
-- such call fails no assertion. After the call, the events and transfers on their way to the bank
-- are again those that its state asks for, and each request that came is held once for every time
-- that it came and was not completed.
pub reach-Leads :
    (c : Config) (m : Moment) {s : System} (i : Input s)
    → ColumnsFit c
    → Reach c s
    → Leads (taken s i) (call m s i)
reach-Leads c m {s} i fits r = call-InStep m s i (reach-InStep c fits r)

open_busy :
    (current : Option Request) (ps : Requests) (empty : Bool) (events moves x : ℕ)
    → OpenPhase current ps empty events moves
    → 0 < count_current x current + count x ps + (if empty then 0 else 1)
    → 0 < events + moves
unfolding count_current count
open_busy none [] empty events moves x (rest, still) h = ground arith
open_busy none (p ∷ ps) empty events moves x h g = absurd h
open_busy (some r) ps empty events moves x (kind, sum, reads) g = omega arith

-- A bank that holds a request has something on its way: the request will be served, or the bank is woken.
Phase-busy :
    (state : State) (current : Option Request) (ps : Requests) (empty : Bool) (events moves x : ℕ)
    → Phase state current ps empty events moves
    → 0 < count_current x current + count x ps + (if empty then 0 else 1)
    → 0 < events + moves
unfolding count_current count
Phase-busy closed none [] empty events moves x (rest, still) h = ground arith
Phase-busy closed none (p ∷ ps) empty events moves x h g = absurd h
Phase-busy closed (some r) ps empty events moves x h g = absurd h
Phase-busy opening none ps empty events moves x h g = absurd h
Phase-busy opening (some r) [] empty events moves x (one_event, still) g = omega arith
Phase-busy opening (some r) (p ∷ ps) empty events moves x h g = absurd h
Phase-busy closing current [] empty events moves x (one_event, still) g = omega arith
Phase-busy closing current (p ∷ ps) empty events moves x h g = absurd h
Phase-busy open_clean current ps empty events moves x h g =
    open_busy current ps empty events moves x h g
Phase-busy open_dirty current ps empty events moves x h g =
    open_busy current ps empty events moves x h g

zero_or_pos : (n : ℕ) → (n ≡ 0) ⊎ (0 < n)
zero_or_pos zero = inl refl
zero_or_pos (suc n) = inr (omega arith)

counted_somewhere : (x : ℕ) (q : Queue) → 0 < count_in x q → is_empty q ≡ false
unfolding count_in
counted_somewhere x [] h = absurd (omega arith)
counted_somewhere x (e ∷ q) h = refl

noted_somewhere : (x : ℕ) (rs : Requests) → 0 < count x rs → is_empty rs ≡ false
unfolding count
noted_somewhere x [] h = absurd (omega arith)
noted_somewhere x (r ∷ rs) h = refl

-- In every state that a bank comes to, where its addresses have columns below 64: if a request came
-- more often than it was completed, an event or a transfer is on its way to the bank, so that it is
-- never left waiting for nothing.
pub reach-busy :
    (c : Config) (x : ℕ) {s : System}
    → ColumnsFit c
    → Reach c s
    → s.went x < s.came x
    → 0 < s.events + s.moves + s.queued
unfolding held
reach-busy c x {s} fits r waits =
    let v = reach-InStep c fits r in
    let b = s.bank in
    let served =
      Phase-busy b.state b.current b.pipeline (is_empty b.queue) s.events s.moves x v.valid.phase in
    elim (zero_or_pos (count x b.notifications)) [
      | inr noted ↦
          let some' = noted_somewhere x b.notifications noted in
          ground (arith, v.valid.noted, some')
      | inl quiet ↦ elim (zero_or_pos (count_in x b.queue)) [
        | inr waiting ↦
            let some' = counted_somewhere x b.queue waiting in
            omega (arith, served (ground (arith, some')))
        | inl empty ↦ omega (arith, served (omega (arith, v.kept x)))
      ]
    ]
