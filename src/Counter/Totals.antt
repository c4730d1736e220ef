-- ===== src/Counter/Totals.antt =====
-- The total of a `Counter` (Counter.cpp) over additions and resets.
use hmmsim_server.Prelude.{ℕ, ◌+◌, ◌%◌, ◌≡◌, List, [], ◌∷◌, word, arith}
use hmmsim_server.Counter.{Counter, add, reset, get_total_value}

pub data Operation : Type 0 where
  adds : ℕ → Operation
  resets : Operation

abbrev pub operate : List Operation → Counter → Counter
operate [] c = c
operate (adds n ∷ os) c = operate os (add n c).0
operate (resets ∷ os) c = operate os (reset c)

abbrev pub added : List Operation → ℕ
added [] = 0
added (adds n ∷ os) = n + added os
added (resets ∷ os) = added os

total-add : (n : ℕ) (c : Counter) → get_total_value (add n c).0 ≡ (get_total_value c + n) % word
unfolding add get_total_value
total-add n c = omega arith

total-reset : (c : Counter) → get_total_value (reset c) ≡ get_total_value c
unfolding reset get_total_value
total-reset c = omega arith

-- However additions and resets come in turn, the total of the counter is its total before them and all
-- that was added, modulo 2 ^ 64.
pub operate-total :
    (os : List Operation) (c : Counter)
    → get_total_value (operate os c) % word ≡ (get_total_value c + added os) % word
operate-total [] c = omega arith
operate-total (adds n ∷ os) c = omega (arith, operate-total os (add n c).0, total-add n c)
operate-total (resets ∷ os) c = omega (arith, operate-total os (reset c), total-reset c)
