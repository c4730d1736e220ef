-- ===== src/Counter/Ranges.antt =====
-- What `CounterTraceReader::getValue` (Counter.cpp) sums.
use hmmsim_server.Prelude.{
  ℕ, ◌+◌, ◌%◌, ◌≤◌, ◌<◌, ◌≡◌, refl, inl, inr, ◌&&◌, Bool-cases, [], ◌∷◌, length, All, All-map, ltb,
  leb, if◌then◌else◌, word, add64, arith,
}
use hmmsim_server.Counter.{Readings, find_key, value_or_zero, lower_bound, sum_range, value_between}

-- The readings are in the order of the map.
abbrev pub Ordered : Readings → Type 0
Ordered [] = Unit
Ordered ((k, row) ∷ m) = All (λ r. k < r.0) m × Ordered m

-- All that the readings of the range have for the key.
abbrev pub total_in : ℕ → ℕ → ℕ → Readings → ℕ
total_in lo hi key [] = 0
total_in lo hi key ((k, row) ∷ m) =
    (if leb lo k && ltb k hi then value_or_zero (find_key key row) else 0) + total_in lo hi key m

total_in-above : (lo hi key : ℕ) (m : Readings) → All (λ r. hi ≤ r.0) m → total_in lo hi key m ≡ 0
total_in-above lo hi key [] h = refl
total_in-above lo hi key ((k, row) ∷ m) h = ground (arith, total_in-above lo hi key m h.1)

length-lower_bound : (hi : ℕ) (m : Readings) → length (lower_bound hi m) ≤ length m
unfolding lower_bound
length-lower_bound hi [] = omega arith
length-lower_bound hi ((k, row) ∷ m) = ground (arith, length-lower_bound hi m)

-- The loop, from readings that are not below the start.
sum_range-total :
    (lo hi key : ℕ) (m : Readings) (value : ℕ)
    → Ordered m
    → All (λ r. lo ≤ r.0) m
    → value < word
    → sum_range key (length (lower_bound hi m)) m value ≡ (value + total_in lo hi key m) % word
unfolding sum_range lower_bound
sum_range-total lo hi key [] value ordered above fits = omega arith
sum_range-total lo hi key ((k, row) ∷ m) value ordered above fits = elim (Bool-cases (ltb k hi)) [
  | inl inside ↦
      let shorter = length-lower_bound hi m in
      let next = add64 value (value_or_zero (find_key key row)) in
      ground (arith, sum_range-total lo hi key m next ordered.1 above.1 (ground arith))
  | inr outside ↦
      let rest : All (λ r. hi ≤ r.0) m = All-map (λ r h. ground arith) m ordered.0 in
      ground (arith, total_in-above lo hi key m rest)
]

lower_bound-above : (lo : ℕ) (m : Readings) → Ordered m → All (λ r. lo ≤ r.0) (lower_bound lo m)
unfolding lower_bound
lower_bound-above lo [] ordered = tt
lower_bound-above lo ((k, row) ∷ m) ordered = elim (Bool-cases (ltb k lo)) [
  | inl below ↦ rw below (lower_bound-above lo m ordered.1)
  | inr here ↦ rw here (ground arith, All-map (λ r h. ground arith) m ordered.0)
]

lower_bound-Ordered : (lo : ℕ) (m : Readings) → Ordered m → Ordered (lower_bound lo m)
unfolding lower_bound
lower_bound-Ordered lo [] ordered = tt
lower_bound-Ordered lo ((k, row) ∷ m) ordered = elim (Bool-cases (ltb k lo)) [
  | inl below ↦ rw below (lower_bound-Ordered lo m ordered.1)
  | inr here ↦ rw here ordered
]

lower_bound-twice :
    (lo hi : ℕ) (m : Readings) → lo ≤ hi → lower_bound hi (lower_bound lo m) ≡ lower_bound hi m
unfolding lower_bound
lower_bound-twice lo hi [] h = refl
lower_bound-twice lo hi ((k, row) ∷ m) h = ground (arith, lower_bound-twice lo hi m h)

total_in-lower_bound :
    (lo hi key : ℕ) (m : Readings) → total_in lo hi key (lower_bound lo m) ≡ total_in lo hi key m
unfolding lower_bound
total_in-lower_bound lo hi key [] = refl
total_in-lower_bound lo hi key ((k, row) ∷ m) = ground (arith, total_in-lower_bound lo hi key m)

-- For readings in order, the value of a key over a range that does not end before it starts is the sum
-- of what the readings from the start on and before the end have for the key, modulo 2 ^ 64.
pub value_between-total :
    (lo hi key : ℕ) (m : Readings)
    → Ordered m
    → lo ≤ hi
    → value_between lo hi key m ≡ total_in lo hi key m % word
unfolding value_between
value_between-total lo hi key m ordered h =
    let loop =
      sum_range-total lo hi key (lower_bound lo m) 0 (lower_bound-Ordered lo m ordered)
        (lower_bound-above lo m ordered) (ground arith) in
    let loop' = rw (lower_bound-twice lo hi m h, total_in-lower_bound lo hi key m) at loop in
    ground (arith, loop')
