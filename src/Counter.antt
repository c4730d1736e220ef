-- ===== src/Counter.antt =====
-- `Counter`, `CycleCounter` and `CounterTraceReader` (Counter.cpp, include/Counter.H).
pub mod Totals
pub mod Ranges
use hmmsim_server.Prelude.{
  ℕ, ◌+◌, Bool, true, false, ◌&&◌, Option, none, some, List, [], ◌∷◌, length, ltb, leb, ◌==◌,
  if◌then◌else◌, add64, sub64,
}

-- `handled` says whether there is a handler.
pub record Counter : Type 0 where
  pub value : ℕ
  pub total_value : ℕ
  pub handled : Bool
  pub interrupt_value : ℕ

-- `add`, with whether the handler is called.
unfoldable pub add : ℕ → Counter → Counter × Bool
add amount c =
    let value = add64 c.value amount in
    (record c { value = value }, c.handled && leb c.interrupt_value value)

unfoldable pub reset : Counter → Counter
reset c = record c { total_value = add64 c.total_value c.value; value = 0 }

unfoldable pub set_interrupt : ℕ → Bool → Counter → Counter
set_interrupt value handled c = record c { handled = handled; interrupt_value = value }

-- `getTotalValue`
unfoldable pub get_total_value : Counter → ℕ
get_total_value c = add64 c.total_value c.value

-- `CycleCounter`: `reset` and `getValue` at a timestamp of the engine; the state is `lastCycleCount`.
unfoldable pub reset_cycles : ℕ → ℕ
reset_cycles timestamp = timestamp

unfoldable pub get_cycles : ℕ → ℕ → ℕ
get_cycles timestamp last_cycle_count = sub64 timestamp last_cycle_count

-- A line of the trace, `map<string, uint64>`; a key goes by a number here.
abbrev pub Row : Type 0
Row = List (ℕ × ℕ)

-- `mapa`, from numbers of instructions to lines, in the order of the map.
abbrev pub Readings : Type 0
Readings = List (ℕ × Row)

unfoldable pub find_key : ℕ → Row → Option ℕ
find_key key [] = none
find_key key ((k, v) ∷ row) = if k == key then some v else find_key key row

unfoldable pub find_reading : ℕ → Readings → Option Row
find_reading instr [] = none
find_reading instr ((k, row) ∷ m) = if k == instr then some row else find_reading instr m

abbrev pub value_or_zero : Option ℕ → ℕ
value_or_zero none = 0
value_or_zero (some v) = v

abbrev pub value_of : ℕ → Option Row → ℕ
value_of key none = 0
value_of key (some row) = value_or_zero (find_key key row)

-- `getValue(instr, key)`
unfoldable pub value_at : ℕ → ℕ → Readings → ℕ
value_at instr key m = value_of key (find_reading instr m)

-- `lower_bound`: the readings from the first that is not below.
unfoldable pub lower_bound : ℕ → Readings → Readings
lower_bound instr [] = []
lower_bound instr ((k, row) ∷ m) = if ltb k instr then lower_bound instr m else (k, row) ∷ m

-- The loop from `itStart` to `itEnd`, which is the place with `stop` readings from there on.
unfoldable pub sum_range : ℕ → ℕ → Readings → ℕ → ℕ
sum_range key stop [] value = value
sum_range key stop ((k, row) ∷ m) value =
    let later = sum_range key stop m (add64 value (value_or_zero (find_key key row))) in
    if length ((k, row) ∷ m) == stop then value else later

-- `getValue(instrStart, instrEnd, key)`
unfoldable pub value_between : ℕ → ℕ → ℕ → Readings → ℕ
value_between instr_start instr_end key m =
    if ltb instr_end instr_start
    then 0
    else sum_range key (length (lower_bound instr_end m)) (lower_bound instr_start m) 0
