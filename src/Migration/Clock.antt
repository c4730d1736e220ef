-- ===== src/Migration/Clock.antt =====
-- The clock of `OldDoubleClockMigrationPolicy` and `OldFirstTouchMigrationPolicy` (Migration.cpp): a
-- list of pages with a reference bit, and a hand that goes round it.
pub mod Sweep
pub mod Victim
pub mod Turn
pub mod Chance
use hmmsim_server.Prelude.{
  ℕ, zero, suc, Bool, true, false, Option, none, some, List, [], ◌∷◌, if◌then◌else◌,
}
use hmmsim_server.Prelude.Results.{Result, ok, fault, endless, deref, ◌>>=◌}
use hmmsim_server.Migration.Store.{Entry, Nodes, find, update, begin, next}

-- `++it; if (it == queue.end()) it = queue.begin();`
unfoldable pub go_round : ℕ → Nodes Bool → Option ℕ
go_round i q = elim (next i q) [ none ↦ begin q | some j ↦ some j ]

-- The loop of `selectPage` that clears reference bits, with fuel: the list, and the node at which the
-- hand stops.
unfoldable pub sweep : ℕ → Nodes Bool → Option ℕ → Result (Nodes Bool × ℕ × Entry Bool)
sweep zero q hand = fault endless
sweep (suc fuel) q hand = do
  i ← deref hand
  e ← deref (find i q)
  let cleared = update i (λ _. false) q
  let rest = sweep fuel cleared (go_round i cleared)
  if e.body then rest else ok (q, i, e)

-- `it = queue.erase(it)` and the `if` behind it: the list before and after.
unfoldable pub after_erase : ℕ → Nodes Bool → Nodes Bool → Option ℕ
after_erase i q q' = elim (next i q) [ none ↦ begin q' | some j ↦ some j ]
