-- ===== src/Migration/Base/Completion.antt =====
-- `complete` and `rollback` of `BaseMigrationPolicy` (Migration.cpp).
use native.Mathlib.Nat.{zero-add}
use hmmsim_server.Prelude.{
  ℕ, ◌+◌, ◌≡◌, refl, ◌∙◌, Option, none, List, [], ◌∷◌, length, get_elem?, arith,
}
use hmmsim_server.Migration.Base.{
  Base, ProgressEntry, fewest_blocks, longest_time, page_at, complete, rollback,
}

fewest_blocks-end :
    (es : List ProgressEntry) (min_blocks pit : ℕ) (min_pit : Option ℕ)
    → (fewest_blocks min_blocks pit min_pit es).1 ≡ pit + length es
unfolding fewest_blocks
fewest_blocks-end [] min_blocks pit min_pit = omega arith
fewest_blocks-end (e ∷ es) min_blocks pit min_pit = fewest_blocks-end es _ (pit + 1) _ ∙ omega arith

longest_time-end :
    (es : List ProgressEntry) (timestamp max_time pit : ℕ) (max_pit : Option ℕ)
    → (longest_time timestamp max_time pit max_pit es).1 ≡ pit + length es
unfolding longest_time
longest_time-end [] timestamp max_time pit max_pit = omega arith
longest_time-end (e ∷ es) timestamp max_time pit max_pit =
    longest_time-end es timestamp _ (pit + 1) _ ∙ omega arith

get_elem?-length : (es : List ProgressEntry) → get_elem? es (length es) ≡ none
get_elem?-length [] = refl
get_elem?-length (e ∷ es) = get_elem?-length es

page_at-end : (es : List ProgressEntry) → page_at (0 + length es) es ≡ none
unfolding page_at
page_at-end es = rw (zero-add (length es), page_at, get_elem?-length es)

-- `complete` returns no page, whatever migrations are in progress and however few blocks they have
-- left: after its loop the iterator that it tests is always `end()`.
pub complete-none : (b : Base) → complete b ≡ none
unfolding complete
complete-none b =
    rw (fewest_blocks-end b.progress b.complete_threshold 0 none) (page_at-end b.progress)

-- `rollback` returns no page, at any time and whatever migrations are in progress: after its loop the
-- iterator that it tests is always `end()`.
pub rollback-none : (timestamp : ℕ) (b : Base) → rollback timestamp b ≡ none
unfolding rollback
rollback-none timestamp b =
    rw (longest_time-end b.progress timestamp b.rollback_timeout 0 none) (page_at-end b.progress)
