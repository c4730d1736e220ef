-- ===== src/Migration/TwoLru/Migrate.antt =====
-- `OldTwoLRUMigrationPolicy::selectPage` (Migration.cpp) under the test of the base class.
use hmmsim_server.Prelude.{
  ℕ, ◌≡◌, ◌≢◌, refl, ◌∙◌, inl, inr, true, false, Bool-cases, Option, none, some, [], ◌∷◌,
  is_positive, is_nonpositive, arith,
}
use hmmsim_server.Prelude.Results.{Result, ok}
use hmmsim_server.Migration.Base.{dram_first}
use hmmsim_server.Migration.OldBase.Counting.{migrate-cases}
use hmmsim_server.Migration.Store.{Entry, Nodes, last}
use hmmsim_server.Migration.TwoLru.{TwoLru, dram_list, pcm_list, select_page, migrate}
use hmmsim_server.Migration.TwoLru.Invariant.{IsValid, demote-IsValid, promote_first-IsValid}

-- `migrate` finds a page where it demotes and one where it promotes.
abbrev pub HasPage : TwoLru → Type 0
HasPage s =
    (is_nonpositive s.base.dram_pages_left ≡ true → s.store.lists dram_list ≢ [])
    × (is_nonpositive s.base.dram_pages_left ≡ false → s.store.lists pcm_list ≢ [])

last-some : (q : Nodes ℕ) → q ≢ [] → (i : ℕ) × (e : Entry ℕ) × (last q ≡ some (i, e))
unfolding last
last-some [] h = absurd (h refl)
last-some ((i, e) ∷ []) h = (i, e, refl)
last-some ((i, e) ∷ n ∷ q) h = last-some (n ∷ q) (λ p. cc)

Nodes-cases :
    (q : Nodes ℕ) → q ≢ [] → (i : ℕ) × (e : Entry ℕ) × (rest : Nodes ℕ) × (q ≡ (i, e) ∷ rest)
Nodes-cases [] h = absurd (h refl)
Nodes-cases ((i, e) ∷ q) h = (i, e, q, refl)

abbrev Goes : Result (Option (ℕ × ℕ) × TwoLru) → Type 0
Goes m = (r : Option (ℕ × ℕ)) × (s' : TwoLru) × (m ≡ ok (r, s')) × IsValid s'

select_page-IsValid :
    {s : TwoLru}
    → IsValid s
    → HasPage s
    → (s.base.policy ≡ dram_first → s.base.dram_full ≡ true)
    → Goes (select_page s)
unfolding select_page
select_page-IsValid {s} v h full = elim (Bool-cases (is_nonpositive s.base.dram_pages_left)) [
  | inl down ↦
      let (i, e, at_end) = last-some (s.store.lists dram_list) (h.0 down) in
      let (s', run, v', _, _) = demote-IsValid i e v down at_end in
      (some (0, e.addr), s', rw down run, v')
  | inr up ↦
      let (i, e, rest, at_front) = Nodes-cases (s.store.lists pcm_list) (h.1 up) in
      let positive : is_positive s.base.dram_pages_left ≡ true = ground arith in
      let (r, s', run, v') = promote_first-IsValid i e rest v positive full at_front in
      (r, s', rw (up, at_front) run, v')
]

-- Where the policy of one process is in step, and has a page in its DRAM list if no DRAM page is left
-- and one in its PCM list otherwise, `migrate` fails no assertion and follows no dangling iterator, and
-- leaves the policy in step.
pub migrate-IsValid : {s : TwoLru} → IsValid s → HasPage s → Goes (migrate s)
unfolding migrate
migrate-IsValid {s} v h = elim (migrate-cases s.base select_page s) [
  | inl (selects, full) ↦
      let (r, s', run, v') = select_page-IsValid v h full in (r, s', selects ∙ run, v')
  | inr stays ↦ (none, s, stays, v)
]
