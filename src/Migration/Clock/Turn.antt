-- ===== src/Migration/Clock/Turn.antt =====
-- The order in which the hand of the clock (Migration.cpp) comes to the pages: a list from a node on, and from its
-- front up to there again.
use hmmsim_server.Prelude.{
  ℕ, ◌≡◌, refl, ◌∙◌, sym, ap, Bool, false, Option, none, some, [], ◌∷◌, ◌++◌, ◌==◌, if◌then◌else◌,
  All,
}
use mathlib.Core.Path.{subst}
use hmmsim_server.Migration.Store.{Entry, Nodes, find, update, begin, next}
use hmmsim_server.Migration.Store.Nodes.{Distinct}
use hmmsim_server.Migration.Store.Middle.{
  Distinct-middle, Distinct-entry, update-middle, find-middle, next-middle,
}
use hmmsim_server.Migration.Clock.{go_round}

-- The list from a node on, and up to it.
abbrev pub from_node : ℕ → Nodes Bool → Nodes Bool
from_node i [] = []
from_node i ((j, e) ∷ q) = if j == i then (j, e) ∷ q else from_node i q

abbrev pub up_to : ℕ → Nodes Bool → Nodes Bool
up_to i [] = []
up_to i ((j, e) ∷ q) = if j == i then [] else (j, e) ∷ up_to i q

-- A turn of the hand.
abbrev pub turn : Option ℕ → Nodes Bool → Nodes Bool
turn none q = []
turn (some i) q = from_node i q ++ up_to i q

-- The pages before the first one with the bit clear, and those from it on.
abbrev pub set_pages : Nodes Bool → Nodes Bool
set_pages [] = []
set_pages ((i, e) ∷ q) = if e.body then (i, e) ∷ set_pages q else []

abbrev pub clear_on : Nodes Bool → Nodes Bool
clear_on [] = []
clear_on ((i, e) ∷ q) = if e.body then clear_on q else (i, e) ∷ q

abbrev pub cleared : Nodes Bool → Nodes Bool
cleared [] = []
cleared ((i, e) ∷ q) = (i, record e { body = false }) ∷ cleared q

-- A turn from the first page with the bit clear, or from where it began if there is none; the bits that come before
-- are clear now.
abbrev pub second_chance : Nodes Bool → Nodes Bool
second_chance r = clear_on r ++ cleared (set_pages r)

pub append-none : (l : Nodes Bool) → l ++ [] ≡ l
append-none [] = refl
append-none (x ∷ l) = ap (λ l. x ∷ l) (append-none l)

pub append_assoc : (l m n : Nodes Bool) → (l ++ m) ++ n ≡ l ++ (m ++ n)
append_assoc [] m n = refl
append_assoc (x ∷ l) m n = ap (λ l. x ∷ l) (append_assoc l m n)

-- The hand is at a node of a list of distinct nodes, and a turn is `r`.
pub record At (i : ℕ) (q r : Nodes Bool) : Type 0 where
  pub before : Nodes Bool
  pub after : Nodes Bool
  pub entry : Entry Bool
  pub list : q ≡ before ++ (i, entry) ∷ after
  pub turned : r ≡ ((i, entry) ∷ after) ++ before
  pub distinct : Distinct q

abbrev pub clear : Bool → Bool
clear _ = false

go_round-middle :
    (a b : Nodes Bool) (i : ℕ) (e : Entry Bool)
    → find i a ≡ none
    → go_round i (a ++ (i, e) ∷ b)
      ≡ elim (begin b) [ none ↦ begin (a ++ (i, e) ∷ b) | some j ↦ some j ]
unfolding go_round
go_round-middle a b i e h =
    ap (λ o. elim o [ none ↦ begin (a ++ (i, e) ∷ b) | some j ↦ some j ]) (next-middle i e a b h)

-- `++it`, with the wrap at the end: the node is last in the turn then.
step :
    (a b : Nodes Bool) (i : ℕ) (e : Entry Bool)
    → Distinct (a ++ (i, e) ∷ b)
    → (k : ℕ) × (go_round i (a ++ (i, e) ∷ b) ≡ some k)
      × At k (a ++ (i, e) ∷ b) ((b ++ a) ++ (i, e) ∷ [])
unfolding begin find
step [] [] i e d = (
  i,
  go_round-middle [] [] i e refl,
  record { before = []; after = []; entry = e; list = refl; turned = refl; distinct = d },
)
step ((k, f) ∷ a) [] i e d =
    let (h, g) = Distinct-middle i e ((k, f) ∷ a) [] d in
    (
      k,
      go_round-middle ((k, f) ∷ a) [] i e h,
      record {
        before = [];
        after = a ++ (i, e) ∷ [];
        entry = f;
        list = refl;
        turned = sym (append-none _);
        distinct = d;
      },
    )
step a ((k, f) ∷ b) i e d =
    let (h, g) = Distinct-middle i e a ((k, f) ∷ b) d in
    (
      k,
      go_round-middle a ((k, f) ∷ b) i e h,
      record {
        before = a ++ (i, e) ∷ [];
        after = b;
        entry = f;
        list = sym (append_assoc a ((i, e) ∷ []) ((k, f) ∷ b));
        turned = append_assoc ((k, f) ∷ b) a ((i, e) ∷ []);
        distinct = d;
      },
    )

-- A page with the bit set is passed, and its bit is cleared.
pub At-step :
    (i : ℕ) (e : Entry Bool) (q r : Nodes Bool)
    → At i q ((i, e) ∷ r)
    → (k : ℕ) × (go_round i (update i clear q) ≡ some k)
      × At k (update i clear q) (r ++ (i, record e { body = false }) ∷ [])
At-step i e q r at =
    let (h, g) =
      Distinct-middle i at.entry at.before at.after (subst Distinct at.list at.distinct) in
    let same : at.entry ≡ e = cc in
    let rest : r ≡ at.after ++ at.before = cc in
    let passed : update i clear q ≡ at.before ++ (i, record e { body = false }) ∷ at.after =
      ap (update i clear) at.list
      ∙ update-middle i clear at.entry at.before at.after h g
      ∙ ap (λ e. at.before ++ (i, record e { body = false }) ∷ at.after) same in
    let (k, goes, next) =
      step at.before at.after i (record e { body = false })
        (Distinct-entry i at.entry (record e { body = false }) at.before at.after
          (subst Distinct at.list at.distinct)) in
    (
      k,
      ap (go_round i) passed ∙ goes,
      subst (λ r. At k (update i clear q) (r ++ (i, record e { body = false }) ∷ [])) (sym rest)
          (subst (λ q. At k q ((at.after ++ at.before) ++ (i, record e { body = false }) ∷ []))
            (sym passed) next),
    )

pub At-find :
    (i : ℕ) (q r : Nodes Bool)
    → At i q r
    → (e : Entry Bool) × (s : Nodes Bool) × (r ≡ (i, e) ∷ s) × (find i q ≡ some e)
At-find i q r at =
    let (h, g) =
      Distinct-middle i at.entry at.before at.after (subst Distinct at.list at.distinct) in
    (
      at.entry,
      at.after ++ at.before,
      at.turned,
      ap (find i) at.list ∙ find-middle i at.entry at.before at.after h,
    )

abbrev pub Clear : Nodes Bool → Type 0
Clear c = All (λ n. n.1.body ≡ false) c
