-- ===== src/RequestQueue/Counts.antt =====
-- How often a request waits at a bank (`Bank::Queue`, include/Bank.H), and what the operations on the
-- map of requests do to that.
use mathlib.Core.Path.{subst}
use hmmsim_server.Prelude.{
  ℕ, ◌+◌, ◌≡◌, Bool, true, false, [], ◌∷◌, ◌++◌, Option, none, some, ltb, ◌==◌, if◌then◌else◌,
  arith, refl, inl, inr, Bool-cases, All, if_true, if_false, sym,
}
use hmmsim_server.RequestQueue.{Request, Requests, Queue, is_empty, push, rest_of, take_first, keep}

-- One if a request is the one asked for.
abbrev pub one : ℕ → Request → ℕ
one x r = if r.id == x then 1 else 0

unfoldable pub count : ℕ → Requests → ℕ
count x [] = 0
count x (r ∷ rs) = one x r + count x rs

unfoldable pub count_in : ℕ → Queue → ℕ
unfolding count
count_in x [] = 0
count_in x ((p, rs) ∷ q) = count x rs + count_in x q

-- No list of the map is empty.
abbrev pub NoneEmpty : Queue → Type 0
NoneEmpty = All (λ entry. is_empty entry.1 ≡ false)

pub count-append : (x : ℕ) (rs ts : Requests) → count x (rs ++ ts) ≡ count x rs + count x ts
unfolding count
count-append x [] ts = omega arith
count-append x (r ∷ rs) ts = omega (arith, count-append x rs ts)

append_one : (rs : Requests) (r : Request) → is_empty (rs ++ r ∷ []) ≡ false
append_one [] r = refl
append_one (t ∷ rs) r = refl

pub count_in-push :
    (x : ℕ) (r : Request) (q : Queue) → count_in x (push r q) ≡ one x r + count_in x q
unfolding push count_in
count_in-push x r [] = omega arith
count_in-push x r ((p, rs) ∷ q) = ground (arith, count-append x rs (r ∷ []), count_in-push x r q)

pub push-NoneEmpty : (r : Request) (q : Queue) → NoneEmpty q → NoneEmpty (push r q)
unfolding push
push-NoneEmpty r [] h = (refl, tt)
push-NoneEmpty r ((p, rs) ∷ q) h = elim (Bool-cases (r.priority == p)) [
  | inl same ↦ rw same (append_one rs r, h.1)
  | inr other ↦ elim (Bool-cases (ltb r.priority p)) [
    | inl before ↦ rw (other, before) (refl, h)
    | inr after ↦ rw (other, after) (h.0, push-NoneEmpty r q h.1)
  ]
]

pub is_empty-push : (r : Request) (q : Queue) → is_empty (push r q) ≡ false
unfolding push
is_empty-push r [] = refl
is_empty-push r ((p, rs) ∷ q) = ground arith

pub count_in-rest_of :
    (x p : ℕ) (rs : Requests) (q : Queue) → count_in x (rest_of p rs q) ≡ count x rs + count_in x q
unfolding count_in
count_in-rest_of x p [] q = omega arith
count_in-rest_of x p (r ∷ rs) q = refl

pub rest_of-NoneEmpty :
    (p : ℕ) (rs : Requests) (q : Queue) → NoneEmpty q → NoneEmpty (rest_of p rs q)
rest_of-NoneEmpty p [] q h = h
rest_of-NoneEmpty p (r ∷ rs) q h = (refl, h)

-- What is taken passes the test, and was in the list.
abbrev pub Took : (Request → Bool) → Requests → Option (Request × Requests) → Type 0
Took test rs none = Unit
Took test rs (some (r, rest)) = (test r ≡ true) × ((x : ℕ) → count x rs ≡ one x r + count x rest)

keep-Took :
    (test : Request → Bool) (t : Request) (rs : Requests) (o : Option (Request × Requests))
    → Took test rs o
    → Took test (t ∷ rs) (keep t o)
unfolding count
keep-Took test t rs none h = tt
keep-Took test t rs (some (r, rest)) h = (h.0, λ x. omega (arith, h.1 x))

pub take_first-Took : (test : Request → Bool) (rs : Requests) → Took test rs (take_first test rs)
unfolding take_first count
take_first-Took test [] = tt
take_first-Took test (t ∷ rs) = elim (Bool-cases (test t)) [
  | inl passes ↦ subst (Took test (t ∷ rs)) (sym (if_true _ _ passes)) (passes, λ x. refl)
  | inr fails ↦
      subst (Took test (t ∷ rs)) (sym (if_false _ _ fails))
        (keep-Took test t rs (take_first test rs) (take_first-Took test rs))
]
