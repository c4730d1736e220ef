-- ===== src/Bus/Spacing.antt =====
-- The distances between transfers on the bus (Bus.cpp).
use native.Mathlib.Decide.{dec_lt}
use mathlib.Core.Path.{subst}
use native.Mathlib.Nat.{le_refl}
use hmmsim_server.Prelude.{
  ℕ, suc, ◌+◌, ◌*◌, ◌≤◌, ◌<◌, ◌≡◌, refl, sym, ◌⊎◌, inl, inr, Bool, true, false, Option, none, some,
  [], ◌∷◌, length, All, All-map, word, add64, ltb, lt→ltb, not-lt→ltb, mul64, Bool-cases, ◌||◌,
  ◌==◌, if◌then◌else◌, arith,
}
use hmmsim_server.Bus.{Queue, lower_bound, emplace, settle}

-- Each transfer ends before the next one starts.
abbrev pub Spaced : ℕ → Queue → Type 0
Spaced latency [] = Unit
Spaced latency (e ∷ q) = All (λ f. e.0 + latency ≤ f.0) q × Spaced latency q

-- The caller of the transfer that starts at `k`.
abbrev pub caller_at : ℕ → Queue → Option ℕ
caller_at k [] = none
caller_at k ((s, c) ∷ q) = if k == s then some c else caller_at k q

-- A transfer from `k` on would not meet the transfer `e`.
abbrev pub Apart : ℕ → ℕ → ℕ × ℕ → Type 0
Apart latency k e = (e.0 + latency ≤ k) ⊎ (k + latency ≤ e.0)

module _ (latency k c : ℕ) (long : 0 < latency) where
  emplace-All : (P : ℕ × ℕ → Type 0) (q : Queue) → P (k, c) → All P q → All P (emplace k c q).0
  unfolding emplace
  emplace-All P [] p h = (p, tt)
  emplace-All P ((s, d) ∷ q) p h = ground (arith, emplace-All P q p h.1)

  pub emplace-new : (q : Queue) → All (Apart latency k) q → (emplace k c q).1 ≡ true
  unfolding emplace
  emplace-new [] h = refl
  emplace-new ((s, d) ∷ q) h = ground (arith, emplace-new q h.1)

  pub length-emplace :
      (q : Queue) → All (Apart latency k) q → length (emplace k c q).0 ≡ suc (length q)
  unfolding emplace
  length-emplace [] h = refl
  length-emplace ((s, d) ∷ q) h = ground (arith, length-emplace q h.1)

  pub caller_at-emplace :
      (q : Queue) → All (Apart latency k) q → caller_at k (emplace k c q).0 ≡ some c
  unfolding emplace
  caller_at-emplace [] h = ground arith
  caller_at-emplace ((s, d) ∷ q) h = ground (arith, caller_at-emplace q h.1)

  pub emplace-Spaced :
      (q : Queue) → All (Apart latency k) q → Spaced latency q → Spaced latency (emplace k c q).0
  unfolding emplace
  emplace-Spaced [] h s = (tt, tt)
  emplace-Spaced ((s, d) ∷ q) h p = elim (dec_lt k s) [
    | yes before ↦
        let fits : k + latency ≤ s = omega (arith, h.0) in
        let all : All (λ (f : ℕ × ℕ). k + latency ≤ f.0) q = All-map (λ f r. omega arith) q p.0 in
        ground arith
    | no after ↦
        let fits : s + latency ≤ k = omega (arith, h.0) in
        let all = emplace-All (λ f. s + latency ≤ f.0) q fits p.0 in
        let rest = emplace-Spaced q h.1 p.1 in ground arith
  ]

module _ (latency start s next c : ℕ) (q : Queue) where
  abbrev is_onward : Bool
  is_onward = ltb start (add64 s latency) || ltb next (add64 s (mul64 2 latency))

  settle-on :
      is_onward ≡ true → settle latency start s ((next, c) ∷ q) ≡ settle latency start next q
  unfolding settle
  settle-on h = rw h

  settle-stop : is_onward ≡ false → settle latency start s ((next, c) ∷ q) ≡ s
  unfolding settle
  settle-stop h = rw h

pub record Settled (latency s : ℕ) (q : Queue) (t : ℕ) : Type 0 where
  pub onward : s ≤ t
  pub fits : t + 2 * latency < word
  pub apart : All (Apart latency (t + latency)) q

-- What the loop settles on: not before its start, and a free slot follows it.
pub settle_lem :
    (latency start s : ℕ) (q : Queue)
    → 0 < latency
    → All (λ e. e.0 + 2 * latency < word) q
    → s + 2 * latency < word
    → All (λ e. s + latency ≤ e.0) q
    → Spaced latency q
    → Settled latency s q (settle latency start s q)
settle_lem latency start s [] long f g h p =
    unfold settle in record { onward = le_refl s; fits = g; apart = tt }
settle_lem latency start s ((next, c) ∷ q) long f g h p =
    elim (Bool-cases (is_onward latency start s next c q)) [
      | inl on ↦
          let r = settle_lem latency start next q long f.1 f.0 p.0 p.1 in
          subst (Settled latency s ((next, c) ∷ q)) (sym (settle-on latency start s next c q on))
            (record { onward = omega arith; fits = r.fits; apart = (inl (omega arith), r.apart) })
      | inr stop ↦
          let gap : s + 2 * latency ≤ next = ground arith in
          subst (Settled latency s ((next, c) ∷ q))
            (sym (settle-stop latency start s next c q stop))
            (record {
              onward = le_refl s;
              fits = g;
              apart = (
                inr (omega arith),
                All-map (λ e (r : next + latency ≤ e.0). inr (omega arith)) q p.0,
              );
            })
    ]

-- What `lower_bound` leaves out is below the key.
pub lower_bound-nil : (k : ℕ) (q : Queue) → lower_bound k q ≡ [] → All (λ e. e.0 < k) q
unfolding lower_bound
lower_bound-nil k [] h = tt
lower_bound-nil k ((s, c) ∷ q) h = ground (arith, lower_bound-nil k q)

-- The iterator that `lower_bound` returns and what is left out before it.
pub record Found (latency k : ℕ) (q : Queue) (s : ℕ) (later : Queue) : Type 0 where
  pub at_least : k ≤ s
  pub floor : (m : ℕ) → All (λ e. m ≤ e.0) q → m ≤ s
  pub fits : s + 2 * latency < word
  pub fit : All (λ e. e.0 + 2 * latency < word) later
  pub beyond : All (λ e. s + latency ≤ e.0) later
  pub spaced : Spaced latency later
  pub before :
      (t : ℕ)
      → s ≤ t
      → All (Apart latency (t + latency)) later
      → All (Apart latency (t + latency)) q

pub lower_bound-Found :
    (latency k : ℕ) (q : Queue) (s c : ℕ) (later : Queue)
    → All (λ e. e.0 + 2 * latency < word) q
    → Spaced latency q
    → lower_bound k q ≡ (s, c) ∷ later
    → Found latency k q s later
unfolding lower_bound
lower_bound-Found latency k [] s c later f p h = cc
lower_bound-Found latency k ((t, d) ∷ q) s c later f p h = elim (dec_lt t k) [
  | yes less ↦
      let r = lower_bound-Found latency k q s c later f.1 p.1 (rw (lt→ltb t k less) at h) in
      let gap : t + latency ≤ s = r.floor (t + latency) p.0 in
      record {
        at_least = r.at_least;
        floor = λ m a. r.floor m a.1;
        fits = r.fits;
        fit = r.fit;
        beyond = r.beyond;
        spaced = r.spaced;
        before = λ t' le a. (inl (omega arith), r.before t' le a);
      }
  | no more ↦
      let e : (t, d) ∷ q ≡ (s, c) ∷ later = rw (not-lt→ltb t k more) at h in
      let es : s ≡ t = cc in
      let el : later ≡ q = cc in
      rw (es, el)
        (record {
          at_least = omega arith;
          floor = λ m a. a.0;
          fits = f.0;
          fit = f.1;
          beyond = p.0;
          spaced = p.1;
          before = λ t' le a. (inl (omega arith), a);
        })
]
