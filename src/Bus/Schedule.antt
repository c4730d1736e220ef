-- ===== src/Bus/Schedule.antt =====
-- `Bus::schedule` (Bus.cpp): when a caller gets the bus.
use native.Mathlib.Nat.{le_refl}
use hmmsim_server.Prelude.{
  ℕ, suc, ◌+◌, ◌-◌, ◌*◌, ◌^◌, ◌≤◌, ◌<◌, ◌≡◌, refl, ◌⊎◌, inl, inr, some, [], ◌∷◌, length, All,
  All-map, word, add64, sub64, arith,
}
use hmmsim_server.Prelude.Results.{ok}
use hmmsim_server.Engine.{Call, add}
use hmmsim_server.Bus.{Bus, Queue, lower_bound, emplace, settle, grant, schedule}
use hmmsim_server.Bus.Spacing.{
  Spaced, caller_at, Apart, Settled, Found, emplace-new, length-emplace, caller_at-emplace,
  emplace-Spaced, settle_lem, lower_bound-nil, lower_bound-Found,
}

Queue-cases : (q : Queue) → (q ≡ []) ⊎ ((s : ℕ) × (c : ℕ) × (later : Queue) × (q ≡ (s, c) ∷ later))
Queue-cases [] = inl refl
Queue-cases ((s, c) ∷ q) = inr (s, c, q, refl)

-- The outcome of `schedule`: a delay that is at least the one asked for, the caller on the bus at the
-- time granted, one transfer more, none that meets another, and an event at the transfer's end.
pub record Scheduled (timestamp delay caller : ℕ) (b : Bus) (actual : ℕ) (b' : Bus) : Type 0 where
  pub returned :
      schedule timestamp delay caller b
      ≡ ok (actual, b', add (add64 actual b.latency) b.bus_handler 0)
  pub granted : delay ≤ actual
  pub held : caller_at (timestamp + actual) b'.queue ≡ some caller
  pub one_more : length b'.queue ≡ suc (length b.queue)
  pub spaced : Spaced b.latency b'.queue

module _ (timestamp delay caller : ℕ) (b : Bus) (long : 0 < b.latency)
    (after : b.latency ≤ timestamp + delay) (fits : timestamp + delay < word)
    (spaced : Spaced b.latency b.queue) where
  later_lem : (k : ℕ) → timestamp + delay ≤ k → timestamp + (k - timestamp) ≡ k
  later_lem k le = omega arith

  -- A slot that is free is granted.
  Scheduled-at :
      (k : ℕ)
      → timestamp + delay ≤ k
      → All (Apart b.latency k) b.queue
      → schedule timestamp delay caller b
        ≡ ok (
          k - timestamp,
          record b { queue = (emplace k caller b.queue).0 },
          add (add64 (k - timestamp) b.latency) b.bus_handler 0,
        )
      → Scheduled timestamp delay caller b
          (k - timestamp)
          (record b { queue = (emplace k caller b.queue).0 })
  Scheduled-at k le apart run = record {
    returned = run;
    granted = omega arith;
    held = rw (later_lem k le) (caller_at-emplace b.latency k caller long b.queue apart);
    one_more = length-emplace b.latency k caller long b.queue apart;
    spaced = emplace-Spaced b.latency k caller long b.queue apart spaced;
  }

  start_lem : add64 delay timestamp ≡ timestamp + delay
  start_lem = omega arith

  sooner : sub64 (timestamp + delay) b.latency ≡ timestamp + delay - b.latency
  sooner = omega arith

  wait_lem : (k : ℕ) → timestamp + delay ≤ k → k < word → sub64 k timestamp ≡ k - timestamp
  wait_lem k le lt = omega arith

  schedule-end :
      lower_bound (timestamp + delay - b.latency) b.queue ≡ []
      → Scheduled timestamp delay caller b
          (timestamp + delay - timestamp)
          (record b { queue = (emplace (timestamp + delay) caller b.queue).0 })
  schedule-end nothing =
      Scheduled-at (timestamp + delay) (le_refl _)
        (All-map (λ e (h : e.0 < timestamp + delay - b.latency). inl (omega arith)) b.queue
          (lower_bound-nil _ b.queue nothing))
        run
    where
      run :
          schedule timestamp delay caller b
          ≡ ok (
            timestamp + delay - timestamp,
            record b { queue = (emplace (timestamp + delay) caller b.queue).0 },
            add (add64 (timestamp + delay - timestamp) b.latency) b.bus_handler 0,
          )
      run =
          unfold schedule grant in
          rw (start_lem, sooner, nothing, wait_lem (timestamp + delay) (le_refl _) fits)

  schedule-found :
      (s c : ℕ) (later : Queue)
      → All (λ e. e.0 + 2 * b.latency < word) b.queue
      → lower_bound (timestamp + delay - b.latency) b.queue ≡ (s, c) ∷ later
      → (actual : ℕ) × (b' : Bus) × Scheduled timestamp delay caller b actual b'
  schedule-found s c later bound there = (k - timestamp, _, Scheduled-at k le apart run)
    where
      f : Found b.latency (timestamp + delay - b.latency) b.queue s later
      f = lower_bound-Found b.latency _ b.queue s c later bound spaced there

      t : ℕ
      t = settle b.latency (timestamp + delay) s later

      r : Settled b.latency s later t
      r = settle_lem b.latency (timestamp + delay) s later long f.fit f.fits f.beyond f.spaced

      k : ℕ
      k = t + b.latency

      le : timestamp + delay ≤ k
      le = omega (arith, f.at_least, r.onward)

      apart : All (Apart b.latency k) b.queue
      apart = f.before t r.onward r.apart

      free : add64 t b.latency ≡ k
      free = omega (arith, r.fits)

      run :
          schedule timestamp delay caller b
          ≡ ok (
            k - timestamp,
            record b { queue = (emplace k caller b.queue).0 },
            add (add64 (k - timestamp) b.latency) b.bus_handler 0,
          )
      run =
          unfold schedule grant in
          rw (
            start_lem,
            sooner,
            there,
            free,
            wait_lem k le (omega (arith, r.fits)),
            emplace-new b.latency k caller long b.queue apart,
          )

-- `schedule` finds a transfer a slot of its own, as `Scheduled` says, and asserts nothing false, where
-- the start asked for is at least one transfer after time 0, no addition wraps, and the transfers on
-- the bus do not meet.
pub schedule-Scheduled :
    (timestamp delay caller : ℕ) (b : Bus)
    → 0 < b.latency
    → b.latency ≤ timestamp + delay
    → timestamp + delay < word
    → All (λ e. e.0 + 2 * b.latency < word) b.queue
    → Spaced b.latency b.queue
    → (actual : ℕ) × (b' : Bus) × Scheduled timestamp delay caller b actual b'
schedule-Scheduled timestamp delay caller b long after fits bound spaced =
    elim (Queue-cases (lower_bound (timestamp + delay - b.latency) b.queue)) [
      | inl nothing ↦ (_, _, schedule-end timestamp delay caller b long after fits spaced nothing)
      | inr (s, c, later, there) ↦
          schedule-found timestamp delay caller b long after fits spaced s c later bound there
    ]

-- Two transfers asked for in turn on an empty bus, at a time with `timestamp + delay < latency` for
-- a latency below 2 ^ 63, are granted the same slot: `start - latency` wraps round. The second
-- caller is not on the bus, though the engine is asked for an event for it.
pub schedule-start-lost :
    (timestamp delay first second : ℕ) (b : Bus)
    → b.queue ≡ []
    → timestamp + delay < b.latency
    → b.latency < 2 ^ 63
    → (b' : Bus) × (call : Call) × (schedule timestamp delay first b ≡ ok (delay, b', call))
      × (schedule timestamp delay second b' ≡ ok (delay, b', call))
unfolding schedule grant lower_bound emplace
schedule-start-lost timestamp delay first second b empty early small = (
  record b { queue = (timestamp + delay, first) ∷ [] },
  add (delay + b.latency) b.bus_handler 0,
  rw empty (ground arith),
  ground arith,
)
