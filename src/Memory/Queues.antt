-- ===== src/Memory/Queues.antt =====
-- The queues of a `Memory` (Memory.cpp): what holds between its calls, with the requests that it is
-- handing back in flight.
use hmmsim_server.Prelude.{
  ℕ, ◌+◌, ◌-◌, ◌≤◌, ◌<◌, ◌≡◌, refl, sym, ap, ◌∙◌, Bool, true, false, ◌&&◌, List, [], ◌∷◌, ◌++◌,
  some, ltb, leb, lt→ltb, ◌==◌, if◌then◌else◌, arith, inl, inr, Bool-cases, if_true, if_false, not,
  eq_self, ◌≢◌, add64, sub64,
}
use hmmsim_server.Prelude.Results.{Result, ok, assert_pass, ◌>>=◌}
use hmmsim_server.Mapping.{get_bank_id}
use hmmsim_server.RequestQueue.{Request}
use hmmsim_server.Memory.{
  Memory, Waiting, Action, bank_access, num_queues, queue_index, size_of, set_size, accept, access,
  take_request, hand_back, retire, unstalls, wake_callers, give_back, release, insert_caller,
}
use hmmsim_server.Memory.Counts.{count, in_queue, in_queue-append, take_request-Took}

pub record IsValid (flight : List ℕ) (m : Memory) : Type 0 where
  pub inside : (r : Request) → queue_index m r < num_queues m
  pub positive : 0 < m.max_queue_size
  pub counted :
      (q : ℕ)
      → q < num_queues m
      → m.queue_sizes q ≡ in_queue (queue_index m) q m.requests + count q flight
  pub bounded : (q : ℕ) → q < num_queues m → m.queue_sizes q ≤ m.max_queue_size
  pub roomy : m.stalled ≡ false → (q : ℕ) → q < num_queues m → m.queue_sizes q < m.max_queue_size
  pub single :
      (p q : ℕ)
      → p < num_queues m
      → q < num_queues m
      → m.queue_sizes p ≡ m.max_queue_size
      → m.queue_sizes q ≡ m.max_queue_size
      → p ≡ q
  pub full : m.stalled ≡ true → (q : ℕ) × (q < num_queues m) × (m.queue_sizes q ≡ m.max_queue_size)
  pub told : m.stalled ≡ false → m.stalled_callers ≡ []

size_of_lem : (m : Memory) (q : ℕ) → q < num_queues m → size_of m q ≡ ok (m.queue_sizes q)
unfolding size_of
size_of_lem m q inside = if_true _ _ (lt→ltb q (num_queues m) inside)

module _ (flight : List ℕ) (m : Memory) (v : IsValid flight m) where
  -- The state once a request is accepted.
  abbrev accepted : Request → ℕ → Memory
  accepted r caller = record m {
    requests = m.requests ++ record { request = r; caller = caller } ∷ [];
    queue_sizes = set_size (queue_index m r) (m.queue_sizes (queue_index m r) + 1) m.queue_sizes;
    stalled = m.queue_sizes (queue_index m r) + 1 == m.max_queue_size;
  }

  accepted-IsValid :
      (r : Request) (caller : ℕ) → m.stalled ≡ false → IsValid flight (accepted r caller)
  unfolding queue_index
  accepted-IsValid r caller free = record {
    inside = v.inside;
    positive = v.positive;
    counted = λ q in'. ground (
      arith,
      v.counted q in',
      in_queue-append (queue_index m) q m.requests (record { request = r; caller = caller }),
    );
    bounded =
        λ q in'. ground (arith, v.roomy free q in', v.roomy free (queue_index m r) (v.inside r));
    roomy =
        λ h q in'. ground (arith, v.roomy free q in', v.roomy free (queue_index m r) (v.inside r));
    single = λ p q in' in'' h g. ground (arith, v.roomy free q in'', v.roomy free p in');
    full = λ h. (queue_index m r, v.inside r, ground arith);
    told = λ h. v.told free;
  }

  refused-IsValid :
      (caller : ℕ)
      → m.stalled ≡ true
      → IsValid flight (record m { stalled_callers = insert_caller caller m.stalled_callers })
  unfolding queue_index
  refused-IsValid caller stalls = record {
    inside = v.inside;
    positive = v.positive;
    counted = v.counted;
    bounded = v.bounded;
    roomy = v.roomy;
    single = v.single;
    full = v.full;
    told = λ h. cc;
  }

  accept_lem :
      (r : Request) (caller : ℕ)
      → m.stalled ≡ false
      → accept r caller m
        ≡ ok (true, accepted r caller, bank_access (get_bank_id m.mapping r.addr) r ∷ [])
  unfolding accept
  accept_lem r caller free =
      let fits : ltb (m.queue_sizes (queue_index m r)) m.max_queue_size ≡ true =
        lt→ltb _ _ (v.roomy free (queue_index m r) (v.inside r)) in
      rw (size_of_lem m (queue_index m r) (v.inside r), fits) refl

  -- Where the sizes of the queues are right, an access of the size of a block and within the memory
  -- fails no assertion and keeps them right. It is refused exactly if the memory is stalled, and
  -- then its caller is among those that wait and nothing else changes; otherwise the request waits
  -- for its bank, which gets it with its address within the memory.
  pub access-Handled :
      (r : Request) (caller : ℕ)
      → m.mapping.block_size ≡ r.size
      → m.offset ≤ r.addr
      → r.addr < add64 m.mapping.total_size m.offset
      → let here = record r { addr = sub64 r.addr m.offset } in
        (m' : Memory) × (acts : List Action) × (access r caller m ≡ ok (not m.stalled, m', acts))
        × IsValid flight m'
        × (m.stalled ≡ true
            → (m' ≡ record m { stalled_callers = insert_caller caller m.stalled_callers })
              × (acts ≡ []))
        × (m.stalled ≡ false
            → (m'.requests ≡ m.requests ++ record { request = here; caller = caller } ∷ [])
              × (acts ≡ bank_access (get_bank_id m.mapping here.addr) here ∷ []))
  unfolding access
  access-Handled r caller size low high =
      let here = record r { addr = sub64 r.addr m.offset } in
      let sized : (m.mapping.block_size == r.size) ≡ true = ground arith in
      let within : (leb m.offset r.addr && ltb r.addr (add64 m.mapping.total_size m.offset))
          ≡ true =
        ground arith in
      elim (Bool-cases m.stalled) [
        | inl stalls ↦ (
          record m { stalled_callers = insert_caller caller m.stalled_callers },
          [],
          assert_pass _ sized
              ∙ assert_pass _ within
              ∙ if_true _ _ stalls
              ∙ ap
                  (λ b. ok (
                    not b,
                    record m { stalled_callers = insert_caller caller m.stalled_callers },
                    [],
                  ))
                  (sym stalls),
          refused-IsValid caller stalls,
          λ h. (refl, refl),
          λ h. cc,
        )
        | inr free ↦ (
          accepted here caller,
          bank_access (get_bank_id m.mapping here.addr) here ∷ [],
          assert_pass _ sized
              ∙ assert_pass _ within
              ∙ if_false _ _ free
              ∙ accept_lem here caller free
              ∙ ap
                  (λ b. ok (
                    not b,
                    accepted here caller,
                    bank_access (get_bank_id m.mapping here.addr) here ∷ [],
                  ))
                  (sym free),
          accepted-IsValid here caller free,
          λ h. cc,
          λ h. (refl, refl),
        )
      ]

  -- The request that a bank is done with is found, and is in flight to its caller.
  pub retire-IsValid :
      (r : Request) (w : Waiting) (rest : List Waiting)
      → take_request r m.requests ≡ some (w, rest)
      → w.request ≡ r
      → (m' : Memory) × (retire r m ≡ ok (m', hand_back r w.caller m.offset))
        × IsValid (queue_index m r ∷ flight) m'
        × (m'.requests ≡ rest)
  unfolding retire queue_index count
  retire-IsValid r w rest found same =
      let took = take_request-Took (queue_index m) r m.requests in
      let took' = rw found at took in
      (
        record m { requests = rest },
        rw found refl,
        record {
          inside = v.inside;
          positive = v.positive;
          counted = λ q in'. omega (
            arith,
            v.counted q in',
            took'.1 q,
            ap {B = ℕ} (λ (t : Request). if queue_index m t == q then 1 else 0) same,
          );
          bounded = v.bounded;
          roomy = v.roomy;
          single = v.single;
          full = v.full;
          told = v.told;
        },
        refl,
      )

module _ (flight : List ℕ) (m : Memory) (q : ℕ) (v : IsValid (q ∷ flight) m)
    (here : q < num_queues m) where
  -- The sizes once the queue has a place more.
  abbrev fewer : ℕ → ℕ
  fewer = set_size q (m.queue_sizes q - 1) m.queue_sizes

  used : 0 < m.queue_sizes q
  unfolding count
  used = ground (arith, v.counted q here, eq_self q)

  fewer-counted :
      (i : ℕ) → i < num_queues m → fewer i ≡ in_queue (queue_index m) i m.requests + count i flight
  unfolding count
  fewer-counted i in' = ground (arith, v.counted i in')

  fewer-at :
      (p : ℕ)
      → m.queue_sizes p ≡ m.max_queue_size
      → m.queue_sizes q ≢ m.max_queue_size
      → fewer p ≡ m.max_queue_size
  fewer-at p at_max not_full = ground arith

  fewer-single :
      (i j : ℕ)
      → i < num_queues m
      → j < num_queues m
      → fewer i ≡ m.max_queue_size
      → fewer j ≡ m.max_queue_size
      → i ≡ j
  fewer-single i j in' in'' h g = ground (arith, v.single i j in' in'', v.bounded q here, used)

  woken-IsValid :
      m.queue_sizes q ≡ m.max_queue_size
      → IsValid flight (record m { stalled = false; stalled_callers = []; queue_sizes = fewer })
  unfolding queue_index
  woken-IsValid is_full = record {
    inside = v.inside;
    positive = v.positive;
    counted = fewer-counted;
    bounded = λ i in'. ground (arith, v.bounded i in');
    roomy = λ h i in'. ground (arith, v.bounded i in', v.single q i here in' is_full, used);
    single = fewer-single;
    full = λ h. cc;
    told = λ h. refl;
  }

  quiet-IsValid :
      m.queue_sizes q ≢ m.max_queue_size → IsValid flight (record m { queue_sizes = fewer })
  unfolding queue_index
  quiet-IsValid not_full = record {
    inside = v.inside;
    positive = v.positive;
    counted = fewer-counted;
    bounded = λ i in'. ground (arith, v.bounded i in');
    roomy = λ h i in'. ground (arith, v.roomy h i in');
    single = fewer-single;
    full = λ h. let (p, in', at_max) = v.full h in (p, in', fewer-at p at_max not_full);
    told = v.told;
  }

  release_as :
      {b : Bool}
      → (m.queue_sizes q == m.max_queue_size) ≡ b
      → release q m ≡ (wake_callers b m >>= give_back q (m.queue_sizes q))
  unfolding release
  release_as e =
      ap (λ (x : Result ℕ). x >>= λ n. wake_callers (n == m.max_queue_size) m >>= give_back q n)
        (size_of_lem m q here)
      ∙ ap (λ b. wake_callers b m >>= give_back q (m.queue_sizes q)) e

  -- Where the sizes of the queues are right, with one request of a queue in flight to its caller,
  -- the end of `accessCompleted` for that queue fails no assertion and leaves them right without
  -- that request. If the queue was full, every caller that waited is told, and the memory is stalled
  -- no more.
  pub release-IsValid :
      (m' : Memory) × (acts : List Action) × (release q m ≡ ok (m', acts))
      × IsValid flight m'
      × (m.queue_sizes q ≡ m.max_queue_size
          → (acts ≡ unstalls m.stalled_callers) × (m'.stalled ≡ false))
  release-IsValid = elim (Bool-cases (m.queue_sizes q == m.max_queue_size)) [
    | inl full ↦ elim (Bool-cases m.stalled) [
      | inl stalls ↦ (
        record m { stalled = false; stalled_callers = []; queue_sizes = fewer },
        unstalls m.stalled_callers,
        release_as full
            ∙ ap (λ (x : Result (Memory × List Action)). x >>= give_back q (m.queue_sizes q))
                (assert_pass _ stalls)
            ∙ assert_pass _ (lt→ltb _ _ used),
        woken-IsValid (ground arith),
        λ h. (refl, refl),
      )
      | inr free ↦ absurd (ground (arith, v.roomy free q here))
    ]
    | inr room ↦ (
      record m { queue_sizes = fewer },
      [],
      release_as room ∙ assert_pass _ (lt→ltb _ _ used),
      quiet-IsValid (ground arith),
      λ h. absurd (ground arith),
    )
  ]
