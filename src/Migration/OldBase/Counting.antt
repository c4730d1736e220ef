-- ===== src/Migration/OldBase/Counting.antt =====
-- The count of DRAM pages left in `OldBaseMigrationPolicy` (Migration.cpp).
use hmmsim_server.Prelude.{
  ℕ, ◌-◌, ◌<◌, ◌≡◌, refl, ◌⊎◌, inl, inr, true, false, ◌&&◌, Bool-cases, Option, none, word, ◌==◌,
  if◌then◌else◌, sub64, is_positive, arith,
}
use hmmsim_server.Prelude.Results.{Result, ok}
use hmmsim_server.Migration.Base.{
  PageType, dram, pcm, AllocationPolicy, dram_first, pcm_only, custom,
}
use hmmsim_server.Migration.OldBase.{OldBase, is_dram, choose, count, allocate, migrate}

pub AllocationPolicy-cases :
    (p : AllocationPolicy) → (p ≡ dram_first) ⊎ ((p ≡ pcm_only) ⊎ (p ≡ custom))
AllocationPolicy-cases dram_first = inl refl
AllocationPolicy-cases pcm_only = inr (inl refl)
AllocationPolicy-cases custom = inr (inr refl)

-- Where DRAM is to be filled first and is not full, a DRAM page is left.
abbrev pub HasRoom : OldBase → Type 0
HasRoom b = b.policy ≡ dram_first → b.dram_full ≡ false → is_positive b.dram_pages_left ≡ true

choose-total :
    (hint : PageType) (b : OldBase)
    → HasRoom b
    → (ret : PageType) × (choose hint b ≡ ok ret)
      × (is_dram ret ≡ true → is_positive b.dram_pages_left ≡ true)
unfolding choose
choose-total hint b room = elim (AllocationPolicy-cases b.policy) [
  | inl p ↦ elim (Bool-cases b.dram_full) [
    | inl full ↦ (pcm, rw (p, full), λ h. cc)
    | inr free ↦ (dram, rw (p, free), λ h. room p free)
  ]
  | inr (inl p) ↦ (pcm, rw p, λ h. cc)
  | inr (inr p) ↦ elim (Bool-cases (is_dram hint && is_positive b.dram_pages_left)) [
    | inl good ↦ (dram, rw (p, good), λ h. ground arith)
    | inr bad ↦ (pcm, rw (p, bad), λ h. cc)
  ]
]

-- The base after a page of the type is counted.
unfoldable pub counted : PageType → OldBase → OldBase
counted ret b =
    if is_dram ret
    then record b {
      dram_pages_left = sub64 b.dram_pages_left 1;
      dram_full = if sub64 b.dram_pages_left 1 == 0 then true else b.dram_full;
    }
    else b

count-counted :
    (ret : PageType) (b : OldBase)
    → (is_dram ret ≡ true → is_positive b.dram_pages_left ≡ true)
    → count ret b ≡ ok (counted ret b)
unfolding count counted
count-counted ret b h = elim (Bool-cases (is_dram ret)) [ inl d ↦ rw (d, h d) | inr n ↦ rw n ]

-- What `allocate` returns and leaves, where a DRAM page is left whenever one is to be taken.
pub record Allocated (hint : PageType) (b : OldBase) (ret : PageType) : Type 0 where
  pub run : allocate hint b ≡ ok (ret, counted ret b)
  pub positive : is_dram ret ≡ true → is_positive b.dram_pages_left ≡ true

pub allocate-Allocated :
    (hint : PageType) (b : OldBase) → HasRoom b → (ret : PageType) × Allocated hint b ret
unfolding allocate
allocate-Allocated hint b room =
    let (ret, chosen, positive) = choose-total hint b room in
    (ret, record { run = rw (chosen, count-counted ret b positive); positive = positive })

module _ (ret : PageType) (b : OldBase) (fits : b.dram_pages_left < word)
    (positive : is_dram ret ≡ true → is_positive b.dram_pages_left ≡ true) where
  -- The room for the next page is kept.
  pub counted-HasRoom : HasRoom b → HasRoom (counted ret b)
  unfolding counted
  counted-HasRoom room p free = elim (Bool-cases (is_dram ret)) [
    | inl d ↦ let pos = positive d in ground arith
    | inr n ↦ ground (arith, room)
  ]

  pub counted-left :
      (counted ret b).dram_pages_left
      ≡ (if is_dram ret then b.dram_pages_left - 1 else b.dram_pages_left)
  unfolding counted
  counted-left = elim (Bool-cases (is_dram ret)) [
    | inl d ↦ let pos = positive d in ground arith
    | inr n ↦ ground arith
  ]

pub counted_same :
    (ret : PageType) (b : OldBase)
    → ((counted ret b).num_pids ≡ b.num_pids)
      × ((counted ret b).dram_pages ≡ b.dram_pages)
      × ((counted ret b).policy ≡ b.policy)
unfolding counted
counted_same ret b = ground arith

-- `migrate` leaves the choice to the policy, unless DRAM is to be filled first and is not full.
pub migrate-cases {ℓ} :
    {S : Type ℓ} (b : OldBase) (select : S → Result (Option (ℕ × ℕ) × S)) (s : S)
    → ((migrate b select s ≡ select s) × (b.policy ≡ dram_first → b.dram_full ≡ true))
      ⊎ (migrate b select s ≡ ok (none, s))
unfolding migrate
migrate-cases b select s = elim (AllocationPolicy-cases b.policy) [
  | inl p ↦ elim (Bool-cases b.dram_full) [
    | inl full ↦ inl (rw (p, full), λ _. full)
    | inr free ↦ inr (rw (p, free))
  ]
  | inr (inl p) ↦ inl (rw p, λ q. cc)
  | inr (inr p) ↦ inl (rw p, λ q. cc)
]
