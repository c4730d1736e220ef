-- ===== src/CacheSet.antt =====
-- `Set` (Cache.cpp, include/Cache.H): the blocks of one set of a cache, and the tags that are pinned. An
-- index of -1 is none. `warn` only prints.
pub mod Lookup
pub mod Victim
pub mod Allocation
pub mod Contents
use mathlib.Core.Option.{map}
use hmmsim_server.Prelude.{
  ℕ, zero, suc, ◌+◌, ◌-◌, ◌^◌, Bool, true, false, ◌&&◌, ◌||◌, not, List, [], ◌∷◌, Option, none,
  some, ltb, ◌==◌, if◌then◌else◌, get_elem?, set, word,
}
use hmmsim_server.Prelude.Results.{Result, ok, fault, stopped, deref, ◌>>=◌}

pub data ReplacementPolicy : Type 0 where
  lru fifo : ReplacementPolicy

pub record Block : Type 0 where
  pub tag : ℕ
  pub timestamp : ℕ
  pub clean : Bool
  pub valid : Bool

pub record Set : Type 0 where
  pub blocks : List Block
  pub pinned : List ℕ

pub data SetResult : Type 0 where
  invalid no_eviction eviction writeback : SetResult

abbrev pub holds : ℕ → Block → Bool
holds tag b = b.valid && b.tag == tag

-- The block after an access: a write makes it dirty.
abbrev pub touched : ℕ → Bool → Block → Block
touched now read b = record b { timestamp = now; clean = b.clean && read }

-- What a search of the blocks after the first one found, counted from the first.
abbrev pub after_first : Block → Option (ℕ × List Block) → Option (ℕ × List Block)
after_first b none = none
after_first b (some (i, bs)) = some (suc i, b ∷ bs)

-- A change of the first block that holds a tag: its index, and the blocks.
unfoldable pub change_first : (Block → Block) → ℕ → List Block → Option (ℕ × List Block)
change_first change tag [] = none
change_first change tag (b ∷ bs) =
    if holds tag b then some (0, change b ∷ bs) else after_first b (change_first change tag bs)

-- `Set::access`
unfoldable pub access : ℕ → ℕ → Bool → Set → Option (ℕ × Set)
access tag now read s =
    map (λ p. (p.0, record s { blocks = p.1 })) (change_first (touched now read) tag s.blocks)

unfoldable pub first_invalid : List Block → Option ℕ
first_invalid [] = none
first_invalid (b ∷ bs) = if b.valid then map suc (first_invalid bs) else some 0

unfoldable pub is_pinned : ℕ → List ℕ → Bool
is_pinned tag [] = false
is_pinned tag (t ∷ ts) = tag == t || is_pinned tag ts

-- The loop over the blocks from index `i` on, with the earliest time so far and its block.
unfoldable pub least_recent : List ℕ → ℕ → ℕ → Option ℕ → List Block → Option ℕ
least_recent pinned i earliest victim [] = victim
least_recent pinned i earliest victim (b ∷ bs) =
    let better = ltb b.timestamp earliest && not (is_pinned b.tag pinned) in
    least_recent pinned (i + 1) (if better then b.timestamp else earliest)
      (if better then some i else victim) bs

abbrev pub victim_by : ReplacementPolicy → Set → Result (Option ℕ)
victim_by lru s = ok (least_recent s.pinned 0 (word - 1) none s.blocks)
victim_by fifo s = fault stopped

abbrev pub choose_in : Option ℕ → ReplacementPolicy → Set → Result (Option ℕ)
choose_in (some i) policy s = ok (some i)
choose_in none policy s = victim_by policy s

abbrev pub choose : ReplacementPolicy → Set → Result (Option ℕ)
choose policy s = choose_in (first_invalid s.blocks) policy s

abbrev pub result_of : Block → SetResult
result_of b = if b.valid then (if b.clean then eviction else writeback) else no_eviction

-- What an allocation returns: how it went, the tag of the block that it took, and the index.
pub record Allocated : Type 0 where
  pub result : SetResult
  pub evicted : Option ℕ
  pub block : Option ℕ

-- A block that was just put in.
abbrev pub filled : ℕ → ℕ → Bool → Block
filled tag now read = record { tag = tag; timestamp = now; clean = read; valid = true }

abbrev pub put_in : Option ℕ → ℕ → ℕ → Bool → Set → Result (Allocated × Set)
put_in none tag now read s = ok (record { result = invalid; evicted = none; block = none }, s)
put_in (some i) tag now read s = do
  old ← deref (get_elem? s.blocks i)
  ok (
    record {
      result = result_of old;
      evicted = if old.valid then some old.tag else none;
      block = some i;
    },
    record s { blocks = set s.blocks i (filled tag now read) },
  )

-- `Set::allocate`
unfoldable pub allocate : ReplacementPolicy → ℕ → ℕ → Bool → Set → Result (Allocated × Set)
allocate policy tag now read s = do victim ← choose policy s; put_in victim tag now read s

-- `pin` and `unpin`, of a set of tags.
unfoldable pub pin : ℕ → Set → Set
unfolding is_pinned
pin tag s = record s { pinned = if is_pinned tag s.pinned then s.pinned else tag ∷ s.pinned }

unfoldable pub without : ℕ → List ℕ → List ℕ
without tag [] = []
without tag (t ∷ ts) = let rest = without tag ts in if tag == t then rest else t ∷ rest

unfoldable pub unpin : ℕ → Set → Set
unfolding without
unpin tag s = record s { pinned = without tag s.pinned }

abbrev pub find_block : ℕ → List Block → Option Block
find_block tag [] = none
find_block tag (b ∷ bs) = if holds tag b then some b else find_block tag bs

abbrev pub flushed : Option Block → SetResult
flushed none = no_eviction
flushed (some b) = if b.clean then eviction else writeback

abbrev pub blocks_after : Set → Option (ℕ × List Block) → Set
blocks_after s none = s
blocks_after s (some (i, bs)) = record s { blocks = bs }

unfoldable pub flush : ℕ → Set → SetResult × Set
flush tag s = (
  flushed (find_block tag s.blocks),
  blocks_after s (change_first (λ b. record b { valid = false }) tag s.blocks),
)

abbrev pub is_found : Option (ℕ × List Block) → Bool
is_found none = false
is_found (some p) = true

unfoldable pub change_tag : ℕ → ℕ → Set → Bool × Set
change_tag old new s =
    let changed = change_first (λ b. record b { tag = new }) old s.blocks in
    (is_found changed, blocks_after s changed)

unfoldable pub make_dirty : ℕ → Set → Set
make_dirty tag s = blocks_after s (change_first (λ b. record b { clean = false }) tag s.blocks)
