-- ===== src/CacheModel/Accesses.antt =====
-- An access of a `CacheModel` (Cache.cpp) that remaps no page, against the blocks that it holds.
use Prim.Native.Nat.{bit_and}
use native.Mathlib.Nat.{mod-le, div-lt_iff_lt-mul, one-le-pow}
use mathlib.Core.Path.{subst}
use hmmsim_server.Prelude.{
  ℕ, ◌+◌, ◌-◌, ◌*◌, ◌/◌, ◌%◌, ◌^◌, ◌<◌, ◌≡◌, refl, sym, ap, ◌∙◌, Bool, true, false, ◌&&◌, ◌||◌, not,
  List, [], Option, none, some, ◌==◌, get_elem?, set, Bool-cases, inl, inr, arith, if_true,
  if_false, sign_bit, add64,
}
use hmmsim_server.Prelude.{and-in_place, pow_sum, pow_mono}
use hmmsim_server.Prelude.Results.{Result, ok}
use hmmsim_server.CacheSet
use hmmsim_server.CacheSet.{
  Block, Set, Allocated, SetResult, holds, lru, allocate, filled, result_of, eviction, writeback,
  no_eviction, invalid,
}
use hmmsim_server.CacheSet.Lookup.{get-set, Absent}
use hmmsim_server.CacheSet.Allocation.{Taken, Refused}
use hmmsim_server.CacheSet.Contents.{has, has_at, has-set, Absent-has, Below, set-Below, get-Below}
use hmmsim_server.CacheModel.{
  CacheModel, CacheResult, miss_without_eviction, miss_with_eviction, miss_with_writeback,
  miss_without_free_block, Accessed, get_index, get_tag, tick, top_bit, find_remap, find_inv,
  get_page_index, get_actual_address, set_at, evicted_address, evict, missed, looked_up, access,
  RemapEntry, InvRemapEntry,
}
use hmmsim_server.CacheModel.Addresses.{
  get_tag_lem, get_tag-evicted, get_index-evicted, evicted-low,
}
use hmmsim_server.CacheModel.Contents.{
  contains, same_block, Good, IsValid, Effect, get-set_other, contains_here, after, after-same,
  after-added, after-replaced,
}

-- Below `2 ^ 63`, the top bit is clear.
low_top : (a : ℕ) → a < 2 ^ 63 → top_bit a ≡ false
low_top a low =
    let bit : bit_and a sign_bit ≡ (a / 2 ^ 63) % 2 ^ 1 * 2 ^ 63 = and-in_place 1 63 a in
    let clear : bit_and a sign_bit ≡ 0 = omega (arith, bit, low) in ap (λ b. not (b == 0)) clear

no_entry : (page : ℕ) (es : List RemapEntry) → es ≡ [] → find_remap page es ≡ none
unfolding find_remap
no_entry page es empty = ap (find_remap page) empty

no_inv_entry : (page : ℕ) (es : List InvRemapEntry) → es ≡ [] → find_inv page es ≡ none
unfolding find_inv
no_inv_entry page es empty = ap (find_inv page) empty

-- The block that is evicted is known by its own address, where no page is remapped.
evict-plain :
    (result : CacheResult) (tag actual : ℕ) (block : Option ℕ) (c : CacheModel)
    → c.inv_remap_table ≡ []
    → top_bit (evicted_address c tag actual) ≡ false
    → evict result (some tag) actual block c
      ≡ ok (
        record {
          result = result;
          evicted_addr = some (evicted_address c tag actual);
          block = block;
        },
        c,
      )
evict-plain result tag actual block c empty clear =
    rw
      (
        no_inv_entry (get_page_index c (evicted_address c tag actual)) c.inv_remap_table empty,
        clear,
      )
      refl

module _ (o i w : ℕ) (c : CacheModel) (v : IsValid o i w c) (addr : ℕ) (low : addr < 2 ^ 63)
    (read : Bool) where
  actual_plain : get_actual_address c addr ≡ ok addr
  unfolding get_actual_address
  actual_plain =
      rw (low_top addr low, no_entry (get_page_index c addr) c.remap_table v.no_remap) refl

  -- The tag of the address has a clear top bit.
  pub tag_below : get_tag c addr < 2 ^ (w - 1)
  tag_below =
      let k = i + o in
      let g = v.geometry in
      let order : 2 ^ (k + (w - 1)) ≡ 2 ^ 63 =
        ap (λ (n : ℕ). 2 ^ n) {y = 63} (omega (arith, g.whole, g.tagged)) in
      let below : addr < 2 ^ (w - 1) * 2 ^ k = omega (arith, low, order, pow_sum k (w - 1)) in
      let digits : addr / 2 ^ k < 2 ^ (w - 1) =
        (div-lt_iff_lt-mul (omega (arith, one-le-pow k 2))).1 below in
      omega (arith, get_tag_lem o i w c g addr, digits, mod-le (addr / 2 ^ k) (2 ^ w))

  module _ (s : Set) (here : get_elem? c.sets (get_index c addr) ≡ some s) (good : Good w s) where
    pub access_as :
        access addr read c
        ≡ looked_up
            (CacheSet.access (get_tag c addr) (add64 c.timestamp 1) read s)
            s
            read
            none
            addr
            (tick c)
    unfolding access set_at
    access_as =
        rw (actual_plain, here, no_entry (get_page_index c addr) c.remap_table v.no_remap) refl

    pub after-IsValid : (s' : Set) → Good w s' → IsValid o i w (after c addr s s' here)
    after-IsValid s' good' = record {
      geometry = record {
        offset = v.geometry.offset;
        index = v.geometry.index;
        tag = v.geometry.tag;
        whole = v.geometry.whole;
        tagged = v.geometry.tagged;
      };
      sets = λ j small. elim (Bool-cases (j == get_index c addr)) [
        | inl there ↦ (
          s',
          ap (get_elem? (set c.sets (get_index c addr) s')) (ground arith)
              ∙ get-set c.sets (get_index c addr) s s' here,
          good',
        )
        | inr other ↦
            let (t, at, fine) = v.sets j small in
            (t, get-set_other c.sets (get_index c addr) j s' (ground arith) ∙ at, fine)
      ];
      policy = v.policy;
      no_remap = v.no_remap;
      no_inv = v.no_inv;
    }

    abbrev pub Outcome : Result (Accessed × CacheModel) → Type 0
    Outcome run =
        (r : Accessed) × (c' : CacheModel) × (run ≡ ok (r, c'))
        × IsValid o i w c'
        × Effect c addr r c'

    pub refused-Outcome :
        (a : Allocated) (s' : Set)
        → Absent (get_tag c addr) s.blocks
        → Refused s a s'
        → Outcome (missed a.result a addr (after c addr s s' here))
    refused-Outcome a s' absent refused = (
      record { result = miss_without_free_block; evicted_addr = none; block = none },
      after c addr s s' here,
      ap (λ x. missed x a addr (after c addr s s' here)) refused.result,
      after-IsValid s' (subst (Good w) (sym refused.same) good),
      (
        contains_here c addr s s' here addr refl ∙ Absent-has (get_tag c addr) s.blocks absent,
        after-same c addr s s' here (λ t. ap (λ (x : Set). has t x.blocks) refused.same),
      ),
    )

    module _ (k : ℕ) (old : Block) (a : Allocated) (s' : Set)
        (absent : Absent (get_tag c addr) s.blocks) (now : ℕ)
        (t : Taken (get_tag c addr) now read s k old a s') where
      abbrev new : Block
      new = filled (get_tag c addr) now read

      taken-Good : Good w s'
      taken-Good = record {
        distinct = t.distinct;
        below =
            subst (Below (2 ^ (w - 1))) (sym t.kept)
              (set-Below (2 ^ (w - 1)) s.blocks k new good.below (λ valid. tag_below));
      }

      taken-has :
          (u : ℕ) → has u s'.blocks ≡ (get_tag c addr == u || (has u s.blocks && not (holds u old)))
      taken-has u = ap (has u) t.kept ∙ has-set u s.blocks k old new good.distinct t.place

      lacked : contains c addr ≡ false
      lacked =
          contains_here c addr s s' here addr refl ∙ Absent-has (get_tag c addr) s.blocks absent

      pub free-Outcome :
          old.valid ≡ false → Outcome (missed a.result a addr (after c addr s s' here))
      free-Outcome free = (
        record { result = miss_without_eviction; evicted_addr = none; block = a.block },
        after c addr s s' here,
        ap (λ x. missed x a addr (after c addr s s' here)) (t.result ∙ if_false _ _ free),
        after-IsValid s' taken-Good,
        (lacked, after-added c addr s s' here (λ u. ground (arith, taken-has u))),
      )

      abbrev victim : ℕ
      victim = evicted_address c old.tag addr

      module _ (full : old.valid ≡ true) where
        old_below : old.tag < 2 ^ (w - 1)
        old_below = get-Below (2 ^ (w - 1)) s.blocks k old good.below t.place full

        old_fits : old.tag < 2 ^ w
        old_fits = omega (arith, old_below, pow_mono {i = w - 1} {j = w} (omega arith))

        get_index-victim : get_index c victim ≡ get_index c addr
        get_index-victim = get_index-evicted o i w c v.geometry old.tag addr old_fits

        get_tag-victim : get_tag c victim ≡ old.tag
        get_tag-victim = get_tag-evicted o i w c v.geometry old.tag addr old_fits

        held : contains c victim ≡ true
        held =
            contains_here c addr s s' here victim get_index-victim
            ∙ ap (λ u. has u s.blocks) get_tag-victim
            ∙ has_at old.tag s.blocks k old t.place (ground arith)

        replaced :
            (x : ℕ)
            → contains (after c addr s s' here) x
              ≡ (same_block c addr x || (contains c x && not (same_block c victim x)))
        replaced =
            after-replaced c addr s s' here victim get_index-victim
              (λ u. ground (arith, taken-has u, get_tag-victim))

        -- The evicted block, clean or not.
        evicted-run :
            (result : CacheResult)
            → evict result a.evicted addr a.block (after c addr s s' here)
              ≡ ok (
                record { result = result; evicted_addr = some victim; block = a.block },
                after c addr s s' here,
              )
        unfolding evicted_address
        evicted-run result =
            ap (λ x. evict result x addr a.block (after c addr s s' here))
              (t.evicted ∙ if_true _ _ full)
            ∙ evict-plain result old.tag addr a.block (after c addr s s' here) v.no_inv
                (evicted-low o i w c v.geometry old.tag addr old_below)

        pub full-Outcome : Outcome (missed a.result a addr (after c addr s s' here))
        full-Outcome = elim (Bool-cases old.clean) [
          | inl clean ↦ (
            record { result = miss_with_eviction; evicted_addr = some victim; block = a.block },
            after c addr s s' here,
            ap (λ x. missed x a addr (after c addr s s' here))
                  (t.result ∙ if_true _ _ full ∙ if_true _ _ clean)
                ∙ evicted-run miss_with_eviction,
            after-IsValid s' taken-Good,
            (lacked, held, replaced),
          )
          | inr dirty ↦ (
            record { result = miss_with_writeback; evicted_addr = some victim; block = a.block },
            after c addr s s' here,
            ap (λ x. missed x a addr (after c addr s s' here))
                  (t.result ∙ if_true _ _ full ∙ if_false _ _ dirty)
                ∙ evicted-run miss_with_writeback,
            after-IsValid s' taken-Good,
            (lacked, held, replaced),
          )
        ]
