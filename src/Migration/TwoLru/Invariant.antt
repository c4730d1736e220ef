-- ===== src/Migration/TwoLru/Invariant.antt =====
-- The invariant of `OldTwoLRUMigrationPolicy` (Migration.cpp), for a policy that serves one process.
use hmmsim_server.Prelude.{
  ℕ, ◌+◌, ◌%◌, ◌<◌, ◌≡◌, refl, ◌∙◌, inl, inr, true, false, Bool-cases, Option, none, some, ◌∷◌,
  length, word, if◌then◌else◌, sub64, add64, is_positive, is_nonpositive, eq_self, arith,
}
use hmmsim_server.Prelude.Results.{ok}
use hmmsim_server.Migration.Base.{PageType, dram_first}
use hmmsim_server.Migration.OldBase.{OldBase, is_dram}
use hmmsim_server.Migration.OldBase.Counting.{
  counted, allocate-Allocated, counted-HasRoom, counted-left, counted_same,
}
use hmmsim_server.Migration.Store.{Entry, Nodes, find, erase, last, front, Store, link, unlink}
use hmmsim_server.Migration.Store.Nodes.{last-find}
use hmmsim_server.Migration.Store.Links.{
  Linked, link-Linked, relink-Linked, length-link, length-unlink, unlink-link,
}
use hmmsim_server.Migration.TwoLru.{
  TwoLru, ListType, dram_list, pcm_list, list_tags, same_list, same_list_iff, hit, is_hot, page_of,
  index_of, allocate, monitor, demote, promote_first,
}

-- The lists and the page map point at one another, the only process is 0, and the DRAM pages left and
-- the length of the DRAM list make up the number of DRAM pages. Where DRAM is to be filled first and
-- is not full, a DRAM page is left.
pub record IsValid (s : TwoLru) : Type 0 where
  pub linked : Linked s.store
  pub one : s.base.num_pids ≡ 1
  pub alone : (p a : ℕ) (q : ListType × ℕ) → s.store.pages p a ≡ some q → p ≡ 0
  pub counted :
      (s.base.dram_pages_left + length (s.store.lists dram_list)) % word ≡ s.base.dram_pages
  pub left_fits : s.base.dram_pages_left < word
  pub room :
      s.base.policy ≡ dram_first
      → s.base.dram_full ≡ false
      → is_positive s.base.dram_pages_left ≡ true

page_of-one : (s : TwoLru) → s.base.num_pids ≡ 1 → (a : ℕ) → page_of 0 a s ≡ ok (s.store.pages 0 a)
unfolding page_of
page_of-one s e a = rw e

index_of-zero : (b : OldBase) → index_of 0 b ≡ 0
unfolding index_of
index_of-zero b = ground arith

link-alone :
    (t : ListType) (p a : ℕ) (e : Entry ℕ) (s : Store ListType ℕ)
    → p ≡ 0
    → ((q b : ℕ) (n : ListType × ℕ) → s.pages q b ≡ some n → q ≡ 0)
    → (q b : ℕ) (n : ListType × ℕ) → (link front t p a e s).pages q b ≡ some n
    → q ≡ 0
unfolding link
link-alone t p a e s own alone q b n h = ground (arith, alone q b n)

unlink-alone :
    (t : ListType) (i : ℕ) (s : Store ListType ℕ)
    → ((q b : ℕ) (n : ListType × ℕ) → s.pages q b ≡ some n → q ≡ 0)
    → (q b : ℕ) (n : ListType × ℕ) → (unlink t i s).pages q b ≡ some n
    → q ≡ 0
unfolding unlink
unlink-alone t i s alone = alone

-- Where the policy of one process is in step, the allocation of a page that the map does not have fails
-- no assertion, whatever the allocator advises, and leaves the policy in step.
pub allocate-IsValid :
    (hint : PageType) (addr : ℕ) {s : TwoLru}
    → IsValid s
    → s.store.pages 0 addr ≡ none
    → (ret : PageType) × (s' : TwoLru) × (allocate hint 0 addr s ≡ ok (ret, s')) × IsValid s'
unfolding allocate
allocate-IsValid hint addr {s} v absent =
    let (ret, a) = allocate-Allocated hint s.base v.room in
    let list = if is_dram ret then dram_list else pcm_list in
    let e : Entry ℕ = record { pid = 0; addr = addr; body = 0 } in
    (
      ret,
      record { base = counted ret s.base; store = link front list 0 addr e s.store },
      rw (a.run, index_of-zero s.base, page_of-one s v.one addr, absent),
      record {
        linked = link-Linked front list e absent v.linked;
        one = (counted_same ret s.base).0 ∙ v.one;
        alone = link-alone list 0 addr e s.store refl v.alone;
        counted = ground (
          arith,
          counted-left ret s.base v.left_fits a.positive,
          counted_same ret s.base,
          length-link front list 0 addr e s.store dram_list,
          v.counted,
          a.positive,
        );
        left_fits = ground (arith, counted-left ret s.base v.left_fits a.positive, a.positive);
        room = counted-HasRoom ret s.base v.left_fits a.positive v.room;
      },
    )

-- Where the policy of one process is in step, an access to a page that the map has fails no assertion
-- and follows no dangling iterator; it leaves the policy in step and its counts as they were.
pub monitor-IsValid :
    (addr : ℕ) {s : TwoLru} (t : ListType) (i : ℕ)
    → IsValid s
    → s.store.pages 0 addr ≡ some (t, i)
    → (s' : TwoLru) × (monitor 0 addr s ≡ ok s') × IsValid s' × (s'.base ≡ s.base)
unfolding monitor
monitor-IsValid addr {s} t i v there =
    let (entry, found, own, at_addr) = v.linked.linked 0 addr t i there in
    let temp : Entry ℕ = record entry { body = hit entry.body } in
    (
      record s { store = link front t 0 addr temp (unlink t i s.store) },
      rw (index_of-zero s.base, page_of-one s v.one addr, there, found),
      record {
        linked = relink-Linked front t temp 0 addr t i own at_addr there v.linked;
        one = v.one;
        alone =
            link-alone t 0 addr temp (unlink t i s.store) refl (unlink-alone t i s.store v.alone);
        counted = ground (
          arith,
          length-link front t 0 addr temp (unlink t i s.store) dram_list,
          length-unlink s.store t i entry dram_list v.linked found,
          v.counted,
        );
        left_fits = v.left_fits;
        room = v.room;
      },
      refl,
    )

erased-unlink :
    (t u : ListType) (i p a : ℕ) (e : Entry ℕ) (s : Store ListType ℕ)
    → same_list t u ≡ false
    → (unlink u i (link front t p a e s)).lists u ≡ erase i (s.lists u)
unfolding link unlink
erased-unlink t u i p a e s other = ground (arith, same_list_iff u u)

-- Where the policy of one process is in step, no DRAM page is left and the DRAM list has a last page, a
-- demotion returns that page and takes it off the list; one DRAM page more is left, no assertion fails,
-- and the policy is in step.
pub demote-IsValid :
    {s : TwoLru} (i : ℕ) (victim : Entry ℕ)
    → IsValid s
    → is_nonpositive s.base.dram_pages_left ≡ true
    → last (s.store.lists dram_list) ≡ some (i, victim)
    → (s' : TwoLru) × (demote s ≡ ok (some (0, victim.addr), s'))
      × IsValid s'
      × (s'.store.lists dram_list ≡ erase i (s.store.lists dram_list))
      × (s'.base.dram_pages_left ≡ add64 s.base.dram_pages_left 1)
unfolding demote
demote-IsValid {s} i victim v none_left at_end =
    let found : find i (s.store.lists dram_list) ≡ some victim =
      last-find _ i victim (v.linked.distinct dram_list) at_end in
    let there = v.linked.held dram_list i victim found in
    let own : victim.pid ≡ 0 = v.alone victim.pid victim.addr _ there in
    let there' : s.store.pages 0 victim.addr ≡ some (dram_list, i) = rw (← own) there in
    let entry : Entry ℕ = record { pid = 0; addr = victim.addr; body = 0 } in
    (
      record {
        base = record s.base { dram_pages_left = add64 s.base.dram_pages_left 1 };
        store = unlink dram_list i (link front pcm_list 0 victim.addr entry s.store);
      },
      rw (at_end, own, page_of-one s v.one victim.addr, there', eq_self i),
      rw (unlink-link front pcm_list 0 victim.addr entry s.store dram_list i refl) (record {
        linked =
            relink-Linked front pcm_list entry 0 victim.addr dram_list i refl refl there' v.linked;
        one = v.one;
        alone =
            link-alone pcm_list 0 victim.addr entry (unlink dram_list i s.store) refl
              (unlink-alone dram_list i s.store v.alone);
        counted = ground (
          arith,
          length-link front pcm_list 0 victim.addr entry (unlink dram_list i s.store) dram_list,
          length-unlink s.store dram_list i victim dram_list v.linked found,
          v.counted,
        );
        left_fits = omega arith;
        room = λ p q. let h = v.room p q in ground arith;
      }),
      erased-unlink pcm_list dram_list i 0 victim.addr entry s.store refl,
      refl,
    )

find_first : (i : ℕ) (e : Entry ℕ) (q : Nodes ℕ) → find i ((i, e) ∷ q) ≡ some e
unfolding find
find_first i e q = rw (eq_self i)

-- The first page of the PCM list goes to the front of the DRAM list if it is hot; otherwise nothing
-- changes.
pub promote_first-IsValid :
    {s : TwoLru} (i : ℕ) (first : Entry ℕ) (rest : Nodes ℕ)
    → IsValid s
    → is_positive s.base.dram_pages_left ≡ true
    → (s.base.policy ≡ dram_first → s.base.dram_full ≡ true)
    → s.store.lists pcm_list ≡ (i, first) ∷ rest
    → (r : Option (ℕ × ℕ)) × (s' : TwoLru) × (promote_first ((i, first) ∷ rest) s ≡ ok (r, s'))
      × IsValid s'
unfolding promote_first
promote_first-IsValid {s} i first rest v some_left full at_front =
    elim (Bool-cases (is_hot first.body)) [
      | inr cold ↦ (none, s, rw cold, v)
      | inl hot ↦
          let found : find i (s.store.lists pcm_list) ≡ some first =
            rw at_front (find_first i first rest) in
          let there = v.linked.held pcm_list i first found in
          let own : first.pid ≡ 0 = v.alone first.pid first.addr _ there in
          let there' : s.store.pages 0 first.addr ≡ some (pcm_list, i) = rw (← own) there in
          let entry : Entry ℕ = record { pid = 0; addr = first.addr; body = 0 } in
          (
            some (0, first.addr),
            record {
              base = record s.base { dram_pages_left = sub64 s.base.dram_pages_left 1 };
              store = link front dram_list 0 first.addr entry (unlink pcm_list i s.store);
            },
            rw (hot, own, page_of-one s v.one first.addr, there'),
            record {
              linked =
                  relink-Linked front dram_list entry 0 first.addr pcm_list i refl refl there'
                    v.linked;
              one = v.one;
              alone =
                  link-alone dram_list 0 first.addr entry (unlink pcm_list i s.store) refl
                    (unlink-alone pcm_list i s.store v.alone);
              counted = ground (
                arith,
                length-link front dram_list 0 first.addr entry (unlink pcm_list i s.store)
                    dram_list,
                length-unlink s.store pcm_list i first dram_list v.linked found,
                v.counted,
              );
              left_fits = omega arith;
              room = λ p q. let f = full p in cc;
            },
          )
    ]
