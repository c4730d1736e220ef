-- ===== src/Tests/Stores.antt =====
-- Stores of pages (Migration.cpp) for the tests.
use hmmsim_server.Prelude.{refl, none, [], arith}
use hmmsim_server.Migration.Store.{Store, find, back, link}
use hmmsim_server.Migration.Store.Links.{Linked}
use hmmsim_server.Migration.Base.{dram}
use hmmsim_server.Migration.MultiQueue.{Position, queues, history, position_tags}
use hmmsim_server.Migration.MultiQueue.Invariant.{Levelled, link-Levelled}

abbrev pub empty : {T B : Type 0} → Store T B
empty = record { lists = λ _. []; pages = λ _ _. none; fresh = 0 }

pub empty-Linked : {T B : Type 0} → Linked (empty {T = T} {B = B})
unfolding find
empty-Linked = record {
  held = λ t i e h. cc;
  linked = λ p a t i h. cc;
  old = λ t i e h. cc;
  distinct = λ t. tt;
}

pub empty-Levelled : {B : Type 0} → Levelled {B = B} 1 2 empty
empty-Levelled = record {
  linked = empty-Linked;
  owned = λ p a q h. cc;
  ranged = λ p a q h. cc;
  queued = ground arith;
}

-- The page 40 is in PCM, the page 41 in DRAM.
abbrev pub two_pages : {B : Type 0} → B → B → Store Position B
two_pages b c =
    link back (queues dram 0) 0 41 (record { pid = 0; addr = 41; body = c })
      (link back history 0 40 (record { pid = 0; addr = 40; body = b }) empty)

pub two_pages-Levelled : {B : Type 0} (b c : B) → Levelled 1 2 (two_pages b c)
unfolding link
two_pages-Levelled b c =
    link-Levelled
      (link-Levelled empty-Levelled history (record { pid = 0; addr = 40; body = b }) refl
        (ground arith) (ground arith))
      (queues dram 0) (record { pid = 0; addr = 41; body = c }) refl (ground arith) (ground arith)
