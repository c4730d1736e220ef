-- ===== src/HybridManager.antt =====
-- `HybridMemoryManager` (MemoryManager.cpp, include/MemoryManager.H): the page tables, the free frames and the
-- migrations under way. The frames of DRAM are numbered from 0 and those of PCM follow. What a policy
-- answers is an argument, and what the manager asks of others is a list of actions. The counts of a
-- migration entry for its flushes are kept beside the entries, by their source frame. Statistics and
-- times are left out.
pub mod Flushing
pub mod Finishing
pub mod Events
pub mod Frames
pub mod Placing
pub mod Starting
pub mod Promotion
pub mod Demotion
pub mod Erasing
pub mod Ending
pub mod Leaving
pub mod Revising
pub mod Continuing
pub mod Steps
pub mod Phases
use hmmsim_server.Prelude.{
  ℕ, zero, suc, ◌+◌, ◌-◌, ◌*◌, ◌%◌, ◌^◌, Bool, true, false, ◌&&◌, ◌||◌, not, List, [], ◌∷◌, ◌++◌,
  Option, none, some, ltb, leb, ◌==◌, if◌then◌else◌, word, shl64, shr,
}
use hmmsim_server.Prelude.Results.{
  Result, ok, fault, assertion, stopped, asserted, assert, ◌>>=◌, ◌>>◌,
}
use Prim.Native.Nat.{bit_and, bit_or}
use hmmsim_server.Mapping.{Field}
use hmmsim_server.Migration.Base.{PageType, dram, pcm, invalid}

pub data FlushPolicy : Type 0 where
  flush_pcm_before flush_only_after remap change_tag : FlushPolicy

pub record Page : Type 0 where
  pub frame : ℕ
  pub type : PageType
  pub is_migrating : Bool
  pub stall_on_access : Bool

pub record Owner : Type 0 where
  pub pid : ℕ
  pub page : ℕ

pub data Phase : Type 0 where
  flush_before copying flush_after : Phase

pub record Migration : Type 0 where
  pub source : ℕ
  pub pid : ℕ
  pub page : ℕ
  pub dest_frame : ℕ
  pub dest : PageType
  pub phase : Phase
  pub rolled_back : Bool
  pub needs_copying : Bool

pub record Pending : Type 0 where
  pub drains : ℕ
  pub flushes : ℕ
  pub stalled : ℕ
  pub tags : ℕ

pub record Config : Type 0 where
  pub num_dram_pages : ℕ
  pub num_pcm_pages : ℕ
  pub page_size : ℕ
  pub block_size : ℕ
  pub offset : Field
  pub index : Field
  pub flush_policy : FlushPolicy
  pub max_table_size : ℕ
  pub max_flush_queue_size : ℕ
  pub suppress_writebacks : Bool
  pub demote_timeout : ℕ
  pub cpus : List ℕ

pub record Manager : Type 0 where
  pub config : Config
  pub free_dram : List ℕ
  pub free_pcm : List ℕ
  pub pages : ℕ → ℕ → Option Page
  pub physical : ℕ → Option Owner
  pub migrations : List Migration
  pub table_size : ℕ
  pub demoting : Bool
  pub current_policy : ℕ
  pub pending : ℕ → Pending
  pub flush_queue : List (ℕ × Bool)
  pub flush_queue_size : ℕ
  pub stalled_requests : List (ℕ × ℕ)
  pub stalled_cpus : ℕ → ℕ → List ℕ

pub data Action : Type 0 where
  copy_page : (source dest : ℕ) → Action
  roll_back finish_migration : ℕ → Action
  flush : ℕ → Action
  drain : (cpu frame : ℕ) → Action
  remap_page : (source dest : ℕ) → Action
  policy_done : (pid page : ℕ) → Action
  resume_cpus : List ℕ → Action
  demote_event copy_event : ℕ → Action
  write_back : ℕ → Action

abbrev pub get_index : Config → ℕ → ℕ
get_index c addr = shr addr c.offset.width

abbrev pub get_offset : Config → ℕ → ℕ
get_offset c addr = bit_and addr (word - 1 - c.index.mask)

abbrev pub get_address : Config → ℕ → ℕ → ℕ
get_address c index offset = bit_or (shl64 index c.offset.width) (get_offset c offset)

abbrev pub is_dram_page : Config → ℕ → Bool
is_dram_page c f = ltb f c.num_dram_pages

abbrev pub is_pcm_page : Config → ℕ → Bool
is_pcm_page c f = leb c.num_dram_pages f && ltb f (c.num_dram_pages + c.num_pcm_pages)

abbrev pub is_dram : PageType → Bool
is_dram dram = true
is_dram pcm = false
is_dram invalid = false

abbrev pub is_pcm : PageType → Bool
is_pcm dram = false
is_pcm pcm = true
is_pcm invalid = false

-- The frame of a page is where its type says.
abbrev pub in_place : Config → Page → Bool
in_place c e =
    (is_dram_page c e.frame && is_dram e.type) || (is_pcm_page c e.frame && is_pcm e.type)

abbrev pub set_page : ℕ → ℕ → Page → (ℕ → ℕ → Option Page) → ℕ → ℕ → Option Page
set_page pid page e pages p v = if p == pid && v == page then some e else pages p v

abbrev pub set_owner : ℕ → Option Owner → (ℕ → Option Owner) → ℕ → Option Owner
set_owner f o physical g = if g == f then o else physical g

abbrev pub is_free : Option Owner → Bool
is_free none = true
is_free (some o) = false

-- `physicalPages.emplace`, which the source asserts to have inserted.
abbrev pub own : ℕ → Owner → Manager → Result Manager
own f o m = do
  assert (is_free (m.physical f))
  ok (record m { physical = set_owner f (some o) m.physical })

abbrev pub take_dram : List ℕ → Manager → Result (ℕ × Manager)
take_dram [] m = fault assertion
take_dram (f ∷ fs) m = ok (f, record m { free_dram = fs })

abbrev pub take_pcm : List ℕ → Manager → Result (ℕ × Manager)
take_pcm [] m = fault stopped
take_pcm (f ∷ fs) m = ok (f, record m { free_pcm = fs })

-- A free frame of the type that the policy chose.
abbrev pub take_frame : PageType → Manager → Result (ℕ × Manager)
take_frame dram m = take_dram m.free_dram m
take_frame pcm m = take_pcm m.free_pcm m
take_frame invalid m = fault assertion

-- The entry of a page that is new.
abbrev pub new_page : ℕ → PageType → Page
new_page f type = record { frame = f; type = type; is_migrating = false; stall_on_access = false }

abbrev pub place : ℕ → ℕ → PageType → Manager → Result (Page × Manager)
place pid page type m = do
  (f, m') ← take_frame type m
  m'' ← own f (record { pid = pid; page = page }) m'
  ok (new_page f type, record m'' { pages = set_page pid page (new_page f type) m''.pages })

-- The entry of a page: the one that is there, or a new one.
abbrev pub entry_of : Option Page → ℕ → ℕ → PageType → Manager → Result (Page × Manager)
entry_of (some e) pid page type m = ok (e, m)
entry_of none pid page type m = place pid page type m

abbrev pub add_cpu : ℕ → ℕ → ℕ → (ℕ → ℕ → List ℕ) → ℕ → ℕ → List ℕ
add_cpu pid page cpu stalled p v =
    if p == pid && v == page then stalled p v ++ cpu ∷ [] else stalled p v

-- The physical address, or none where the processor has to wait for the page.
abbrev pub answer : ℕ → ℕ → ℕ → Page × Manager → Result (Option ℕ × Manager)
answer pid addr cpu (e, m) = do
  assert (in_place m.config e)
  if e.stall_on_access
      then ok (
        none,
        record m { stalled_cpus = add_cpu pid (get_index m.config addr) cpu m.stalled_cpus },
      )
      else ok (some (get_address m.config e.frame (get_offset m.config addr)), m)

-- `type` is what the policy chooses, if it is asked.
unfoldable pub access : (pid addr cpu : ℕ) → PageType → Manager → Result (Option ℕ × Manager)
access pid addr cpu type m = do
  found ← entry_of (m.pages pid (get_index m.config addr)) pid (get_index m.config addr) type m
  answer pid addr cpu found

unfoldable pub find_migration : ℕ → List Migration → Option Migration
find_migration f [] = none
find_migration f (g ∷ gs) = if g.source == f then some g else find_migration f gs

unfoldable pub erase_migration : ℕ → List Migration → List Migration
erase_migration f [] = []
erase_migration f (g ∷ gs) =
    let rest = erase_migration f gs in if g.source == f then gs else g ∷ rest

unfoldable pub revise_migration : (Migration → Migration) → ℕ → List Migration → List Migration
revise_migration change f [] = []
revise_migration change f (g ∷ gs) =
    let rest = revise_migration change f gs in if g.source == f then change g ∷ gs else g ∷ rest

abbrev pub is_absent : Option Migration → Bool
is_absent none = true
is_absent (some g) = false

abbrev pub set_pending : ℕ → Pending → (ℕ → Pending) → ℕ → Pending
set_pending f n pending g = if g == f then n else pending g

abbrev pub nothing_pending : Pending
nothing_pending = record { drains = 0; flushes = 0; stalled = 0; tags = 0 }

-- `migrations.emplace`, which the source asserts to have inserted.
abbrev pub start_migration : Migration → Manager → Result Manager
start_migration g m = do
  assert (is_absent (find_migration g.source m.migrations))
  ok (record m {
    migrations = g ∷ m.migrations;
    pending = set_pending g.source nothing_pending m.pending;
  })

abbrev pub count_migration : Manager → Manager
count_migration m = record m { table_size = (m.table_size + 1) % 2 ^ 32 }

abbrev pub uncount_migration : Manager → Manager
uncount_migration m = record m { table_size = (m.table_size + 2 ^ 32 - 1) % 2 ^ 32 }

abbrev pub with_page : ℕ → ℕ → Page → Manager → Manager
with_page pid page e m = record m { pages = set_page pid page e m.pages }

abbrev pub promote : Owner → Page → Manager → Result (Option ℕ × Manager)
promote o e m = do
  (f, m') ← take_frame dram (with_page o.pid o.page (record e { is_migrating = true }) m)
  m'' ←
      start_migration
        (record {
          source = e.frame;
          pid = o.pid;
          page = o.page;
          dest_frame = f;
          dest = dram;
          phase = copying;
          rolled_back = false;
          needs_copying = false;
        })
        m'
  ok (some f, count_migration m'')

-- A migration to DRAM that the memory asks for; `granted` is what the policy says, if it is asked.
abbrev pub promote_owned : Bool → ℕ → Manager → Result (Option ℕ × Manager)
promote_owned granted f m = do
  o ← asserted (m.physical f)
  e ← asserted (m.pages o.pid o.page)
  assert (is_pcm_page m.config e.frame)
  assert (is_pcm e.type)
  if not e.is_migrating && (ltb m.table_size m.config.max_table_size && granted)
      then promote o e m
      else ok (none, m)

abbrev pub is_empty {ℓ} : {A : Type ℓ} → List A → Bool
is_empty [] = true
is_empty (x ∷ xs) = false

unfoldable pub migrate_on_demand : Bool → ℕ → Manager → Result (Option ℕ × Manager)
migrate_on_demand granted f m =
    if is_empty m.free_dram then ok (none, m) else promote_owned granted f m
