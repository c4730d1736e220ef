-- ===== src/Lib.antt =====
-- Verification of HMMsim, a simulator of hybrid main memories of DRAM and phase change memory (PCM).
--
-- The simulator is a set of components that run on one event engine. A component asks the engine for an
-- event some cycles ahead, and its handler is called then. Processors follow traces of memory accesses
-- through caches to a hybrid memory; its manager keeps the page tables, and asks a migration policy
-- where a new page goes, tells it of accesses, and asks it which page to move between DRAM and PCM.
--
-- The files, and the code that each is about:
--   Prelude      shared: Boolean tests, lists, words of 64 bits, and results with faults. A fault is
--                an assertion that fails (`myassert`, include/Error.H), a read through an iterator that
--                points at nothing, an index out of range, a division by zero, a call of `error`, or
--                fuel that is used up.
--   Engine       `Engine` (Engine.cpp, include/Engine.H). `run` takes the number of rounds, since the
--                loop may go on for ever; what a handler does is a parameter. The statistics that the
--                engine prints and the wall-clock time are left out. The order of events of one time
--                in the priority queue is open in the source; the model takes that of insertion.
--   Bus          `Bus` (Bus.cpp, include/Bus.H). The map of transfers is a list by start.
--   Mapping      `MemoryMapping` (include/Bank.H, start of Bank.cpp). The logarithm of an
--                `unsigned` has 32 rounds, as many as the number has digits.
--   RequestQueue `Bank::Queue` (include/Bank.H): the requests of a bank by priority. A request is known
--                by its pointer.
--   Bank         `Bank` (Bank.cpp, include/Bank.H); Bank/Events are the calls that others make of it. What
--                it asks of the engine, the bus and the memory is a list of actions, and the delay that
--                the bus grants an argument. The other modules below it are proofs: Protocol says what is
--                on its way in each state, System puts the bank together with that, and Reach is about all
--                states from the construction on.
--   Memory       `Memory` (Memory.cpp, include/Memory.H). `accessCompleted` is two functions, `retire` and
--                `release`, since the caller that it calls between them may come with requests.
--   CacheSet     `Set` (Cache.cpp, include/Cache.H)
--   CacheModel   `CacheModel` (Cache.cpp, include/Cache.H); CacheModel/Remap is its `remap`. The loop over a
--                page has a round for each byte, more than the blocks that it has.
--   HybridManager `HybridMemoryManager` (MemoryManager.cpp, include/MemoryManager.H): the page tables and
--                the calls of the processors and the memory; HybridManager/Flushing and Finishing have the
--                steps of a migration, and HybridManager/Events what the caches, the processors and the
--                engine call back. Frames are numbers, those of DRAM first. What a policy or the memory
--                answers is an argument, and what the manager asks of others a list of actions; those that
--                it asks of answer by later events. The counts that a migration entry has for its flushes
--                are kept beside the entries. The other modules below it are proofs: Frames says what holds
--                of the tables and the free frames, and the others that a call keeps it.
--   Counter      `Counter`, `CycleCounter` and `CounterTraceReader` (Counter.cpp), but for its parser
--                and its output.
--   Partition    `OfflinePartition::calculate` (Partition.cpp); rates are percentages.
--   Migration    the policies (Migration.cpp, include/Migration.H):
--     Store         the lists of access entries and the page map, which hold iterators of one another:
--                   nodes are numbered, and an iterator is a number.
--     Base          `BaseMigrationPolicy`
--     OldBase       `OldBaseMigrationPolicy`; what the allocator advises is an argument.
--     MultiQueue    `MultiQueueMigrationPolicy`; the engine's timestamp is an argument.
--     OldMultiQueue `OldMultiQueueMigrationPolicy`; OldMultiQueue/Choice names the page that is to move
--                   without the loops of the code.
--     Clock         the loop and the hand that the next two have in common. It has as much fuel as there
--                   are pages, and one more: each round clears a bit. Clock/Turn tells the order in which
--                   the hand comes to the pages.
--     DoubleClock   `OldDoubleClockMigrationPolicy`
--     FirstTouch    `OldFirstTouchMigrationPolicy`
--     TwoLru        `OldTwoLRUMigrationPolicy`
--   Tests        the theorems at concrete states.
--
-- A state is a record with the fields of the class, a method a function from state to state, or to a
-- result with a state. Numbers are natural numbers; sums and differences of `uint64` and `int64` are
-- taken modulo 2 ^ 64. Output to `cout` is left out.
--
-- Not modelled: the requests under way in a cache (`Cache`), `CacheMemory`, the hybrid memory, the
-- older memory managers, the construction, monitors and partition periods of the newer one, processors,
-- traces, statistics, arguments, and the tools over trace files. `OldOfflineMigrationPolicy` reads
-- its counts from compressed files and is not modelled either.
pub mod Prelude
pub mod RequestQueue
pub mod Bank
pub mod Memory
pub mod CacheSet
pub mod CacheModel
pub mod HybridManager
pub mod Engine
pub mod Bus
pub mod Mapping
pub mod Counter
pub mod Partition
pub mod Migration
pub mod Tests
