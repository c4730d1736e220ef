-- ===== src/Tests.antt =====
-- The theorems at concrete states of the simulator's parts.
mod Stores
mod Events
mod Bus
mod TwoLru
mod Queues
mod OldQueues
mod Clocks
mod Counts
mod Mapping
mod Managers
mod Banks
mod Memories
mod CacheSets
mod CacheModels
