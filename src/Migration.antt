-- ===== src/Migration.antt =====
-- The migration policies (Migration.cpp, include/Migration.H): which pages are kept in DRAM and which
-- in PCM.
pub mod Store
pub mod Base
pub mod OldBase
pub mod TwoLru
pub mod Clock
pub mod DoubleClock
pub mod MultiQueue
pub mod FirstTouch
pub mod OldMultiQueue
