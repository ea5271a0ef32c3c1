-- ===== src/Sync.antt =====
-- mcsos/kernel/sync and mcsos/include/mcs_sync.h: lock ordering checks, spinlocks and mutexes.
pub mod Status
pub mod Lockdep
pub mod Spin
pub mod Mutex
