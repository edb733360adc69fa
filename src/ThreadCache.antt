-- ===== src/ThreadCache.antt =====
-- The caches of threads, src/src/thread_cache.h and src/src/thread_cache.cc.
pub mod FreeList
pub mod Lists
pub mod Cache
pub mod Traffic
pub mod Invariant
pub mod Owned
pub mod Budget
pub mod Release
pub mod Health
pub mod Deallocate
pub mod Given
pub mod Taken
pub mod Filled
pub mod Allocate
pub mod RoundTrip
pub mod Destroy
mod Examples
