-- ===== src/PageHeap.antt =====
-- src/src/page_heap.h, src/src/page_heap.cc and src/src/span.h: the allocator of runs of pages.
pub mod State
pub mod FreeLists
pub mod Spans
pub mod Merge
pub mod Release
pub mod Alloc
pub mod Check
pub mod Geometry
pub mod Listed
pub mod Tally
pub mod Invariant
mod Examples
