-- ===== src/PageHeap/Geometry.antt =====
-- How the Span objects of a PageHeap (src/src/page_heap.h) lie: they are apart from one another, the page
-- map leads to each from its first and last page, and a page that the map knows lies in one of them.
pub mod Stock
pub mod Tiling
pub mod Split
pub mod Join
pub mod Add
use conan_tcmalloc.PageHeap.State.{Directory}

pub record Geometry (d : Directory) : Type 0 where
  pub stock : Stock.Stock d
  pub tiling : Tiling.Tiling d.spans d.pagemap
