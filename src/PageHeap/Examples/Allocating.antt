-- ===== src/PageHeap/Examples/Allocating.antt =====
-- The theorems on releasing, deleting and allocating at the heaps with one span.
use conan_tcmalloc.Base.{
  ℕ, ◌+◌, ◌*◌, ◌^◌, ◌≡◌, refl, true, false, ◌&&◌, none, some, arith, leb, ltb, if◌then◌else◌, word,
  ◌⊎◌,
}
use conan_tcmalloc.PageMap.Two.{get}
use conan_tcmalloc.PageHeap.State.{System, page_bits}
use conan_tcmalloc.PageHeap.Release.{ensure_limit, delete_locked}
use conan_tcmalloc.PageHeap.Spans.{register_size_class}
use conan_tcmalloc.PageHeap.Alloc.{search_free_and_large_lists}
use conan_tcmalloc.PageHeap.Geometry.Tiling.{Holds}
use conan_tcmalloc.PageHeap.Invariant.{IsValid, Returns}
use conan_tcmalloc.PageHeap.Invariant.Freed.{Freed}
use conan_tcmalloc.PageHeap.Invariant.Kept.{FreeIn}
use conan_tcmalloc.PageHeap.Invariant.Deleted.{deleted_span, ensure_limit_rule, delete_locked_rule}
use conan_tcmalloc.PageHeap.Invariant.Searched.{Allocated, search_rule}
use conan_tcmalloc.PageHeap.Invariant.SizeClass.{register_rule}
use conan_tcmalloc.PageHeap.Examples.{
  sys, one_free, one-IsValid, one_used, one_used-IsValid, used_span,
}

-- The system gives up to 1 GB at a time, far from page 1024.
abbrev modest : System
modest = record sys {
  alloc = λ i n.
      if leb 8192 n && ltb n (2 ^ 30) then some ((2 ^ 21 + 2 ^ 20 * i) * 2 ^ 13, n) else none;
}

-- It may use up to one MB.
abbrev tight : System
tight = record sys { heap_limit_mb = 1 }

ensure_limit_rule_example :
    Returns (λ room h. IsValid h) (ensure_limit tight word 1000 true one_free)
ensure_limit_rule_example = ensure_limit_rule tight word 1000 one-IsValid true (omega arith)

-- With memory_release_rate 0.
abbrev quiet : System
quiet = record sys { releasing = false }

delete_locked_rule_example :
    Returns
      (λ _ h.
        IsValid h
        × FreeIn h used_span
        × ((quiet.releasing ≡ true) ⊎ Freed 1 (deleted_span used_span) h))
      (delete_locked quiet 2 1 one_used)
delete_locked_rule_example =
    delete_locked_rule quiet 2 1 used_span one_used-IsValid refl refl (omega arith)

search_rule_example : Returns (Allocated one_free 3) (search_free_and_large_lists sys 1 3 one_free)
search_rule_example = search_rule sys 3 (omega arith) 1 one-IsValid refl (omega arith)

register_rule_example :
    Returns
      (λ _ h.
        IsValid h
        × (h.spans 1 ≡ some (record used_span { sizeclass = 5 }))
        × ((k : ℕ) → Holds used_span k → get page_bits h.pagemap k ≡ some 1))
      (register_size_class 1 5 one_used)
register_rule_example = register_rule 1 5 used_span one_used-IsValid refl refl
