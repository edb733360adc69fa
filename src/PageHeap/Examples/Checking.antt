-- ===== src/PageHeap/Examples/Checking.antt =====
-- The theorems on CheckExpensive and GetNextRange at the heap with one free span.
use conan_tcmalloc.Base.{
  ℕ, ◌≡◌, ◌*◌, ap, sym, true, Option, some, ◌==◌, arith, Bool-cases, inl, inr,
}
use mathlib.Core.Option.{some-injective}
use conan_tcmalloc.PageHeap.State.{Span}
use conan_tcmalloc.PageHeap.Check.{check_expensive, MallocRange, get_next_range}
use conan_tcmalloc.PageHeap.Invariant.Checked.{check_expensive-passes}
use conan_tcmalloc.PageHeap.Invariant.Ranges.{Between, IsNextRange, get_next_range-IsNextRange}
use conan_tcmalloc.PageHeap.Examples.{one_free, one-IsValid}

check_expensive-passes_example : check_expensive one_free ≡ true
check_expensive-passes_example = check_expensive-passes one-IsValid

one_start : (p : ℕ) (s : Span) → one_free.spans p ≡ some s → s.start ≡ 1024
one_start p s e = elim (Bool-cases (p == 1)) [
  | inl at ↦ ap (λ t. t.start) (sym (some-injective _ _ (rw at at e)))
  | inr other ↦ cc (rw other at e)
]

one-Between : Between one_free 1024
one-Between p s e holds = omega (arith, one_start p s e)

get_next_range-IsNextRange_example :
    (x : Option MallocRange) × (get_next_range (λ c. 8 * c) 1024 one_free ≡ some x)
    × IsNextRange (λ c. 8 * c) one_free 1024 x
get_next_range-IsNextRange_example =
    get_next_range-IsNextRange (λ c. 8 * c) one-IsValid 1024 one-Between
