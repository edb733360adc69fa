-- ===== src/PageHeap/Invariant/Start.antt =====
-- The constructor of the page heap (src/src/page_heap.cc).
use conan_tcmalloc.Base.{ℕ, ◌≡◌, refl, none, arith}
use conan_tcmalloc.PageMap.Two.{get, empty}
use conan_tcmalloc.PageHeap.State.{new_heap, page_bits}
use conan_tcmalloc.PageHeap.State.{bytes}
use conan_tcmalloc.PageHeap.Tally.{tally_zero}
use conan_tcmalloc.PageHeap.Invariant.{IsValid}

get-empty : (k : ℕ) → get page_bits {V = ℕ} empty k ≡ none
unfolding get empty
get-empty k = ground arith

-- A new page heap keeps the invariant, and its page map has no pointer.
pub new_heap-IsValid :
    (size : ℕ)
    → IsValid (new_heap size) × ((k : ℕ) → get page_bits (new_heap size).pagemap k ≡ none)
unfolding bytes empty
new_heap-IsValid size = (
  record {
    geometry = record {
      stock = record {
        null = refl;
        born = omega arith;
        unborn = λ p h. refl;
        distinct = tt;
        dead = λ p h. refl;
        dead_born = λ p h. cc;
      };
      tiling = record {
        filled = λ p s h. cc;
        apart = λ p q s t n a b. cc;
        covered = λ k q h. cc (get-empty k);
      };
    };
    listed = record {
      listed = λ p s a b c. cc;
      normal = λ i p h. cc;
      returned = λ i p h. cc;
      large_normal = λ p h. cc;
      large_returned = λ p h. cc;
    };
    balanced = refl;
    counted = λ n k. ground (arith, tally_zero n);
    owned = λ n k. ground (arith, tally_zero n);
    limited = omega arith;
  },
  get-empty,
)
