-- ===== src/SizeMap/Index.antt =====
-- ClassIndex of src/src/common.h: the flat array of two ranges of sizes.
use conan_tcmalloc.Base.{
  ℕ, ◌+◌, ◌*◌, ◌/◌, ◌≤◌, ◌<◌, ◌≡◌, ◌↔◌, ◌⊎◌, none, some, arith, leb, if◌then◌else◌,
}
use conan_tcmalloc.SizeMap.{
  max_size, max_small_size, class_index, class_index_maybe, class_array_size,
}

-- Sizes up to 1024 are rounded up to multiples of 8, larger ones to multiples of 128.
abbrev pub rounded : ℕ → ℕ
rounded s = if leb s max_small_size then (s + 7) / 8 * 8 else (s + 127) / 128 * 128

-- ClassIndexMaybe gives exactly the sizes up to kMaxSize an index, the one of ClassIndex, and it
-- is inside the array.
pub class_index_maybe-class_index :
    (s : ℕ)
    → (class_index_maybe s ≡ (if leb s max_size then some (class_index s) else none))
      × ((max_size < s) ⊎ (class_index s < class_array_size))
unfolding class_index_maybe class_index
class_index_maybe-class_index s = (ground arith, ground arith)

-- Up to kMaxSize the index rises with the size, and two sizes have one index exactly if they round
-- up to one size.
pub class_index-rounded :
    (s t : ℕ)
    → s ≤ t
    → t ≤ max_size
    → (class_index s ≤ class_index t) × ((class_index s ≡ class_index t) ↔ (rounded s ≡ rounded t))
unfolding class_index
class_index-rounded s t h m = (ground arith, ground arith)
