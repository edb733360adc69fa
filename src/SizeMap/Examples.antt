-- ===== src/SizeMap/Examples.antt =====
-- Sizes and their alignments and spans, with the default flag of 32 objects.
use conan_tcmalloc.Base.{
  ℕ, ◌+◌, ◌/◌, ◌%◌, ◌^◌, ◌≤◌, ◌<◌, ◌≡◌, refl, ◌↔◌, ◌⊎◌, leb, if◌then◌else◌, none, some, arith,
}
use conan_tcmalloc.SizeMap.{
  max_size, class_array_size, class_index, class_index_maybe, lg_floor, alignment_for_size,
  num_move_size, waste_loop, span_loop, span_size,
}
use conan_tcmalloc.SizeMap.Index.{rounded, class_index_maybe-class_index, class_index-rounded}
use conan_tcmalloc.SizeMap.Alignment.{lg_floor-bounds, IsAlignment, alignment_for_size-IsAlignment}
use conan_tcmalloc.SizeMap.SpanSize.{First, unfit, span_size-First}
use conan_tcmalloc.Base.{◌-◌}
use conan_tcmalloc.SizeMap.ClassArray.{class_array, size_class, IsBest}
use conan_tcmalloc.SizeMap.Sizes.{classes-largest}
use conan_tcmalloc.SizeMap.Sizes.Whole.{classes-size_class}
use conan_tcmalloc.SizeMap.Classes.{Classes, classes, AreClasses, classes-AreClasses}

lg_floor_1000 : lg_floor 1000 ≡ 9
unfolding lg_floor
lg_floor_1000 = refl

class_index_1025 : class_index 1025 ≡ 129
unfolding class_index
class_index_1025 = refl

span_size_1152 : span_size 8192 32 1152 ≡ some 16384
unfolding span_size span_loop waste_loop num_move_size
span_size_1152 = refl

lg_floor-bounds_example : (2 ^ lg_floor 1000 ≤ 1000) × (1000 < 2 ^ (lg_floor 1000 + 1))
lg_floor-bounds_example = lg_floor-bounds 1000 (omega arith) (omega arith)

alignment_for_size-IsAlignment_example : IsAlignment 1000 (alignment_for_size 1000)
alignment_for_size-IsAlignment_example = alignment_for_size-IsAlignment 1000

span_size-First_example :
    (p : ℕ) × (span_size 8192 32 1152 ≡ some p)
    × First (unfit 1152 (num_move_size 32 1152 / 4)) 8192 8192 p
    × (p % 8192 ≡ 0)
    × (p % 1152 ≤ p / 8)
    × (num_move_size 32 1152 / 4 ≤ p / 1152)
span_size-First_example = span_size-First 8192 1152 (omega arith) (omega arith) 32

classes-AreClasses_example :
    (c : Classes) × (last : ℕ) × (classes 8192 32 ≡ some c) × AreClasses 8192 32 last c
classes-AreClasses_example = classes-AreClasses 8192 32 (omega arith) (omega arith)

class_index_maybe-class_index_example :
    (class_index_maybe 1025 ≡ (if leb 1025 max_size then some (class_index 1025) else none))
    × ((max_size < 1025) ⊎ (class_index 1025 < class_array_size))
class_index_maybe-class_index_example = class_index_maybe-class_index 1025

class_index-rounded_example :
    (class_index 1025 ≤ class_index 1152)
    × ((class_index 1025 ≡ class_index 1152) ↔ (rounded 1025 ≡ rounded 1152))
class_index-rounded_example = class_index-rounded 1025 1152 (omega arith) (omega arith)

classes-largest_example :
    (c : Classes) × (classes 8192 32 ≡ some c) × (c.class_to_size (c.sc - 1) ≡ max_size)
classes-largest_example = classes-largest 8192 32 (omega arith) (omega arith)

classes-size_class_example :
    (c : Classes) × (b : ℕ → ℕ) × (classes 8192 32 ≡ some c)
    × (class_array c ≡ some b)
    × ((size : ℕ) → size ≤ max_size → IsBest c.class_to_size c.sc size (size_class b size))
classes-size_class_example = classes-size_class 8192 32 (omega arith) (omega arith)
