-- ===== src/SizeMap.antt =====
-- SizeMap of src/src/common.h and src/src/common.cc: from sizes in bytes to size classes, with the
-- minimal alignment of 16. `transfer` is the flag tcmalloc_transfer_num_objects, which is not negative,
-- and `step` is min_span_size, the larger of the system's page size and kPageSize. Loops on fuel give
-- `none` where it runs out.
pub mod Index
pub mod Alignment
pub mod SpanSize
pub mod Classes
pub mod ClassArray
pub mod Sizes
mod Examples
use conan_tcmalloc.Base.{
  ℕ, zero, suc, ◌+◌, ◌-◌, ◌*◌, ◌/◌, ◌%◌, ◌^◌, Bool, true, false, Option, none, some, ltb, leb, ◌==◌,
  if◌then◌else◌, max, min,
}

abbrev pub alignment : ℕ
alignment = 8

abbrev pub min_align : ℕ
min_align = 16

abbrev pub page_size : ℕ
page_size = 2 ^ 13

abbrev pub max_size : ℕ
max_size = 256 * 1024

abbrev pub max_small_size : ℕ
max_small_size = 1024

abbrev pub class_array_size : ℕ
class_array_size = (max_size + 127 + 120 * 128) / 128 + 1

-- Bytes in pages, rounded up.
unfoldable pub pages : ℕ → ℕ
pages bytes = bytes / page_size + (if ltb 0 (bytes % page_size) then 1 else 0)

unfoldable pub small_size_class : ℕ → ℕ
small_size_class s = ((s % 2 ^ 32 + 7) % 2 ^ 32) / 8

unfoldable pub large_size_class : ℕ → ℕ
large_size_class s = ((s % 2 ^ 32 + 127 + 120 * 128) % 2 ^ 32) / 128

unfoldable pub class_index : ℕ → ℕ
unfolding small_size_class large_size_class
class_index s = if leb s max_small_size then small_size_class s else large_size_class s

unfoldable pub class_index_maybe : ℕ → Option ℕ
class_index_maybe s =
    if leb s max_small_size
    then some (((s % 2 ^ 32 + 7) % 2 ^ 32) / 8)
    else (if leb s max_size then some (((s % 2 ^ 32 + 127 + 120 * 128) % 2 ^ 32) / 128) else none)

-- for (i = 4; i >= 0; --i), with the rounds left.
unfoldable pub lg_loop : ℕ → (n log : ℕ) → ℕ
lg_loop zero n log = log
lg_loop (suc i) n log =
    let x = n / 2 ^ (2 ^ i) in
    lg_loop i (if x == 0 then n else x) (if x == 0 then log else log + 2 ^ i)

unfoldable pub lg_floor : ℕ → ℕ
unfolding lg_loop
lg_floor n = lg_loop 5 n 0

-- The alignment, from the power of two of the size.
unfoldable pub alignment_with : (power size : ℕ) → ℕ
alignment_with power size =
    let wanted =
      if ltb max_size size
      then page_size
      else (if leb 128 size
          then power / 8
          else (if leb min_align size then min_align else alignment)) in
    if ltb page_size wanted then page_size else wanted

unfoldable pub alignment_for_size : ℕ → ℕ
unfolding lg_floor alignment_with
alignment_for_size size = alignment_with (2 ^ lg_floor size) size

-- The quotient of doubles is truncated to an `int`.
unfoldable pub num_move_size : (transfer size : ℕ) → ℕ
num_move_size transfer size = if size == 0 then 0 else min (max (64 * 1024 / size) 2) transfer

-- while ((psize % size) > (psize >> 3)) psize += min_span_size.
unfoldable pub waste_loop : ℕ → (step size psize : ℕ) → Option ℕ
waste_loop zero step size psize = none
waste_loop (suc fuel) step size psize =
    let rest = waste_loop fuel step size (psize + step) in
    if ltb (psize / 8) (psize % size) then rest else some psize

-- The do-while loop around it.
unfoldable pub span_loop : ℕ → (step size blocks psize : ℕ) → Option ℕ
span_loop zero step size blocks psize = none
span_loop (suc fuel) step size blocks psize =
    elim (waste_loop (8 * size + 1) step size (psize + step)) [
      | none ↦ none
      | some p ↦
          let rest = span_loop fuel step size blocks p in
          if ltb (p / size) blocks then rest else some p
    ]

-- psize of a class.
unfoldable pub span_size : (step transfer size : ℕ) → Option ℕ
span_size step transfer size =
    let blocks = num_move_size transfer size / 4 in span_loop (size * blocks + 1) step size blocks 0
