-- ===== src/PageHeap/Check.antt =====
-- CheckExpensive, GetSmallSpanStats, GetLargeSpanStats and GetNextRange of src/src/page_heap.cc.
use conan_tcmalloc.Base.{
  ℕ, zero, suc, ◌+◌, ◌-◌, ◌*◌, Bool, true, false, ◌&&◌, Option, none, some, List, [], ◌∷◌, length,
  ltb, leb, ◌==◌, if◌then◌else◌,
}
use conan_tcmalloc.PageMap.Two.{next}
use conan_tcmalloc.PageHeap.State.{
  Location, in_use, on_normal_freelist, on_returned_freelist, Span, PageHeap, max_pages, page_bits,
  bytes,
}
use conan_tcmalloc.PageHeap.Spans.{get_descriptor}
use conan_tcmalloc.PageHeap.Merge.{same_location}

-- The pointer `p` in the map.
abbrev pub points_to : Option ℕ → ℕ → Bool
points_to none p = false
points_to (some q) p = q == p

-- The conditions on a span of a list or a set: `false` is the crash of a CHECK_CONDITION.
unfoldable pub check_span : (loc : Location) → (min_pages p : ℕ) → (Span → Bool) → PageHeap → Bool
unfolding get_descriptor
check_span loc min_pages p fits h = elim (h.spans p) [
  | none ↦ false
  | some s ↦
      same_location s.location loc
      && (leb min_pages s.length
          && (fits s
              && (points_to (get_descriptor s.start h) p
                  && points_to (get_descriptor (s.start + s.length - 1) h) p)))
]

unfoldable pub check_list : List ℕ → (min_pages max_pages : ℕ) → Location → PageHeap → Bool
unfolding check_span
check_list [] lo hi loc h = true
check_list (p ∷ ps) lo hi loc h =
    check_span loc lo p (λ s. leb s.length hi) h && check_list ps lo hi loc h

-- A set holds pointers alone: the length of its entry is the one of the span.
unfoldable pub check_set : List ℕ → (min_pages : ℕ) → Location → PageHeap → Bool
unfolding check_span
check_set [] lo loc h = true
check_set (p ∷ ps) lo loc h = check_span loc lo p (λ s. true) h && check_set ps lo loc h

-- for (s = 1; s <= kMaxPages; s++), with the rounds left.
unfoldable pub check_lists : (rounds s : ℕ) → PageHeap → Bool
unfolding check_list
check_lists zero s h = true
check_lists (suc rounds) s h =
    check_list (h.normal (s - 1)) s s on_normal_freelist h
    && (check_list (h.returned (s - 1)) s s on_returned_freelist h && check_lists rounds (s + 1) h)

unfoldable pub check_expensive : PageHeap → Bool
unfolding check_set check_lists
check_expensive h =
    check_set h.large_normal (max_pages + 1) on_normal_freelist h
    && (check_set h.large_returned (max_pages + 1) on_returned_freelist h
        && check_lists max_pages 1 h)

-- The lengths of the lists, for the index `i` below kMaxPages.
pub record SmallSpanStats : Type 0 where
  pub normal_length : ℕ → ℕ
  pub returned_length : ℕ → ℕ

unfoldable pub small_span_stats : PageHeap → SmallSpanStats
small_span_stats h = record {
  normal_length = λ i. length (h.normal i);
  returned_length = λ i. length (h.returned i);
}

pub record LargeSpanStats : Type 0 where
  pub spans : ℕ
  pub normal_pages : ℕ
  pub returned_pages : ℕ

-- The pages of the spans of a set, added up.
unfoldable pub set_pages_total : (ℕ → Option Span) → List ℕ → ℕ
set_pages_total spans [] = 0
set_pages_total spans (p ∷ ps) =
    elim (spans p) [ none ↦ 0 | some s ↦ s.length ] + set_pages_total spans ps

unfoldable pub large_span_stats : PageHeap → LargeSpanStats
unfolding set_pages_total
large_span_stats h = record {
  spans = length h.large_normal + length h.large_returned;
  normal_pages = set_pages_total h.spans h.large_normal;
  returned_pages = set_pages_total h.spans h.large_returned;
}

pub data RangeType : Type 0 where
  inuse free unmapped unknown : RangeType

abbrev pub range_type : Location → RangeType
range_type in_use = inuse
range_type on_normal_freelist = free
range_type on_returned_freelist = unmapped

-- `fraction` is a numerator and a denominator; the code divides them as `double`s.
pub record MallocRange : Type 0 where
  pub address : ℕ
  pub length : ℕ
  pub type : RangeType
  pub fraction : ℕ × ℕ

abbrev pub fraction_of : (ℕ → ℕ) → Span → ℕ × ℕ
fraction_of class_to_size s = elim (s.location) [
  | in_use ↦
      if ltb 0 s.sizeclass then (class_to_size s.sizeclass * s.refcount, bytes s.length) else (1, 1)
  | _ ↦ (0, 1)
]

abbrev pub range_of : (ℕ → ℕ) → Span → MallocRange
range_of class_to_size s = record {
  address = bytes s.start;
  length = bytes s.length;
  type = range_type s.location;
  fraction = fraction_of class_to_size s;
}

-- `none` is a use of a deleted Span, or a search of the map that does not end.
unfoldable pub get_next_range : (ℕ → ℕ) → ℕ → PageHeap → Option (Option MallocRange)
get_next_range class_to_size start h = elim (next page_bits h.pagemap start) [
  | none ↦ none
  | some none ↦ some none
  | some (some p) ↦ elim (h.spans p) [
    | none ↦ none
    | some s ↦ some (some (range_of class_to_size s))
  ]
]
