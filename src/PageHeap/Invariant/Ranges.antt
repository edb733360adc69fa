-- ===== src/PageHeap/Invariant/Ranges.antt =====
-- GetNextRange of src/src/page_heap.cc, from a page that is not inside a span.
use conan_tcmalloc.Base.{
  ℕ, ◌≤◌, ◌<◌, ◌≡◌, sym, subst, refl, Option, none, some, ltb, arith, Bool-cases, inl, inr, ◌*◌,
  ◌%◌, word, ◌≢◌, true,
}
use mathlib.Core.Option.{some-injective}
use conan_tcmalloc.PageMap.{IsFirst, found, absent}
use conan_tcmalloc.PageMap.Two.{get, next}
use conan_tcmalloc.PageMap.Two.Scan.{next-IsFirst}
use conan_tcmalloc.PageHeap.State.{
  Span, PageHeap, page_bits, bytes, in_use, on_normal_freelist, on_returned_freelist,
}
use conan_tcmalloc.PageHeap.Check.{MallocRange, inuse, free, unmapped, range_of, get_next_range}
use conan_tcmalloc.PageHeap.Geometry.Tiling.{Holds}
use conan_tcmalloc.PageHeap.Invariant.{IsValid}

-- A span with this page has it first.
abbrev pub Between : PageHeap → ℕ → Type 0
Between h start = (p : ℕ) (s : Span) → h.spans p ≡ some s → Holds s start → start ≤ s.start

-- What is reported of a span: its bytes on 64-bit words, its state, and of a span in use the part that its
-- objects take, or all of it where it has no size class.
pub record Reports (class_to_size : ℕ → ℕ) (s : Span) (r : MallocRange) : Type 0 where
  pub address : r.address ≡ (s.start * 8192) % word
  pub length : r.length ≡ (s.length * 8192) % word
  pub used : s.location ≡ in_use → r.type ≡ inuse
  pub normal : s.location ≡ on_normal_freelist → r.type ≡ free
  pub returned : s.location ≡ on_returned_freelist → r.type ≡ unmapped
  pub nothing_used : s.location ≢ in_use → r.fraction.0 ≡ 0
  pub all_used : s.location ≡ in_use → s.sizeclass ≡ 0 → (r.fraction.0 ≡ 1) × (r.fraction.1 ≡ 1)
  pub objects_used :
      s.location ≡ in_use
      → 0 < s.sizeclass
      → (r.fraction.0 ≡ class_to_size s.sizeclass * s.refcount) × (r.fraction.1 ≡ r.length)

range_of-Reports :
    (class_to_size : ℕ → ℕ) (s : Span) → Reports class_to_size s (range_of class_to_size s)
unfolding bytes
range_of-Reports class_to_size s = record {
  address = refl;
  length = refl;
  used = λ e. rw e refl;
  normal = λ e. rw e refl;
  returned = λ e. rw e refl;
  nothing_used = λ ne. ground (arith, ne);
  all_used = λ e z. rw (e, z) (refl, refl);
  objects_used =
      λ e pos. let more : ltb 0 s.sizeclass ≡ true = ground arith in rw (e, more) (refl, refl);
}

-- The range of the first span from `start` on, or that there is none.
pub data IsNextRange (class_to_size : ℕ → ℕ) (h : PageHeap) (start : ℕ)
    : Option MallocRange → Type 0 where
  no_more :
      ((p : ℕ) (s : Span) → h.spans p ≡ some s → s.start < start)
      → IsNextRange class_to_size h start none
  following :
      (p : ℕ) (s : Span)
      → h.spans p ≡ some s
      → start ≤ s.start
      → ((q : ℕ) (t : Span) → h.spans q ≡ some t → start ≤ t.start → s.start ≤ t.start)
      → (r : MallocRange) → Reports class_to_size s r
      → IsNextRange class_to_size h start (some r)

module _ (class_to_size : ℕ → ℕ) {h : PageHeap} (v : IsValid h) (start : ℕ)
    (b : Between h start) where
  -- A span that starts in a part of the map without pointers is none.
  no_span : (p : ℕ) (s : Span) → h.spans p ≡ some s → ¬ (get page_bits h.pagemap s.start ≡ none)
  no_span p s e empty = cc (sym ((v.geometry.tiling.filled p s e).first), empty)

  starts :
      (i q : ℕ)
      → start ≤ i
      → get page_bits h.pagemap i ≡ some q
      → ((j : ℕ) → start ≤ j → j < i → get page_bits h.pagemap j ≡ none)
      → (s : Span) × (h.spans q ≡ some s) × (s.start ≡ i)
  starts i q le g below =
      let (p, s, e, holds) = v.geometry.tiling.covered i q g in
      let after : start ≤ s.start = elim (Bool-cases (ltb s.start start)) [
        | inl lt ↦ b p s e (ground arith, ground arith)
        | inr ge ↦ ground arith
      ] in
      let at : s.start ≡ i = elim (Bool-cases (ltb s.start i)) [
        | inl lt ↦ absurd (no_span p s e (below s.start after (ground arith)))
        | inr ge ↦ ground arith
      ] in
      let first =
        subst (λ k. get page_bits h.pagemap k ≡ some p) at (v.geometry.tiling.filled p s e).first in
      let same : p ≡ q = some-injective _ _ (cc (first, g)) in
      (s, subst (λ x. h.spans x ≡ some s) same e, at)

  range_from :
      (r : Option ℕ)
      → next page_bits h.pagemap start ≡ some r
      → IsFirst (get page_bits h.pagemap) start r
      → (x : Option MallocRange) × (get_next_range class_to_size start h ≡ some x)
        × IsNextRange class_to_size h start x
  unfolding get_next_range
  range_from none n (absent above) = (
    none,
    rw (n, get_next_range) refl,
    no_more (λ p s e. elim (Bool-cases (ltb s.start start)) [
      | inl lt ↦ ground arith
      | inr ge ↦ absurd (no_span p s e (above s.start (ground arith)))
    ]),
  )
  range_from (some q) n (found i le g below) =
      let (s, e, at) = starts i q le g below in
      let least : (p : ℕ) (t : Span) → h.spans p ≡ some t → start ≤ t.start → s.start ≤ t.start =
        λ p t f from. elim (Bool-cases (ltb t.start i)) [
          | inl lt ↦ absurd (no_span p t f (below t.start from (ground arith)))
          | inr ge ↦ ground (arith, at)
        ] in
      (
        some (range_of class_to_size s),
        rw (n, get_next_range, e) refl,
        following q s e (omega arith) least (range_of class_to_size s)
            (range_of-Reports class_to_size s),
      )

  -- From a page that is not inside a span, other than as its first page, GetNextRange of a heap
  -- that keeps the invariant returns: of the first span that starts there or later its address and
  -- length in bytes, INUSE, FREE or UNMAPPED as it is in use, free or given back, and the fraction
  -- in use, 1 or what its objects take; or that there is no such span.
  pub get_next_range-IsNextRange :
      (x : Option MallocRange) × (get_next_range class_to_size start h ≡ some x)
      × IsNextRange class_to_size h start x
  get_next_range-IsNextRange =
      let (r, n, first) = next-IsFirst page_bits h.pagemap start in range_from r n first
