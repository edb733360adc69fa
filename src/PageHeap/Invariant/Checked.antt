-- ===== src/PageHeap/Invariant/Checked.antt =====
-- CheckExpensive of src/src/page_heap.cc and the invariant of the heap.
use conan_tcmalloc.Base.{
  ℕ, zero, suc, ◌+◌, ◌-◌, ◌≤◌, ◌<◌, ◌≡◌, refl, Bool, true, some, List, [], ◌∷◌, leb, ◌==◌, arith,
  has,
}
use conan_tcmalloc.PageHeap.State.{
  Location, in_use, on_normal_freelist, on_returned_freelist, Span, PageHeap, max_pages,
}
use conan_tcmalloc.PageHeap.Spans.{get_descriptor}
use conan_tcmalloc.PageHeap.Merge.{same_location}
use conan_tcmalloc.PageHeap.Check.{check_span, check_list, check_set, check_lists, check_expensive}
use conan_tcmalloc.PageHeap.Invariant.{IsValid}

same_location_refl : (loc : Location) → same_location loc loc ≡ true
same_location_refl in_use = refl
same_location_refl on_normal_freelist = refl
same_location_refl on_returned_freelist = refl

==_refl : (n : ℕ) → (n == n) ≡ true
==_refl n = ground arith

check_list-all :
    (lo hi : ℕ) (loc : Location) (h : PageHeap) (ps : List ℕ)
    → ((p : ℕ) → has p ps ≡ true → check_span loc lo p (λ s. leb s.length hi) h ≡ true)
    → check_list ps lo hi loc h ≡ true
unfolding check_list
check_list-all lo hi loc h [] each = refl
check_list-all lo hi loc h (p ∷ ps) each =
    let here = each p (rw (==_refl p) refl) in
    let rest = check_list-all lo hi loc h ps (λ q m. each q (ground (arith, m))) in
    rw (here, rest) refl

check_set-all :
    (lo : ℕ) (loc : Location) (h : PageHeap) (ps : List ℕ)
    → ((p : ℕ) → has p ps ≡ true → check_span loc lo p (λ s. true) h ≡ true)
    → check_set ps lo loc h ≡ true
unfolding check_set
check_set-all lo loc h [] each = refl
check_set-all lo loc h (p ∷ ps) each =
    let here = each p (rw (==_refl p) refl) in
    let rest = check_set-all lo loc h ps (λ q m. each q (ground (arith, m))) in rw (here, rest) refl

module _ {h : PageHeap} (v : IsValid h) where
  check_span-passes :
      (loc : Location) (lo p : ℕ) (fits : Span → Bool) (s : Span)
      → h.spans p ≡ some s
      → s.location ≡ loc
      → lo ≤ s.length
      → fits s ≡ true
      → check_span loc lo p fits h ≡ true
  unfolding check_span get_descriptor
  check_span-passes loc lo p fits s e at long ok =
      let f = v.geometry.tiling.filled p s e in
      let least : leb lo s.length ≡ true = ground arith in
      let listed : same_location s.location loc ≡ true = rw (at, same_location_refl loc) refl in
      rw (e, check_span, listed, least, ok, f.first, f.last, ==_refl p) refl

  check_lists-passes : (rounds s : ℕ) → 0 < s → check_lists rounds s h ≡ true
  unfolding check_lists
  check_lists-passes zero s pos = refl
  check_lists-passes (suc rounds) s pos =
      let normal = check_list-all s s on_normal_freelist h (h.normal (s - 1)) (λ p m.
        let (x, e, _, at, (len, _)) = v.listed.normal (s - 1) p m in
        check_span-passes on_normal_freelist s p (λ y. leb y.length s) x e at (omega arith)
          (ground arith)) in
      let returned = check_list-all s s on_returned_freelist h (h.returned (s - 1)) (λ p m.
        let (x, e, _, at, (len, _)) = v.listed.returned (s - 1) p m in
        check_span-passes on_returned_freelist s p (λ y. leb y.length s) x e at (omega arith)
          (ground arith)) in
      rw (normal, returned, check_lists-passes rounds (s + 1) (omega arith)) refl

  -- In a heap that keeps the invariant CheckExpensive finds nothing wrong with any list or set.
  pub check_expensive-passes : check_expensive h ≡ true
  unfolding check_expensive
  check_expensive-passes =
      let normal = check_set-all (max_pages + 1) on_normal_freelist h h.large_normal (λ p m.
        let (x, e, _, at, len) = v.listed.large_normal p m in
        check_span-passes on_normal_freelist (max_pages + 1) p (λ y. true) x e at (omega arith)
          refl) in
      let returned = check_set-all (max_pages + 1) on_returned_freelist h h.large_returned (λ p m.
        let (x, e, _, at, len) = v.listed.large_returned p m in
        check_span-passes on_returned_freelist (max_pages + 1) p (λ y. true) x e at (omega arith)
          refl) in
      rw (normal, returned, check_lists-passes max_pages 1 (omega arith)) refl
