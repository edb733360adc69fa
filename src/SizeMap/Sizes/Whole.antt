-- ===== src/SizeMap/Sizes/Whole.antt =====
-- SizeMap::Init of src/src/common.cc as a whole: the classes it computes and the array it fills from them.
use conan_tcmalloc.Base.{
  ℕ, zero, suc, ◌+◌, ◌-◌, ◌≤◌, ◌<◌, ◌≡◌, ◌%◌, ◌/◌, refl, Bool, true, false, ◌&&◌, none, some, arith,
  leb, ◌==◌, Bool-cases, Option-cases, inl, inr, leb→le, not_leb→lt, sym, subst,
}
use conan_tcmalloc.SizeMap.{
  alignment, max_size, page_size, lg_loop, lg_floor, alignment_with, alignment_for_size, span_size,
}
use conan_tcmalloc.SizeMap.Index.{rounded}
use conan_tcmalloc.SizeMap.Classes.{
  Classes, joins, add_size, class_loop, classes, classes-AreClasses,
}
use conan_tcmalloc.SizeMap.Sizes.{
  size_after, size_after_largest, size_after-lt, size_after-le, first_size, Newest-add,
  size_after-suc, Before, add_size_pos, classes-largest,
}
use conan_tcmalloc.SizeMap.ClassArray.{
  class_array, size_class, IsBest, AreSizes, class_array-IsBest,
}

-- The first sizes are whole multiples for the index.
whole_sizes : ℕ → Bool
unfolding size_after
whole_sizes zero = rounded (size_after zero) == size_after zero
whole_sizes (suc n) = (rounded (size_after (suc n)) == size_after (suc n)) && whole_sizes n

whole_sizes_104 : whole_sizes 104 ≡ true
unfolding whole_sizes size_after alignment_for_size lg_floor lg_loop alignment_with
whole_sizes_104 = refl

whole_sizes-le : (n m : ℕ) → whole_sizes n ≡ true → m ≤ n → rounded (size_after m) ≡ size_after m
unfolding whole_sizes
whole_sizes-le zero m h le =
    let e : 0 ≡ m = omega arith in
    let whole : rounded (size_after 0) ≡ size_after 0 = ground (arith, h) in
    subst (λ k. rounded (size_after k) ≡ size_after k) e whole
whole_sizes-le (suc n) m h le = elim (Bool-cases (leb m n)) [
  | inl below ↦ whole_sizes-le n m (ground (arith, h)) (leb→le m n below)
  | inr same ↦
      let e : suc n ≡ m = omega (arith, not_leb→lt m n same) in
      let whole : rounded (size_after (suc n)) ≡ size_after (suc n) = ground (arith, h) in
      subst (λ k. rounded (size_after k) ≡ size_after k) e whole
]

abbrev Whole : ℕ → Type 0
Whole size = (rounded size ≡ size) × (size ≤ max_size)

size_after-Whole : (n : ℕ) → size_after n ≤ max_size → Whole (size_after n)
size_after-Whole n h = elim (Bool-cases (leb n 104)) [
  | inl early ↦ (whole_sizes-le 104 n whole_sizes_104 (leb→le n 104 early), h)
  | inr late ↦ absurd (
      omega (
        arith,
        size_after_largest,
        size_after-lt 104,
        size_after-le 105 n (omega (arith, not_leb→lt n 104 late)),
      ))
]

abbrev AllWhole : Classes → Type 0
AllWhole c = (i : ℕ) → 0 < i → i < c.sc → Whole (c.class_to_size i)

AllWhole-add :
    (size my_pages : ℕ) (c : Classes)
    → Whole size
    → AllWhole c
    → AllWhole (add_size size my_pages c)
unfolding add_size
AllWhole-add size my_pages c w all = elim (Bool-cases (joins size my_pages c)) [
  | inl merged ↦
      rw (merged, add_size)
        (λ i p q. elim (Bool-cases (i == c.sc - 1)) [
          | inl last ↦ subst Whole (ground arith) w
          | inr other ↦ subst Whole (ground arith) (all i p q)
        ])
  | inr fresh ↦
      rw (fresh, add_size)
        (λ i p q. elim (Bool-cases (i == c.sc)) [
          | inl last ↦ subst Whole (ground arith) w
          | inr other ↦ subst Whole (ground arith) (all i p (ground arith))
        ])
]

some_class : (n : ℕ) (c : Classes) → Before n c → leb (size_after n) max_size ≡ false → 1 < c.sc
some_class n c (inl e) past =
    absurd (omega (arith, not_leb→lt (size_after n) max_size past, first_size n e))
some_class n c (inr (m, e, le, newest)) past = newest.0

module _ (step transfer : ℕ) where
  class_loop-AllWhole :
      (fuel n : ℕ) (c c' : Classes)
      → 0 < c.sc
      → Before n c
      → AllWhole c
      → class_loop fuel step transfer (size_after n) c ≡ some c'
      → (1 < c'.sc) × AllWhole c'
  unfolding class_loop
  class_loop-AllWhole zero n c c' h w all e = cc
  class_loop-AllWhole (suc fuel) n c c' h w all e =
      elim (Bool-cases (leb (size_after n) max_size)) [
        | inr past ↦
            let q : some c ≡ some c' = rw past at e in
            let same : c ≡ c' = cc in
            subst (λ d. (1 < d.sc) × AllWhole d) same (some_class n c w past, all)
        | inl more ↦ elim (Option-cases (span_size step transfer (size_after n))) [
          | inl no_size ↦ let q : none ≡ some c' = rw (more, no_size) at e in cc
          | inr (psize, is) ↦
              let le = leb→le (size_after n) max_size more in
              class_loop-AllWhole fuel (suc n) (add_size (size_after n) (psize / page_size) c) c'
                (add_size_pos (size_after n) (psize / page_size) c h)
                (inr (n, refl, le, Newest-add n (psize / page_size) c h))
                (AllWhole-add (size_after n) (psize / page_size) c (size_after-Whole n le) all)
                (rw (size_after-suc n) (rw (more, is, class_loop) at e))
        ]
      ]

-- For a min_span_size that is a multiple of the page size and not 0, the loop that computes the
-- classes and the one that fills the array end, and SizeClass then gives every size up to kMaxSize
-- the least class that has room for it.
pub classes-size_class :
    (step transfer : ℕ)
    → 0 < step
    → step % page_size ≡ 0
    → (c : Classes) × (b : ℕ → ℕ) × (classes step transfer ≡ some c)
      × (class_array c ≡ some b)
      × ((size : ℕ) → size ≤ max_size → IsBest c.class_to_size c.sc size (size_class b size))
unfolding classes
classes-size_class step transfer pos paged =
    let (c, last, is, a) = classes-AreClasses step transfer pos paged in
    let (c', is', largest) = classes-largest step transfer pos paged in
    let same : c' ≡ c = cc (is, is') in
    let top = subst (λ d. d.class_to_size (d.sc - 1) ≡ max_size) same largest in
    let start : Classes = record { sc = 1; class_to_size = λ i. 0; class_to_pages = λ i. 0 } in
    let from =
      subst (λ k. class_loop (max_size / alignment + 1) step transfer k start ≡ some c)
        (sym (first_size 0 refl)) is in
    let (more, all) =
      class_loop-AllWhole step transfer (max_size / alignment + 1) 0 start c (omega arith)
        (inl refl) (λ i p q. absurd (omega arith)) from in
    let sizes : AreSizes c.class_to_size c.sc = record {
      rises = a.rises;
      whole = λ i p q. (all i p q).0;
      small = λ i p q. (all i p q).1;
    } in
    let (b, fills, best) = class_array-IsBest c more sizes in
    (c, b, is, fills, λ size h. best size (omega (arith, top)))
