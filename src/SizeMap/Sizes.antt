-- ===== src/SizeMap/Sizes.antt =====
-- The sizes that the loop of SizeMap::Init of src/src/common.cc goes through.
pub mod Whole
use conan_tcmalloc.Base.{
  ℕ, zero, suc, ◌+◌, ◌-◌, ◌≤◌, ◌<◌, ◌≡◌, ◌⊎◌, refl, false, none, some, arith, leb, Bool-cases,
  Option-cases, inl, inr, leb→le, sym, ◌%◌, ap, ◌∙◌, ◌/◌, not_leb→lt, subst,
}
use conan_tcmalloc.SizeMap.{
  alignment, max_size, page_size, lg_loop, lg_floor, alignment_with, alignment_for_size, span_size,
}
use conan_tcmalloc.SizeMap.Alignment.{alignment_for_size-le}
use conan_tcmalloc.SizeMap.Classes.{
  Classes, joins, add_size, class_loop, classes, classes-AreClasses,
}

-- The size after so many steps from the first.
pub size_after : ℕ → ℕ
size_after zero = alignment
size_after (suc n) = size_after n + alignment_for_size (size_after n)

pub size_after_largest : size_after 104 ≡ max_size
unfolding size_after alignment_for_size lg_floor lg_loop alignment_with
size_after_largest = refl

pub size_after-lt : (n : ℕ) → size_after n < size_after (suc n)
unfolding size_after
size_after-lt n = omega (arith, alignment_for_size-le (size_after n))

pub size_after-le : (m n : ℕ) → m ≤ n → size_after m ≤ size_after n
size_after-le m zero h =
    let e : m ≡ 0 = omega arith in subst (λ k. size_after m ≤ size_after k) e (omega arith)
size_after-le m (suc n) h = elim (Bool-cases (leb m n)) [
  | inl below ↦ omega (arith, size_after-le m n (leb→le m n below), size_after-lt n)
  | inr same ↦
      let e : m ≡ suc n = omega (arith, not_leb→lt m n same) in
      subst (λ k. size_after m ≤ size_after k) e (omega arith)
]

-- The largest size is the last one that does not pass the limit.
last_size :
    (n : ℕ) → size_after n ≤ max_size → max_size < size_after (suc n) → size_after n ≡ max_size
last_size n h k =
    let lower : 104 ≤ n = elim (Bool-cases (leb 104 n)) [
      | inl reached ↦ leb→le 104 n reached
      | inr before ↦ absurd (
          omega (
            arith,
            size_after_largest,
            size_after-le (suc n) 104 (omega (arith, not_leb→lt 104 n before)),
          ))
    ] in
    omega (arith, size_after_largest, size_after-le 104 n lower)

pub first_size : (n : ℕ) → n ≡ 0 → size_after n ≡ alignment
unfolding size_after
first_size n e = ap size_after e

-- The class before `sc` has the size that was added last.
abbrev pub Newest : ℕ → Classes → Type 0
Newest n c = (1 < c.sc) × (c.class_to_size (c.sc - 1) ≡ size_after n)

pub Newest-add :
    (n my_pages : ℕ) (c : Classes) → 0 < c.sc → Newest n (add_size (size_after n) my_pages c)
unfolding add_size joins
Newest-add n my_pages c h = ground arith

pub size_after-suc : (n : ℕ) → size_after (suc n) ≡ size_after n + alignment_for_size (size_after n)
unfolding size_after
size_after-suc n = refl

-- No size was added yet, or the one before the next.
abbrev pub Before : ℕ → Classes → Type 0
Before n c = (n ≡ 0) ⊎ ((m : ℕ) × (n ≡ suc m) × (size_after m ≤ max_size) × Newest m c)

newest_is_largest :
    (n : ℕ) (c : Classes)
    → Before n c
    → leb (size_after n) max_size ≡ false
    → c.class_to_size (c.sc - 1) ≡ max_size
newest_is_largest n c (inl e) past =
    absurd (omega (arith, not_leb→lt (size_after n) max_size past, first_size n e))
newest_is_largest n c (inr (m, e, le, newest)) past =
    let beyond = not_leb→lt (size_after n) max_size past in
    newest.1 ∙ last_size m le (subst (λ k. max_size < size_after k) e beyond)

pub add_size_pos : (size my_pages : ℕ) (c : Classes) → 0 < c.sc → 0 < (add_size size my_pages c).sc
unfolding add_size
add_size_pos size my_pages c h = ground arith

module _ (step transfer : ℕ) where
  -- The loop goes through these sizes and adds each, so the last class has the largest.
  class_loop-largest :
      (fuel n : ℕ) (c c' : Classes)
      → 0 < c.sc
      → Before n c
      → class_loop fuel step transfer (size_after n) c ≡ some c'
      → c'.class_to_size (c'.sc - 1) ≡ max_size
  unfolding class_loop
  class_loop-largest zero n c c' h w e = cc
  class_loop-largest (suc fuel) n c c' h w e = elim (Bool-cases (leb (size_after n) max_size)) [
    | inr past ↦
        let q : some c ≡ some c' = rw past at e in
        let same : c ≡ c' = cc in
        subst (λ d. d.class_to_size (d.sc - 1) ≡ max_size) same (newest_is_largest n c w past)
    | inl more ↦ elim (Option-cases (span_size step transfer (size_after n))) [
      | inl no_size ↦ let q : none ≡ some c' = rw (more, no_size) at e in cc
      | inr (psize, is) ↦
          class_loop-largest fuel (suc n) (add_size (size_after n) (psize / page_size) c) c'
            (add_size_pos (size_after n) (psize / page_size) c h)
            (inr
              (n, refl, leb→le (size_after n) max_size more, Newest-add n (psize / page_size) c h))
            (rw (size_after-suc n) (rw (more, is, class_loop) at e))
    ]
  ]

-- For a min_span_size that is a multiple of the page size and not 0, the loop that computes the
-- size classes ends, and the last class has the size kMaxSize.
pub classes-largest :
    (step transfer : ℕ)
    → 0 < step
    → step % page_size ≡ 0
    → (c : Classes) × (classes step transfer ≡ some c) × (c.class_to_size (c.sc - 1) ≡ max_size)
unfolding classes
classes-largest step transfer pos paged =
    let (c, last, is, a) = classes-AreClasses step transfer pos paged in
    (
      c,
      is,
      class_loop-largest step transfer (max_size / alignment + 1) 0
          (record { sc = 1; class_to_size = λ i. 0; class_to_pages = λ i. 0 }) c (omega arith)
          (inl refl)
          (subst
            (λ k.
              class_loop (max_size / alignment + 1) step transfer k
                (record { sc = 1; class_to_size = λ i. 0; class_to_pages = λ i. 0 })
              ≡ some c)
            (sym (first_size 0 refl)) is),
    )
