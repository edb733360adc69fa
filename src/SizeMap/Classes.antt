-- ===== src/SizeMap/Classes.antt =====
-- The loop of SizeMap::Init of src/src/common.cc that computes the size classes.
use conan_tcmalloc.Base.{
  ℕ, zero, suc, ◌+◌, ◌-◌, ◌*◌, ◌/◌, ◌%◌, ◌≤◌, ◌<◌, ◌≡◌, refl, Bool, true, ◌&&◌, Option, none, some,
  arith, ltb, leb, ◌==◌, if◌then◌else◌, Bool-cases, inl, inr, leb→le, sym, ap, ◌∙◌, div_mod_eq,
  div_unique,
}
use mathlib.Core.Path.{subst₂}
use conan_tcmalloc.PageMap.{update}
use conan_tcmalloc.SizeMap.{
  alignment, max_size, page_size, alignment_for_size, num_move_size, span_size,
}
use conan_tcmalloc.SizeMap.Alignment.{alignment_for_size-le}
use conan_tcmalloc.SizeMap.SpanSize.{span_size-First}

-- `sc` is the next class to assign.
pub record Classes : Type 0 where
  pub sc : ℕ
  pub class_to_size : ℕ → ℕ
  pub class_to_pages : ℕ → ℕ

-- Whether the size can join the class before.
unfoldable pub joins : (size my_pages : ℕ) → Classes → Bool
joins size my_pages c =
    (ltb 1 c.sc && (my_pages == c.class_to_pages (c.sc - 1)))
    && (my_pages * page_size / size
        == c.class_to_pages (c.sc - 1) * page_size / c.class_to_size (c.sc - 1))

-- Merge the size into the class before, or add a new class.
unfoldable pub add_size : (size my_pages : ℕ) → Classes → Classes
add_size size my_pages c =
    if joins size my_pages c
    then record c { class_to_size = update c.class_to_size (c.sc - 1) size }
    else record {
      sc = c.sc + 1;
      class_to_size = update c.class_to_size c.sc size;
      class_to_pages = update c.class_to_pages c.sc my_pages;
    }

unfoldable pub class_loop : ℕ → (step transfer size : ℕ) → Classes → Option Classes
class_loop zero step transfer size c = none
class_loop (suc fuel) step transfer size c =
    if leb size max_size
    then (elim (span_size step transfer size) [
      | none ↦ none
      | some psize ↦
          class_loop fuel step transfer (size + alignment_for_size size)
            (add_size size (psize / page_size) c)
    ])
    else some c

unfoldable pub classes : (step transfer : ℕ) → Option Classes
classes step transfer =
    class_loop (max_size / alignment + 1) step transfer alignment
      (record { sc = 1; class_to_size = λ c. 0; class_to_pages = λ c. 0 })

-- The spans of the class waste no more than an eighth and have a quarter of the objects to move.
pub record Suits (step transfer size my_pages : ℕ) : Type 0 where
  pub some_size : 0 < size
  pub whole : (my_pages * page_size) % step ≡ 0
  pub waste : (my_pages * page_size) % size ≤ my_pages * page_size / 8
  pub enough : num_move_size transfer size / 4 ≤ my_pages * page_size / size

-- The classes before `sc` suit their sizes, which rise and are below the size that is next.
pub record AreClasses (step transfer size : ℕ) (c : Classes) : Type 0 where
  pub some_class : 0 < c.sc
  pub suits :
      (i : ℕ) → 0 < i → i < c.sc → Suits step transfer (c.class_to_size i) (c.class_to_pages i)
  pub rises : (i : ℕ) → 0 < i → i + 1 < c.sc → c.class_to_size i < c.class_to_size (i + 1)
  pub below : 1 < c.sc → c.class_to_size (c.sc - 1) < size

joins-pages :
    (size my_pages : ℕ) (c : Classes)
    → joins size my_pages c ≡ true
    → my_pages ≡ c.class_to_pages (c.sc - 1)
unfolding joins
joins-pages size my_pages c h = ground arith

-- A multiple of a multiple of the page size is a number of whole pages.
whole_pages :
    (p step : ℕ) → step % page_size ≡ 0 → p % step ≡ 0 → 0 < step → p / page_size * page_size ≡ p
whole_pages p step h d pos =
    let t = step / page_size in
    let q = p / step in
    let a : p ≡ step * q = omega (arith, div_mod_eq p step) in
    let b : step ≡ page_size * t = omega (arith, div_mod_eq step page_size) in
    let c : page_size * t * q ≡ t * q * page_size + 0 = grind arith in
    let e : p ≡ t * q * page_size + 0 = a ∙ (ap (λ x. x * q) b ∙ c) in
    omega (arith, div_unique p page_size (t * q) 0 (omega arith) e, e)

module _ (step transfer : ℕ) where
  AreClasses-add :
      (size next my_pages : ℕ) (c : Classes)
      → size < next
      → Suits step transfer size my_pages
      → AreClasses step transfer size c
      → AreClasses step transfer next (add_size size my_pages c)
  unfolding add_size
  AreClasses-add size next my_pages c lt s a = elim (Bool-cases (joins size my_pages c)) [
    | inl merged ↦
        rw (merged, add_size)
          (record {
            some_class = a.some_class;
            suits = λ i p q. elim (Bool-cases (i == c.sc - 1)) [
              | inl last ↦
                  let at : c.class_to_pages i ≡ my_pages =
                    ground (arith, joins-pages size my_pages c merged) in
                  subst₂ (Suits step transfer) (ground arith) (sym at) s
              | inr other ↦ subst₂ (Suits step transfer) (ground arith) refl (a.suits i p q)
            ];
            rises = λ i p q. ground (arith, a.rises i p q, a.below);
            below = λ h. ground (arith);
          })
    | inr fresh ↦
        rw (fresh, add_size)
          (record {
            some_class = omega arith;
            suits = λ i p q. elim (Bool-cases (i == c.sc)) [
              | inl last ↦ subst₂ (Suits step transfer) (ground arith) (ground arith) s
              | inr other ↦
                  subst₂ (Suits step transfer) (ground arith) (ground arith)
                    (a.suits i p (ground arith))
            ];
            rises = λ i p q. ground (arith, a.rises i p, a.below);
            below = λ h. ground arith;
          })
  ]

  module _ (pos : 0 < step) (paged : step % page_size ≡ 0) where
    Suits-span :
        (size psize : ℕ)
        → 0 < size
        → psize % step ≡ 0
        → psize % size ≤ psize / 8
        → num_move_size transfer size / 4 ≤ psize / size
        → Suits step transfer size (psize / page_size)
    Suits-span size psize h d waste enough =
        let e = whole_pages psize step paged d pos in
        record { some_size = h; whole = rw e d; waste = rw e waste; enough = rw e enough }

    class_loop-AreClasses :
        (fuel size : ℕ) (c : Classes)
        → 0 < size
        → max_size + 8 < size + 8 * fuel
        → 0 < fuel
        → AreClasses step transfer size c
        → (c' : Classes) × (last : ℕ) × (class_loop fuel step transfer size c ≡ some c')
          × AreClasses step transfer last c'
    unfolding class_loop
    class_loop-AreClasses zero size c h k f a = absurd (omega arith)
    class_loop-AreClasses (suc fuel) size c h k f a = elim (Bool-cases (leb size max_size)) [
      | inr done ↦ (c, size, rw done refl, a)
      | inl more ↦
          let (psize, is, first, d, waste, enough) = span_size-First step size pos h transfer in
          let big = alignment_for_size-le size in
          let next = size + alignment_for_size size in
          let (c', last, runs, a') =
            class_loop-AreClasses fuel next (add_size size (psize / page_size) c) (omega arith)
              (omega arith) (omega (arith, leb→le size max_size more))
              (AreClasses-add size next (psize / page_size) c (omega arith)
                (Suits-span size psize h d waste enough) a) in
          (c', last, rw (more, is, class_loop) runs, a')
    ]

    -- For a min_span_size that is a multiple of the page size and not 0, the loop that computes
    -- the size classes ends; the sizes of the classes rise, the span of each class is a multiple
    -- of min_span_size, no more than an eighth of it is left over, and it has a quarter of the
    -- objects to move at a time.
    pub classes-AreClasses :
        (c : Classes) × (last : ℕ) × (classes step transfer ≡ some c)
        × AreClasses step transfer last c
    unfolding classes
    classes-AreClasses =
        class_loop-AreClasses (max_size / alignment + 1) alignment
          (record { sc = 1; class_to_size = λ c. 0; class_to_pages = λ c. 0 }) (omega arith)
          (omega arith) (omega arith)
          (record {
            some_class = omega arith;
            suits = λ i p q. absurd (omega arith);
            rises = λ i p q. absurd (omega arith);
            below = λ h. absurd (omega arith);
          })
