-- ===== src/SizeMap/SpanSize.antt =====
-- The sizes of spans that SizeMap::Init of src/src/common.cc picks for the classes.
use conan_tcmalloc.Base.{
  ℕ, zero, suc, ◌+◌, ◌*◌, ◌/◌, ◌%◌, ◌≤◌, ◌<◌, ◌≡◌, refl, Bool, true, false, ◌||◌, some, arith, ltb,
  Bool-cases, inl, inr, ltb→lt, lt_mul_of_div_lt, mod_lt, subst,
}
use conan_tcmalloc.SizeMap.{waste_loop, span_loop, span_size, num_move_size}

-- `p` is the first of q, q + step, q + 2 * step and so on that is not rejected.
pub data First (rejects : ℕ → Bool) (step : ℕ) : ℕ → ℕ → Type 0 where
  here : {q : ℕ} → rejects q ≡ false → First rejects step q q
  later : {q p : ℕ} → rejects q ≡ true → First rejects step (q + step) p → First rejects step q p

First-holds : {rejects : ℕ → Bool} {step q p : ℕ} → First rejects step q p → rejects p ≡ false
First-holds (here e) = e
First-holds (later e f) = First-holds f

First-le : {rejects : ℕ → Bool} {step q p : ℕ} → First rejects step q p → q ≤ p
First-le (here e) = omega arith
First-le (later e f) = omega (arith, First-le f)

First-mod :
    {rejects : ℕ → Bool} {step q p : ℕ}
    → 0 < step
    → q % step ≡ 0
    → First rejects step q p
    → p % step ≡ 0
First-mod h d (here e) = d
First-mod h d (later e f) = First-mod h (grind arith) f

-- More than an eighth of the span is left over.
abbrev pub wastes : (size p : ℕ) → Bool
wastes size p = ltb (p / 8) (p % size)

-- The span has fewer objects than are to be moved at a time, or too much is left over.
abbrev pub unfit : (size blocks p : ℕ) → Bool
unfit size blocks p = wastes size p || ltb (p / size) blocks

-- The search for little waste, then one for both, from where it ends.
First-both :
    (size blocks step : ℕ) {q p r : ℕ}
    → First (wastes size) step q p
    → ltb (p / size) blocks ≡ true
    → First (unfit size blocks) step (p + step) r
    → First (unfit size blocks) step q r
First-both size blocks step (here e) few f = later (ground arith) f
First-both size blocks step (later e g) few f =
    later (ground arith) (First-both size blocks step g few f)

First-last :
    (size blocks step : ℕ) {q p : ℕ}
    → First (wastes size) step q p
    → ltb (p / size) blocks ≡ false
    → First (unfit size blocks) step q p
First-last size blocks step (here e) enough = here (ground arith)
First-last size blocks step (later e g) enough =
    later (ground arith) (First-last size blocks step g enough)

module _ (step size : ℕ) (pos : 0 < step) (some_size : 0 < size) where
  wastes-lt : (p : ℕ) → wastes size p ≡ true → p < 8 * size
  wastes-lt p e =
      let m = mod_lt p size some_size in let l = ltb→lt (p / 8) (p % size) e in omega arith

  waste_loop-First :
      (fuel psize : ℕ)
      → 0 < fuel
      → 8 * size < psize + fuel
      → (p : ℕ) × (waste_loop fuel step size psize ≡ some p) × First (wastes size) step psize p
  unfolding waste_loop
  waste_loop-First zero psize h k = absurd (omega arith)
  waste_loop-First (suc fuel) psize h k = elim (Bool-cases (wastes size psize)) [
    | inl bad ↦
        let (p, is, f) =
          waste_loop-First fuel (psize + step) (omega (arith, wastes-lt psize bad))
            (omega (arith, wastes-lt psize bad)) in
        (p, rw (bad, waste_loop) is, later bad f)
    | inr good ↦ (psize, rw good refl, here good)
  ]

  few-lt : (blocks p : ℕ) → ltb (p / size) blocks ≡ true → p < size * blocks
  few-lt blocks p e =
      omega (arith, lt_mul_of_div_lt p blocks size some_size (ltb→lt (p / size) blocks e))

  span_loop-First :
      (blocks fuel psize : ℕ)
      → 0 < fuel
      → size * blocks < psize + fuel
      → (p : ℕ) × (span_loop fuel step size blocks psize ≡ some p)
        × First (unfit size blocks) step (psize + step) p
  unfolding span_loop
  span_loop-First blocks zero psize h k = absurd (omega arith)
  span_loop-First blocks (suc fuel) psize h k =
      let (p, is, f) = waste_loop-First (8 * size + 1) (psize + step) (omega arith) (omega arith) in
      elim (Bool-cases (ltb (p / size) blocks)) [
        | inl few ↦
            let least = First-le f in
            let small = few-lt blocks p few in
            let (r, there, g) = span_loop-First blocks fuel p (omega arith) (omega arith) in
            (r, rw (is, few, span_loop) there, First-both size blocks step f few g)
        | inr enough ↦ (p, rw (is, enough, span_loop) refl, First-last size blocks step f enough)
      ]

  -- For a step and a size that are not 0 the two nested loops end with the first multiple of the
  -- step of which no more than an eighth is left over and which has a quarter of the objects to
  -- move at a time.
  pub span_size-First :
      (transfer : ℕ)
      → (p : ℕ) × (span_size step transfer size ≡ some p)
        × First (unfit size (num_move_size transfer size / 4)) step step p
        × (p % step ≡ 0)
        × (p % size ≤ p / 8)
        × (num_move_size transfer size / 4 ≤ p / size)
  unfolding span_size
  span_size-First transfer =
      let blocks = num_move_size transfer size / 4 in
      let (p, is, f) = span_loop-First blocks (size * blocks + 1) 0 (omega arith) (omega arith) in
      let first : 0 + step ≡ step = omega arith in
      let f = subst (λ q. First (unfit size blocks) step q p) first f in
      (
        p,
        is,
        f,
        First-mod pos (grind arith) f,
        ground (arith, First-holds f),
        ground (arith, First-holds f),
      )
