-- ===== src/SizeMap/Alignment.antt =====
-- LgFloor and AlignmentForSize of src/src/common.cc.
use conan_tcmalloc.Base.{
  ℕ, zero, suc, ◌+◌, ◌-◌, ◌*◌, ◌/◌, ◌^◌, ◌≤◌, ◌<◌, ◌≡◌, ◌⊎◌, not_ltb→le, ltb→lt, leb→le, not_leb→lt,
  refl, ◌&&◌, true, false, arith, ltb, leb, ◌==◌, pow_pos, pow_add, div_mod_eq, mod_lt, ap, ◌∙◌,
  div_lt_of_lt_mul, lt_mul_of_div_lt, Bool-cases, inl, inr,
}
use conan_tcmalloc.SizeMap.{
  lg_loop, lg_floor, alignment_with, alignment_for_size, max_size, min_align, page_size,
}

mul_le' : (a b : ℕ) → 0 < b → a ≤ a * b
mul_le' a b h = grind arith

mul_le : (a b c : ℕ) → b ≤ c → a * b ≤ a * c
mul_le a b c h = grind arith

-- A power is that of its half, squared.
pow-twice : (i : ℕ) → 2 ^ (2 ^ suc i) ≡ 2 ^ (2 ^ i) * 2 ^ (2 ^ i)
pow-twice i = let e : 2 ^ suc i ≡ 2 ^ i + 2 ^ i = omega arith in rw e (pow_add (2 ^ i) (2 ^ i))

half_bound : (n l : ℕ) → n < 2 ^ l * 2 ^ l → n / 2 ^ l < 2 ^ l
half_bound n l h = div_lt_of_lt_mul n (2 ^ l) (2 ^ l) (pow_pos l) h

small_bound : (n l : ℕ) → (n / 2 ^ l == 0) ≡ true → n < 2 ^ l
small_bound n l h =
    let q : n / 2 ^ l < 1 = ground arith in
    omega (arith, lt_mul_of_div_lt n 1 (2 ^ l) (pow_pos l) q)

-- Of n / 2 ^ l to n.
scaled :
    (n l k : ℕ)
    → 2 ^ k ≤ n / 2 ^ l
    → n / 2 ^ l < 2 ^ (k + 1)
    → (2 ^ (l + k) ≤ n) × (n < 2 ^ (l + k + 1))
scaled n l k lo hi =
    let x = n / 2 ^ l in
    let a : 2 ^ l * 2 ^ k ≤ 2 ^ l * x = mul_le (2 ^ l) (2 ^ k) x lo in
    let b : 2 ^ l * (x + 1) ≤ 2 ^ l * 2 ^ (k + 1) =
      mul_le (2 ^ l) (x + 1) (2 ^ (k + 1)) (omega (arith, hi)) in
    let e : 2 ^ (l + k + 1) ≡ 2 ^ l * 2 ^ (k + 1) =
      ap (λ y. 2 ^ y) (omega arith) ∙ pow_add l (k + 1) in
    (
      omega (arith, pow_add l k, a, div_mod_eq n (2 ^ l)),
      omega (arith, e, b, div_mod_eq n (2 ^ l), mod_lt n (2 ^ l) (pow_pos l)),
    )

-- The loop adds the logarithm, rounded down, to what it starts with.
lg_loop-bounds :
    (i n log : ℕ)
    → 0 < n
    → n < 2 ^ (2 ^ i)
    → (k : ℕ) × (lg_loop i n log ≡ log + k) × (2 ^ k ≤ n) × (n < 2 ^ (k + 1))
unfolding lg_loop
lg_loop-bounds zero n log p h = (0, omega arith, omega arith, omega arith)
lg_loop-bounds (suc i) n log p h = elim (Bool-cases (n / 2 ^ (2 ^ i) == 0)) [
  | inl small ↦ rw (small, lg_loop) (lg_loop-bounds i n log p (small_bound n (2 ^ i) small))
  | inr large ↦
      let l = 2 ^ i in
      let b : n < 2 ^ l * 2 ^ l = omega (arith, pow-twice i) in
      let (k, e, lo, hi) =
        lg_loop-bounds i (n / 2 ^ l) (log + l) (ground arith) (half_bound n l b) in
      let (lo', hi') = scaled n l k lo hi in
      (l + k, rw (large, lg_loop) (omega (arith, e)), lo', hi')
]

lg_floor-eq : (n : ℕ) → lg_floor n ≡ lg_loop 5 n 0
unfolding lg_floor
lg_floor-eq n = refl

-- For a number that is not 0 and fits 32 bits LgFloor gives the exponent of the largest power of
-- two that is no larger.
pub lg_floor-bounds :
    (n : ℕ) → 0 < n → n < 2 ^ 32 → (2 ^ lg_floor n ≤ n) × (n < 2 ^ (lg_floor n + 1))
lg_floor-bounds n p h =
    let (k, e, lo, hi) = lg_loop-bounds 5 n 0 p h in
    let is : lg_floor n ≡ k = omega (arith, e, lg_floor-eq n) in rw is (lo, hi)

pow_le : (m n : ℕ) → m ≤ n → 2 ^ m ≤ 2 ^ n
pow_le m n h =
    let e : 2 ^ n ≡ 2 ^ m * 2 ^ (n - m) = ap (λ k. 2 ^ k) (omega arith) ∙ pow_add m (n - m) in
    omega (arith, e, mul_le' (2 ^ m) (2 ^ (n - m)) (pow_pos (n - m)))

pow_lt : (m n : ℕ) → 2 ^ m < 2 ^ n → m < n
pow_lt m n h = elim (Bool-cases (ltb m n)) [
  | inl lt ↦ ltb→lt m n lt
  | inr ge ↦ absurd (omega (arith, pow_le n m (not_ltb→le m n ge)))
]

-- What the alignment `a` of a size is.
abbrev pub IsAlignment : ℕ → ℕ → Type 0
IsAlignment size a =
    (k : ℕ) × (a ≡ 2 ^ k)
    × (3 ≤ k)
    × (k ≤ 13)
    × ((size < min_align) ⊎ (min_align ≤ a))
    × ((size < 128) ⊎ ((max_size < size) ⊎ ((8 * a ≤ size) × ((size < 16 * a) ⊎ (a ≡ page_size)))))

with-IsAlignment :
    (g size : ℕ)
    → 7 ≤ g
    → 2 ^ g ≤ size
    → size < 2 ^ (g + 1)
    → 128 ≤ size
    → size ≤ max_size
    → IsAlignment size (alignment_with (2 ^ g) size)
unfolding alignment_with
with-IsAlignment g size seven lo hi p q =
    let parts : 2 ^ g ≡ 2 ^ (g - 3) * 8 = ap (λ k. 2 ^ k) (omega arith) ∙ pow_add (g - 3) 3 in
    let eight : 8 ≤ 2 ^ (g - 3) * 8 = omega (arith, pow_pos (g - 3)) in
    let lower : 2 ^ 7 ≤ 2 ^ g = pow_le 7 g seven in
    let double : 2 ^ (g + 1) ≡ 2 ^ g * 2 = pow_add g 1 in
    let upper : leb g 16 ≡ true → 2 ^ g ≤ 2 ^ 16 = λ e. pow_le g 16 (leb→le g 16 e) in
    let beyond : leb g 16 ≡ false → 2 ^ 17 ≤ 2 ^ g = λ e. pow_le 17 g (not_leb→lt g 16 e) in
    elim (Bool-cases (leb g 16)) [
      | inl small ↦ (
        g - 3,
        ground (arith, lower, upper small),
        omega (arith),
        ground arith,
        ground (arith, lower, upper small),
        ground (arith, lower, upper small),
      )
      | inr large ↦ (
        13,
        ground (arith, lower, beyond large),
        omega (arith),
        omega arith,
        ground (arith, lower, beyond large),
        ground (arith, lower, beyond large),
      )
    ]

without-IsAlignment :
    (power size : ℕ)
    → (size < 128) ⊎ (max_size < size)
    → IsAlignment size (alignment_with power size)
unfolding alignment_with
without-IsAlignment power size out = elim (Bool-cases (ltb size min_align)) [
  | inl tiny ↦ (3, ground arith, omega arith, omega arith, ground arith, ground arith)
  | inr large ↦ elim (Bool-cases (ltb max_size size)) [
    | inl huge ↦ (13, ground arith, omega arith, omega arith, ground arith, ground arith)
    | inr small ↦ (4, ground arith, omega arith, omega arith, ground arith, ground arith)
  ]
]

alignment-eq : (size : ℕ) → alignment_for_size size ≡ alignment_with (2 ^ lg_floor size) size
unfolding alignment_for_size
alignment-eq size = refl

-- The alignment for any size is a power of two from 8 to the page size, at least 16 for sizes from
-- 16 on. For sizes from 128 on that have a class it is at most an eighth of the size, and more
-- than a sixteenth unless it is the page size.
pub alignment_for_size-IsAlignment : (size : ℕ) → IsAlignment size (alignment_for_size size)
alignment_for_size-IsAlignment size =
    rw (alignment-eq size) (elim (Bool-cases (leb 128 size && leb size max_size)) [
      | inl both ↦
          let (lo, hi) = lg_floor-bounds size (ground arith) (ground arith) in
          let g = lg_floor size in
          with-IsAlignment g size (omega (arith, pow_lt 7 (g + 1) (ground arith))) lo hi
            (ground arith) (ground arith)
      | inr out ↦ without-IsAlignment (2 ^ lg_floor size) size (ground arith)
    ])

pub alignment_for_size-le : (size : ℕ) → 8 ≤ alignment_for_size size
alignment_for_size-le size =
    let (k, is, lo, hi, low, high) = alignment_for_size-IsAlignment size in
    omega (arith, is, pow_le 3 k lo)
