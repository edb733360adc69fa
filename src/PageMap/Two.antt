-- ===== src/PageMap/Two.antt =====
-- TCMalloc_PageMap2 of src/src/pagemap.h, the map of 48-bit and 32-bit address spaces. The last index of
-- a range is computed on 64-bit words. A shift right by s is a division by 2 ^ s, and the mask
-- with LEAF_LENGTH-1 is the remainder.
pub mod Access
pub mod Ensure
pub mod Scan
mod Examples
use conan_tcmalloc.Base.{
  ℕ, zero, suc, ◌+◌, ◌-◌, ◌*◌, ◌/◌, ◌%◌, ◌^◌, ◌≤◌, ◌<◌, ◌≡◌, ◌∙◌, sym, ap, Bool, true, false,
  Option, none, some, arith, ltb, leb, if◌then◌else◌, is_some, word, pow_add, pow_pos,
  div_lt_of_lt_mul, lt_mul_of_div_lt, subst, Bool-cases, inl, inr, ltb→lt, not_ltb→le,
}
use mathlib.Core.Option
use conan_tcmalloc.PageMap.{update}

abbrev pub Leaf : Type 0 → Type 0
Leaf V = ℕ → Option V

-- `calls` counts the calls of the allocator.
pub record PageMap2 (V : Type 0) : Type 0 where
  pub root : ℕ → Option (Leaf V)
  pub calls : ℕ

unfoldable pub leaf_bits : ℕ → ℕ
leaf_bits bits = (bits + 1) / 2

unfoldable pub leaf_length : ℕ → ℕ
unfolding leaf_bits
leaf_length bits = 2 ^ leaf_bits bits

unfoldable pub root_length : ℕ → ℕ
unfolding leaf_bits
root_length bits = 2 ^ (bits - leaf_bits bits)

pub leaf_length_pos : (bits : ℕ) → 0 < leaf_length bits
unfolding leaf_length
leaf_length_pos bits = pow_pos (leaf_bits bits)

pub length-mul : (bits : ℕ) → root_length bits * leaf_length bits ≡ 2 ^ bits
unfolding root_length leaf_length
length-mul bits =
    let e : bits - leaf_bits bits + leaf_bits bits ≡ bits = unfold leaf_bits in omega arith in
    sym (pow_add (bits - leaf_bits bits) (leaf_bits bits)) ∙ ap (λ n. 2 ^ n) e

pub bound_lt : (bits k : ℕ) → k < 2 ^ bits → k / leaf_length bits < root_length bits
bound_lt bits k h =
    div_lt_of_lt_mul k (root_length bits) (leaf_length bits) (leaf_length_pos bits)
      (omega (arith, length-mul bits))

pub lt_of_bound : (bits k : ℕ) → k / leaf_length bits < root_length bits → k < 2 ^ bits
lt_of_bound bits k h =
    subst (λ n. k < n) (length-mul bits)
      (lt_mul_of_div_lt k (root_length bits) (leaf_length bits) (leaf_length_pos bits) h)

pub le_of_bound : (bits k : ℕ) → root_length bits ≤ k / leaf_length bits → 2 ^ bits ≤ k
le_of_bound bits k h = elim (Bool-cases (ltb k (2 ^ bits))) [
  | inl lt ↦ absurd (omega (arith, bound_lt bits k (ltb→lt k (2 ^ bits) lt)))
  | inr ge ↦ not_ltb→le k (2 ^ bits) ge
]

module _ {V : Type 0} where
  unfoldable pub empty : PageMap2 V
  empty = record { root = λ i. none; calls = 0 }

  abbrev pub at_leaf : Option (Leaf V) → ℕ → Option V
  at_leaf none i = none
  at_leaf (some leaf) i = leaf i

  -- `set` through a pointer to no leaf, or past the root array, is a fault, `none`.
  abbrev pub write_leaf : PageMap2 V → ℕ → ℕ → Option V → Option (Leaf V) → Option (PageMap2 V)
  write_leaf m i1 i2 v none = none
  write_leaf m i1 i2 v (some leaf) =
      some (record m { root = update m.root i1 (some (update leaf i2 v)) })

  -- Make 2nd level node if necessary.
  abbrev pub make_leaf : (ℕ → Bool) → PageMap2 V → ℕ → Option (Leaf V) → Bool × PageMap2 V
  make_leaf grants m i1 (some leaf) = (true, m)
  make_leaf grants m i1 none =
      if grants m.calls
      then (true, record { root = update m.root i1 (some (λ i. none)); calls = m.calls + 1 })
      else (false, record m { calls = m.calls + 1 })

  -- for (; i2 < LEAF_LENGTH; i2++), with the rounds left.
  unfoldable pub scan_leaf : ℕ → Leaf V → ℕ → Option V
  scan_leaf zero leaf i2 = none
  scan_leaf (suc rounds) leaf i2 = elim (leaf i2) [
    | some v ↦ some v
    | none ↦ scan_leaf rounds leaf (i2 + 1)
  ]

module _ (bits : ℕ) {V : Type 0} where
  unfoldable pub get : PageMap2 V → ℕ → Option V
  get m k =
      if ltb 0 (k / 2 ^ bits)
      then none
      else at_leaf (m.root (k / leaf_length bits)) (k % leaf_length bits)

  unfoldable pub set : PageMap2 V → ℕ → Option V → Option (PageMap2 V)
  set m k v =
      let i1 = k / leaf_length bits in
      if ltb i1 (root_length bits)
      then write_leaf m i1 (k % leaf_length bits) v (m.root i1)
      else none

  -- `none` is running out of fuel. The next key does not wrap: `i1` was tested before.
  unfoldable pub ensure_loop :
      (ℕ → Bool) → ℕ → (key last : ℕ) → PageMap2 V → Option (Bool × PageMap2 V)
  ensure_loop grants zero key last m = none
  ensure_loop grants (suc fuel) key last m =
      let i1 = key / leaf_length bits in
      let made = make_leaf grants m i1 (m.root i1) in
      let rest = ensure_loop grants fuel ((i1 + 1) * leaf_length bits) last made.1 in
      if leb key last
      then (if ltb i1 (root_length bits)
          then (if made.0 then rest else some (false, made.1))
          else some (false, m))
      else some (true, m)

  unfoldable pub ensure : (ℕ → Bool) → ℕ → ℕ → PageMap2 V → Option (Bool × PageMap2 V)
  unfolding ensure_loop
  ensure grants start n m =
      ensure_loop grants (root_length bits + 1) start ((start + n + word - 1) % word) m

  unfoldable pub preallocate : (ℕ → Bool) → PageMap2 V → Option (PageMap2 V)
  preallocate grants m =
      let whole = ensure grants 0 (2 ^ bits) m in
      if ltb bits 20 then Option.map (λ r. r.1) whole else some m

  unfoldable pub next_loop : ℕ → PageMap2 V → ℕ → Option (Option V)
  unfolding scan_leaf
  next_loop zero m k = none
  next_loop (suc fuel) m k =
      let i1 = k / leaf_length bits in
      let i2 = k % leaf_length bits in
      let rest = next_loop fuel m ((i1 + 1) * leaf_length bits) in
      if ltb k (2 ^ bits)
      then (elim (m.root i1) [
        | none ↦ rest
        | some leaf ↦ elim (scan_leaf (leaf_length bits - i2) leaf i2) [
          | some v ↦ some (some v)
          | none ↦ rest
        ]
      ])
      else some none

  unfoldable pub next : PageMap2 V → ℕ → Option (Option V)
  unfolding next_loop
  next m k = next_loop (root_length bits + 1) m k

  -- The key lies in the map, and there is a leaf for it.
  pub record Ready (m : PageMap2 V) (k : ℕ) : Type 0 where
    pub bound : k / leaf_length bits < root_length bits
    pub leaf : is_some (m.root (k / leaf_length bits)) ≡ true
