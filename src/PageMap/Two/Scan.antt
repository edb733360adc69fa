-- ===== src/PageMap/Two/Scan.antt =====
-- TCMalloc_PageMap2::Next of src/src/pagemap.h.
use conan_tcmalloc.Base.{
  ℕ, zero, suc, ◌+◌, ◌-◌, ◌*◌, ◌/◌, ◌%◌, ◌^◌, ◌≤◌, ◌<◌, ◌≡◌, ◌∙◌, ap, refl, Option, none, some,
  arith, ltb, ◌==◌, Bool-cases, Option-cases, inl, inr, ◌⊎◌, ltb→lt, not_ltb→le, div_mul_self,
  div_between, div_mod_eq, mod_lt, lt_next_multiple,
}
use conan_tcmalloc.PageMap.{IsFirst, found, absent, IsFirst-skip}
use conan_tcmalloc.PageMap.Two.{
  Leaf, PageMap2, leaf_length, root_length, leaf_length_pos, bound_lt, lt_of_bound, get, next,
  next_loop, scan_leaf, at_leaf,
}
use conan_tcmalloc.PageMap.Two.Access.{get-leaf, get-above}

module _ {V : Type 0} (leaf : Leaf V) where
  abbrev pub Scanned : ℕ → ℕ → Option V → Type 0
  Scanned lo hi r =
      ((j : ℕ) × (v : V) × (r ≡ some v)
        × (lo ≤ j)
        × (j < hi)
        × (leaf j ≡ some v)
        × ((i : ℕ) → lo ≤ i → i < j → leaf i ≡ none))
      ⊎ ((r ≡ none) × ((i : ℕ) → lo ≤ i → i < hi → leaf i ≡ none))

  scan_leaf-Scanned :
      (rounds lo hi : ℕ) → lo + rounds ≡ hi → Scanned lo hi (scan_leaf rounds leaf lo)
  unfolding scan_leaf
  scan_leaf-Scanned zero lo hi e = inr (refl, λ i p q. absurd (omega arith))
  scan_leaf-Scanned (suc rounds) lo hi e = elim (Option-cases (leaf lo)) [
    | inr (v, hit) ↦
        inl
          (lo, v, rw (hit, scan_leaf), omega arith, omega arith, hit, λ i p q. absurd (omega arith))
    | inl miss ↦ elim (scan_leaf-Scanned rounds (lo + 1) hi (omega arith)) [
      | inl (j, v, is, p, q, hit, below) ↦ inl (
        j,
        v,
        rw (miss, scan_leaf) is,
        omega arith,
        q,
        hit,
        λ i a b. elim (Bool-cases (i == lo)) [
          | inl same ↦ ground (arith, miss)
          | inr other ↦ below i (ground arith) b
        ],
      )
      | inr (is, above) ↦ inr (
        rw (miss, scan_leaf) is,
        λ i a b. elim (Bool-cases (i == lo)) [
          | inl same ↦ ground (arith, miss)
          | inr other ↦ above i (ground arith) b
        ],
      )
    ]
  ]

module _ (bits : ℕ) {V : Type 0} (m : PageMap2 V) (k : ℕ) (b : k < 2 ^ bits) where
  -- From `k` to the end of its leaf a read is a read of that leaf.
  get-same_leaf :
      (i : ℕ)
      → k ≤ i
      → i < (k / leaf_length bits + 1) * leaf_length bits
      → get bits m i ≡ at_leaf (m.root (k / leaf_length bits)) (i % leaf_length bits)
  get-same_leaf i p q =
      let same : i / leaf_length bits ≡ k / leaf_length bits =
        div_between k i (leaf_length bits) (leaf_length_pos bits) p q in
      let inside : i < 2 ^ bits = lt_of_bound bits i (rw same (bound_lt bits k b)) in
      get-leaf bits m i inside ∙ ap (λ n. at_leaf (m.root n) (i % leaf_length bits)) same

  -- The offset in the leaf.
  offset :
      (i : ℕ)
      → k ≤ i
      → i < (k / leaf_length bits + 1) * leaf_length bits
      → (k % leaf_length bits + (i - k) ≡ i % leaf_length bits)
        × (i % leaf_length bits < leaf_length bits)
  offset i p q =
      let same : i / leaf_length bits ≡ k / leaf_length bits =
        div_between k i (leaf_length bits) (leaf_length_pos bits) p q in
      (
        omega (
          arith,
          div_mod_eq i (leaf_length bits),
          div_mod_eq k (leaf_length bits),
          ap (λ n. leaf_length bits * n) same,
        ),
        mod_lt i (leaf_length bits) (leaf_length_pos bits),
      )

  IsFirst-no_leaf :
      {r : Option V}
      → m.root (k / leaf_length bits) ≡ none
      → IsFirst (get bits m) ((k / leaf_length bits + 1) * leaf_length bits) r
      → IsFirst (get bits m) k r
  IsFirst-no_leaf e =
      IsFirst-skip k _ (omega (arith, lt_next_multiple k (leaf_length bits) (leaf_length_pos bits)))
        (λ i p q. get-same_leaf i p q ∙ rw e)

  IsFirst-empty_leaf :
      {r : Option V} (leaf : Leaf V)
      → m.root (k / leaf_length bits) ≡ some leaf
      → ((i : ℕ) → k % leaf_length bits ≤ i → i < leaf_length bits → leaf i ≡ none)
      → IsFirst (get bits m) ((k / leaf_length bits + 1) * leaf_length bits) r
      → IsFirst (get bits m) k r
  IsFirst-empty_leaf leaf e empty =
      IsFirst-skip k _ (omega (arith, lt_next_multiple k (leaf_length bits) (leaf_length_pos bits)))
        (λ i p q.
          get-same_leaf i p q
          ∙ rw e (empty (i % leaf_length bits) (omega (arith, (offset i p q).0)) (offset i p q).1))

  IsFirst-leaf :
      (leaf : Leaf V) (j : ℕ) (v : V)
      → m.root (k / leaf_length bits) ≡ some leaf
      → k % leaf_length bits ≤ j
      → j < leaf_length bits
      → leaf j ≡ some v
      → ((i : ℕ) → k % leaf_length bits ≤ i → i < j → leaf i ≡ none)
      → IsFirst (get bits m) k (some v)
  IsFirst-leaf leaf j v e lo hi hit below =
      let l = leaf_length bits in
      let at = k + (j - k % l) in
      let at_next : at < (k / l + 1) * l = omega (arith, div_mod_eq k l) in
      let at_offset : at % l ≡ j = omega (arith, (offset at (omega arith) at_next).0) in
      found at (omega arith) (get-same_leaf at (omega arith) at_next ∙ rw (e, at_offset, hit))
        (λ i p q.
          let i_next : i < (k / l + 1) * l = omega arith in
          get-same_leaf i p i_next
          ∙ rw e (
              below (i % l) (omega (arith, (offset i p i_next).0))
                (omega (arith, (offset i p i_next).0))))

module _ (bits : ℕ) {V : Type 0} (m : PageMap2 V) where
  abbrev Finds : ℕ → Option (Option V) → Type 0
  Finds k o = (r : Option V) × (o ≡ some r) × IsFirst (get bits m) k r

  next_loop-Finds :
      (fuel k : ℕ)
      → 0 < fuel
      → root_length bits < k / leaf_length bits + fuel
      → Finds k (next_loop bits fuel m k)
  unfolding next_loop
  next_loop-Finds zero k pos enough = absurd (omega arith)
  next_loop-Finds (suc fuel) k pos enough = elim (Bool-cases (ltb k (2 ^ bits))) [
    | inr out ↦
        (none, rw out, absent (λ i p. get-above bits m i (omega (arith, not_ltb→le _ _ out))))
    | inl in_map ↦
        let l = leaf_length bits in
        let b : k < 2 ^ bits = ltb→lt _ _ in_map in
        let index : ((k / l + 1) * l) / l ≡ k / l + 1 = div_mul_self _ _ (leaf_length_pos bits) in
        let (r, is, first) =
          next_loop-Finds fuel ((k / l + 1) * l) (omega (arith, bound_lt bits k b)) (omega arith) in
        elim (Option-cases (m.root (k / l))) [
          | inl e ↦ (r, rw (in_map, e, next_loop) is, IsFirst-no_leaf bits m k b e first)
          | inr (leaf, e) ↦
              elim (scan_leaf-Scanned leaf (l - k % l) (k % l) l
                (omega (arith, mod_lt k l (leaf_length_pos bits)))) [
                  | inl (j, v, hit, lo, hi, at, below) ↦ (
                    some v,
                    rw (in_map, e, hit),
                    IsFirst-leaf bits m k b leaf j v e lo hi at below,
                  )
                  | inr (miss, empty) ↦ (
                    r,
                    rw (in_map, e, miss, next_loop) is,
                    IsFirst-empty_leaf bits m k b leaf e empty first,
                  )
                ]
        ]
  ]

  -- Next always returns, and gives the pointer at the least number from k on that holds one, or
  -- nullptr if no such number is in the map.
  pub next-IsFirst : (k : ℕ) → (r : Option V) × (next bits m k ≡ some r) × IsFirst (get bits m) k r
  unfolding next
  next-IsFirst k = next_loop-Finds (root_length bits + 1) k (omega arith) (omega arith)
