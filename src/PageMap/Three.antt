-- ===== src/PageMap/Three.antt =====
-- TCMalloc_PageMap3 of src/src/pagemap.h, the map of full 64-bit address spaces. `none` of a `set` is
-- an access through no leaf or out of the root, `none` of a loop is running out of fuel.
pub mod Access
mod Examples
use conan_tcmalloc.Base.{
  ℕ, zero, suc, ◌+◌, ◌-◌, ◌*◌, ◌/◌, ◌%◌, ◌^◌, ◌≤◌, ◌<◌, ◌≡◌, ◌∙◌, sym, ap, refl, Bool, true, false,
  ◌||◌, Option, none, some, arith, ltb, leb, ◌==◌, if◌then◌else◌, is_some, word, pow_add, pow_pos,
  div_unique, div_mod_eq, mod_lt, eq_of_div_mod, div_eq_zero, div_pos, subst, Bool-cases,
  Option-cases, inl, inr, ltb→lt, not_ltb→le,
}
use conan_tcmalloc.PageMap.{update}
use conan_tcmalloc.PageMap.Two.{Leaf, at_leaf, scan_leaf}

abbrev pub Node : Type 0 → Type 0
Node V = ℕ → Option (Leaf V)

-- `calls` counts the calls of the allocator.
pub record PageMap3 (V : Type 0) : Type 0 where
  pub root : ℕ → Option (Node V)
  pub calls : ℕ

unfoldable pub interior_bits : ℕ → ℕ
interior_bits bits = (bits + 2) / 3

unfoldable pub leaf_bits : ℕ → ℕ
unfolding interior_bits
leaf_bits bits = bits - 2 * interior_bits bits

unfoldable pub interior_length : ℕ → ℕ
unfolding interior_bits
interior_length bits = 2 ^ interior_bits bits

unfoldable pub leaf_length : ℕ → ℕ
unfolding leaf_bits
leaf_length bits = 2 ^ leaf_bits bits

-- The indices into the root, an interior node and a leaf.
unfoldable pub index1 : (bits k : ℕ) → ℕ
index1 bits k = k / 2 ^ (leaf_bits bits + interior_bits bits)

unfoldable pub index2 : (bits k : ℕ) → ℕ
index2 bits k = (k / leaf_length bits) % interior_length bits

unfoldable pub index3 : (bits k : ℕ) → ℕ
index3 bits k = k % leaf_length bits

module _ {V : Type 0} where
  abbrev pub empty : PageMap3 V
  empty = record { root = λ i. none; calls = 0 }

  abbrev pub at_node : Option (Node V) → ℕ → Option (Leaf V)
  at_node none i = none
  at_node (some node) i = node i

  abbrev pub write_node :
      PageMap3 V → (i1 i2 i3 : ℕ) → Option V → Option (Node V) → Option (PageMap3 V)
  write_node m i1 i2 i3 v none = none
  write_node m i1 i2 i3 v (some node) = elim (node i2) [
    | none ↦ none
    | some leaf ↦
        some
          (record m { root = update m.root i1 (some (update node i2 (some (update leaf i3 v)))) })
  ]

  -- Make 2nd level node if necessary.
  abbrev pub make_node : (ℕ → Bool) → PageMap3 V → ℕ → Option (Node V) → Bool × PageMap3 V
  make_node grants m i1 (some node) = (true, m)
  make_node grants m i1 none =
      if grants m.calls
      then (true, record { root = update m.root i1 (some (λ i. none)); calls = m.calls + 1 })
      else (false, record m { calls = m.calls + 1 })

  -- Make leaf node if necessary.
  abbrev pub make_leaf : (ℕ → Bool) → PageMap3 V → (i1 i2 : ℕ) → Option (Node V) → Bool × PageMap3 V
  make_leaf grants m i1 i2 none = (false, m)
  make_leaf grants m i1 i2 (some node) =
      if is_some (node i2)
      then (true, m)
      else (if grants m.calls
          then (
            true,
            record {
              root = update m.root i1 (some (update node i2 (some (λ i. none))));
              calls = m.calls + 1;
            },
          )
          else (false, record m { calls = m.calls + 1 }))

module _ (bits : ℕ) {V : Type 0} where
  unfoldable pub get : PageMap3 V → ℕ → Option V
  get m k =
      if ltb 0 (k / 2 ^ bits)
      then none
      else at_leaf (at_node (m.root (index1 bits k)) (index2 bits k)) (index3 bits k)

  unfoldable pub set : PageMap3 V → ℕ → Option V → Option (PageMap3 V)
  set m k v =
      let i1 = index1 bits k in
      if ltb i1 (interior_length bits)
      then write_node m i1 (index2 bits k) (index3 bits k) v (m.root i1)
      else none

  -- One round of the loop of Ensure.
  unfoldable pub make_nodes : (ℕ → Bool) → PageMap3 V → (i1 i2 : ℕ) → Bool × PageMap3 V
  make_nodes grants m i1 i2 =
      let made = make_node grants m i1 (m.root i1) in
      if made.0 then make_leaf grants made.1 i1 i2 (made.1.root i1) else made

  -- The next key does not wrap: the index into the root was tested before.
  unfoldable pub ensure_loop :
      (ℕ → Bool) → ℕ → (key last : ℕ) → PageMap3 V → Option (Bool × PageMap3 V)
  ensure_loop grants zero key last m = none
  ensure_loop grants (suc fuel) key last m =
      let i1 = index1 bits key in
      let i2 = index2 bits key in
      let made = make_nodes grants m i1 i2 in
      let rest =
        ensure_loop grants fuel ((key / leaf_length bits + 1) * leaf_length bits) last made.1 in
      if leb key last
      then (if leb (interior_length bits) i1 || leb (interior_length bits) i2
          then some (false, m)
          else (if made.0 then rest else some (false, made.1)))
      else some (true, m)

  unfoldable pub ensure : (ℕ → Bool) → ℕ → ℕ → PageMap3 V → Option (Bool × PageMap3 V)
  ensure grants start n m =
      ensure_loop grants (interior_length bits * interior_length bits + 1) start
        ((start + n + word - 1) % word) m

  -- Without an interior node the key goes to the next entry of the root.
  unfoldable pub next_loop : ℕ → PageMap3 V → ℕ → Option (Option V)
  next_loop zero m k = none
  next_loop (suc fuel) m k =
      let i1 = index1 bits k in
      let i3 = index3 bits k in
      let key =
        if is_some (m.root i1)
        then (k / leaf_length bits + 1) * leaf_length bits
        else (i1 + 1) * 2 ^ (leaf_bits bits + interior_bits bits) in
      let rest = next_loop fuel m key in
      if ltb k (2 ^ bits)
      then (elim (m.root i1) [
        | none ↦ rest
        | some node ↦ elim (node (index2 bits k)) [
          | none ↦ rest
          | some leaf ↦ elim (scan_leaf (leaf_length bits - i3) leaf i3) [
            | some v ↦ some (some v)
            | none ↦ rest
          ]
        ]
      ])
      else some none

  unfoldable pub next : PageMap3 V → ℕ → Option (Option V)
  next m k = next_loop (interior_length bits * interior_length bits + 1) m k
