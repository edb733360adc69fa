-- ===== src/PageMap/Three/Access.antt =====
-- TCMalloc_PageMap3::get and ::set of src/src/pagemap.h.
use conan_tcmalloc.Base.{
  ℕ, ◌/◌, ◌^◌, ◌≤◌, ◌<◌, ◌≡◌, ◌∙◌, sym, ap, refl, true, Option, none, some, arith, ltb, ◌==◌,
  if◌then◌else◌, is_some, pow_add, pow_pos, div_div, eq_of_div_mod, div_eq_zero, div_pos, subst,
  Bool-cases, inl, inr, ltb→lt, not_ltb→le,
}
use mathlib.Core.Bool.{false≢true}
use conan_tcmalloc.PageMap.{update}
use conan_tcmalloc.PageMap.Two.{Leaf, at_leaf}
use conan_tcmalloc.PageMap.Three.{
  Node, PageMap3, at_node, interior_bits, leaf_bits, interior_length, leaf_length, index1, index2,
  index3, get, set,
}

-- The shift by both numbers of bits is one by the first and then by the second.
index1-div : (bits k : ℕ) → index1 bits k ≡ (k / leaf_length bits) / interior_length bits
unfolding index1 leaf_length interior_length
index1-div bits k =
    ap (λ l. k / l) (pow_add (leaf_bits bits) (interior_bits bits))
    ∙ div_div k (2 ^ leaf_bits bits) (2 ^ interior_bits bits) (pow_pos (leaf_bits bits))
        (pow_pos (interior_bits bits))

-- A key is what its three indices say.
eq_of_indices :
    (bits j k : ℕ)
    → index1 bits j ≡ index1 bits k
    → index2 bits j ≡ index2 bits k
    → index3 bits j ≡ index3 bits k
    → j ≡ k
unfolding index2 index3
eq_of_indices bits j k a b c =
    let l = leaf_length bits in
    let i = interior_length bits in
    let d : j / l ≡ k / l =
      eq_of_div_mod (j / l) (k / l) i (sym (index1-div bits j) ∙ (a ∙ index1-div bits k)) b in
    eq_of_div_mod j k l d c

is_some-some : {A : Type 0} (o : Option A) → is_some o ≡ true → (a : A) × (o ≡ some a)
is_some-some none h = absurd (false≢true h)
is_some-some (some a) h = (a, refl)

at_node-some :
    {V : Type 0} (o : Option (Node V)) (i : ℕ)
    → is_some (at_node o i) ≡ true
    → (node : Node V) × (o ≡ some node)
at_node-some none i h = absurd (false≢true h)
at_node-some (some node) i h = (node, refl)

module _ (bits : ℕ) {V : Type 0} where
  -- The key lies in the map, and there is a leaf for it.
  pub record Ready (m : PageMap3 V) (k : ℕ) : Type 0 where
    pub bound : k < 2 ^ bits
    pub first : index1 bits k < interior_length bits
    pub leaf : is_some (at_node (m.root (index1 bits k)) (index2 bits k)) ≡ true

  get-indices :
      (m : PageMap3 V) (k : ℕ)
      → k < 2 ^ bits
      → get bits m k ≡ at_leaf (at_node (m.root (index1 bits k)) (index2 bits k)) (index3 bits k)
  unfolding get
  get-indices m k h = rw (div_eq_zero k (2 ^ bits) h) refl

  get-above : (m : PageMap3 V) (k : ℕ) → 2 ^ bits ≤ k → get bits m k ≡ none
  unfolding get
  get-above m k h = ground (arith, div_pos k (2 ^ bits) (pow_pos bits))

  module _ (m : PageMap3 V) (k : ℕ) (v : Option V) (node : Node V) (leaf : Leaf V)
      (h : k < 2 ^ bits) (b : index1 bits k < interior_length bits)
      (e : m.root (index1 bits k) ≡ some node) (f : node (index2 bits k) ≡ some leaf) where
    abbrev written : PageMap3 V
    written = record m {
      root =
          update m.root (index1 bits k)
            (some (update node (index2 bits k) (some (update leaf (index3 bits k) v))));
    }

    set-written : set bits m k v ≡ some written
    unfolding set
    set-written = ground arith

    at-written :
        (j : ℕ)
        → at_leaf (at_node (written.root (index1 bits j)) (index2 bits j)) (index3 bits j) ≡ (
            if j == k
            then v
            else at_leaf (at_node (m.root (index1 bits j)) (index2 bits j)) (index3 bits j))
    at-written j = ground (arith, eq_of_indices bits j k)

    get-written : (j : ℕ) → get bits written j ≡ (if j == k then v else get bits m j)
    get-written j = elim (Bool-cases (ltb j (2 ^ bits))) [
      | inl lt ↦
          rw (get-indices written j (ltb→lt _ _ lt), get-indices m j (ltb→lt _ _ lt)) (at-written j)
      | inr ge ↦
          rw (get-above written j (not_ltb→le _ _ ge), get-above m j (not_ltb→le _ _ ge))
            (ground arith)
    ]

    Ready-written : (j : ℕ) → Ready m j → Ready written j
    Ready-written j r = record { bound = r.bound; first = r.first; leaf = ground (arith, r.leaf) }

  -- In the three-level map a write to a key that is ready succeeds; a read then gives the value at
  -- that key and what it gave before at any other, and what was ready is ready.
  pub get-set_three :
      (m : PageMap3 V) (k : ℕ) (v : Option V)
      → Ready m k
      → (m' : PageMap3 V) × (set bits m k v ≡ some m')
        × ((j : ℕ) → get bits m' j ≡ (if j == k then v else get bits m j))
        × ((j : ℕ) → Ready m j → Ready m' j)
  get-set_three m k v r =
      let (node, e) = at_node-some (m.root (index1 bits k)) (index2 bits k) r.leaf in
      let (leaf, f) =
        is_some-some (node (index2 bits k))
          (subst (λ o. is_some (at_node o (index2 bits k)) ≡ true) e r.leaf) in
      (
        written m k v node leaf r.bound r.first e f,
        set-written m k v node leaf r.bound r.first e f,
        get-written m k v node leaf r.bound r.first e f,
        Ready-written m k v node leaf r.bound r.first e f,
      )
