-- ===== src/PageMap/Two/Access.antt =====
-- TCMalloc_PageMap2::get and ::set of src/src/pagemap.h.
use conan_tcmalloc.Base.{
  ℕ, ◌/◌, ◌%◌, ◌^◌, ◌<◌, ◌≡◌, refl, true, Option, none, some, arith, ltb, ◌==◌, if◌then◌else◌,
  is_some, eq_of_div_mod, div_eq_zero, div_pos, pow_pos, Option-cases, Bool-cases, inl, inr, ltb→lt,
  not_ltb→le, ◌≤◌, subst,
}
use mathlib.Core.Bool.{false≢true}
use conan_tcmalloc.PageMap.{update}
use conan_tcmalloc.PageMap.Two.{
  Leaf, PageMap2, leaf_length, root_length, lt_of_bound, get, set, at_leaf, Ready,
}

module _ (bits : ℕ) {V : Type 0} where
  -- Inside the map a read is a read of the leaf.
  pub get-leaf :
      (m : PageMap2 V) (k : ℕ)
      → k < 2 ^ bits
      → get bits m k ≡ at_leaf (m.root (k / leaf_length bits)) (k % leaf_length bits)
  unfolding get
  get-leaf m k h = rw (div_eq_zero k (2 ^ bits) h) refl

  pub get-above : (m : PageMap2 V) (k : ℕ) → 2 ^ bits ≤ k → get bits m k ≡ none
  unfolding get
  get-above m k h = ground (arith, div_pos k (2 ^ bits) (pow_pos bits))

  pub set-leaf :
      (m : PageMap2 V) (k : ℕ) (v : Option V) (leaf : Leaf V)
      → k / leaf_length bits < root_length bits
      → m.root (k / leaf_length bits) ≡ some leaf
      → set bits m k v
        ≡ some (record m {
          root = update m.root (k / leaf_length bits) (some (update leaf (k % leaf_length bits) v));
        })
  unfolding set
  set-leaf m k v leaf b e = ground arith

  module _ (m : PageMap2 V) (k : ℕ) (v : Option V) (leaf : Leaf V)
      (b : k / leaf_length bits < root_length bits)
      (e : m.root (k / leaf_length bits) ≡ some leaf) where
    abbrev written : PageMap2 V
    written = record m {
      root = update m.root (k / leaf_length bits) (some (update leaf (k % leaf_length bits) v));
    }

    get-written : (j : ℕ) → get bits written j ≡ (if j == k then v else get bits m j)
    get-written j = elim (Bool-cases (ltb j (2 ^ bits))) [
      | inl lt ↦
          rw (get-leaf written j (ltb→lt j _ lt), get-leaf m j (ltb→lt j _ lt))
            (ground (arith, eq_of_div_mod j k (leaf_length bits)))
      | inr ge ↦
          rw (get-above written j (not_ltb→le j _ ge), get-above m j (not_ltb→le j _ ge))
            (ground (arith, lt_of_bound bits k b))
    ]

    Ready-written : (j : ℕ) → Ready bits m j → Ready bits written j
    Ready-written j r = record { bound = r.bound; leaf = ground (arith, r.leaf) }

  -- A write to a key that is ready succeeds; a read then gives the value at that key and what it
  -- gave before at any other, and what was ready is ready.
  pub get-set :
      (m : PageMap2 V) (k : ℕ) (v : Option V)
      → Ready bits m k
      → (m' : PageMap2 V) × (set bits m k v ≡ some m')
        × ((j : ℕ) → get bits m' j ≡ (if j == k then v else get bits m j))
        × ((j : ℕ) → Ready bits m j → Ready bits m' j)
  get-set m k v r = elim (Option-cases (m.root (k / leaf_length bits))) [
    | inl e ↦ absurd (false≢true (subst (λ o. is_some o ≡ true) e r.leaf))
    | inr (leaf, e) ↦ (
      written m k v leaf r.bound e,
      set-leaf m k v leaf r.bound e,
      get-written m k v leaf r.bound e,
      Ready-written m k v leaf r.bound e,
    )
  ]
