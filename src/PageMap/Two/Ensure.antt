-- ===== src/PageMap/Two/Ensure.antt =====
-- TCMalloc_PageMap2::Ensure and ::PreallocateMoreMemory of src/src/pagemap.h.
use conan_tcmalloc.Base.{
  ℕ, zero, suc, ◌+◌, ◌-◌, ◌*◌, ◌/◌, ◌%◌, ◌^◌, ◌≤◌, ◌<◌, ◌≡◌, ◌∙◌, refl, Bool, true, false, Option,
  none, some, arith, ltb, leb, is_some, Bool-cases, Option-cases, inl, inr, ◌⊎◌, ltb→lt, not_ltb→le,
  leb→le, not_leb→lt, word, div_mul_self, div_between,
}
use conan_tcmalloc.PageMap.{update}
use conan_tcmalloc.PageMap.Two.{
  PageMap2, leaf_length, root_length, leaf_length_pos, le_of_bound, get, ensure_loop, ensure, Ready,
}
use conan_tcmalloc.PageMap.Two.Access.{get-leaf, get-above}

module _ (bits : ℕ) {V : Type 0} where
  -- No pointer is changed, and what was ready stays ready.
  pub record Grown (m m' : PageMap2 V) : Type 0 where
    pub keeps : (k : ℕ) → get bits m' k ≡ get bits m k
    pub ready : (k : ℕ) → Ready bits m k → Ready bits m' k

  Grown-refl : (m : PageMap2 V) → Grown m m
  Grown-refl m = record { keeps = λ k. refl; ready = λ k r. r }

  Grown-trans : {a b c : PageMap2 V} → Grown a b → Grown b c → Grown a c
  Grown-trans g h = record {
    keeps = λ k. h.keeps k ∙ g.keeps k;
    ready = λ k r. h.ready k (g.ready k r);
  }

  abbrev fresh : PageMap2 V → ℕ → PageMap2 V
  fresh m i1 = record { root = update m.root i1 (some (λ i. none)); calls = m.calls + 1 }

  Grown-fresh : (m : PageMap2 V) (i1 : ℕ) → m.root i1 ≡ none → Grown m (fresh m i1)
  Grown-fresh m i1 e = record {
    keeps = λ k. elim (Bool-cases (ltb k (2 ^ bits))) [
      | inl lt ↦
          rw (get-leaf bits (fresh m i1) k (ltb→lt k _ lt), get-leaf bits m k (ltb→lt k _ lt))
            (ground arith)
      | inr ge ↦ rw (
        get-above bits (fresh m i1) k (not_ltb→le k _ ge),
        get-above bits m k (not_ltb→le k _ ge),
      )
    ];
    ready = λ k r. record { bound = r.bound; leaf = ground (arith, r.leaf) };
  }

  Grown-refused : (m : PageMap2 V) → Grown m (record m { calls = m.calls + 1 })
  unfolding get
  Grown-refused m = record {
    keeps = λ k. refl;
    ready = λ k r. record { bound = r.bound; leaf = r.leaf };
  }

  -- What a run of the loop from `key` up to `last` has done.
  pub record Outcome (grants : ℕ → Bool) (m : PageMap2 V) (key last : ℕ) (ok : Bool)
      (m' : PageMap2 V) : Type 0 where
    pub grown : Grown m m'
    pub calls : m.calls ≤ m'.calls
    pub ready : ok ≡ true → (k : ℕ) → key ≤ k → k ≤ last → Ready bits m' k
    pub refused : ok ≡ false → (2 ^ bits ≤ last) ⊎ ((c : ℕ) × (m.calls ≤ c) × (grants c ≡ false))

  module _ (grants : ℕ → Bool) (key last : ℕ) where
    -- One round: there was or is now a leaf, and the rest of the loop starts behind it.
    Outcome-step :
        {ok : Bool} {m m₁ m' : PageMap2 V}
        → key / leaf_length bits < root_length bits
        → Grown m m₁
        → m.calls ≤ m₁.calls
        → is_some (m₁.root (key / leaf_length bits)) ≡ true
        → Outcome grants m₁ ((key / leaf_length bits + 1) * leaf_length bits) last ok m'
        → Outcome grants m key last ok m'
    Outcome-step {m} b g c s o = record {
      grown = Grown-trans g o.grown;
      calls = omega (arith, o.calls);
      ready = λ e k p q.
          elim (Bool-cases (ltb k ((key / leaf_length bits + 1) * leaf_length bits))) [
            | inl lt ↦
                let same : k / leaf_length bits ≡ key / leaf_length bits =
                  div_between key k (leaf_length bits) (leaf_length_pos bits) p (ltb→lt k _ lt) in
                o.grown.ready k (record { bound = rw same b; leaf = rw same s })
            | inr ge ↦ o.ready e k (not_ltb→le k _ ge) q
          ];
      refused = λ e. elim (o.refused e) [ inl h ↦ inl h | inr (i, p, q) ↦ inr (i, omega arith, q) ];
    }

    Outcome-done : (m : PageMap2 V) → last < key → Outcome grants m key last true m
    Outcome-done m h = record {
      grown = Grown-refl m;
      calls = omega arith;
      ready = λ e k p q. absurd (omega arith);
      refused = λ e. cc;
    }

    Outcome-range :
        (m : PageMap2 V) → key ≤ last → 2 ^ bits ≤ key → Outcome grants m key last false m
    Outcome-range m p q = record {
      grown = Grown-refl m;
      calls = omega arith;
      ready = λ e. cc;
      refused = λ e. inl (omega arith);
    }

    Outcome-refused :
        (m : PageMap2 V)
        → grants m.calls ≡ false
        → Outcome grants m key last false (record m { calls = m.calls + 1 })
    Outcome-refused m h = record {
      grown = Grown-refused m;
      calls = omega arith;
      ready = λ e. cc;
      refused = λ e. inr (m.calls, omega arith, h);
    }

    abbrev Ends : PageMap2 V → Option (Bool × PageMap2 V) → Type 0
    Ends m r =
        (ok : Bool) × (m' : PageMap2 V) × (r ≡ some (ok, m')) × Outcome grants m key last ok m'

module _ (bits : ℕ) {V : Type 0} (grants : ℕ → Bool) (last : ℕ) where
  Ends-step :
      (fuel key : ℕ) {m : PageMap2 V} (m₁ : PageMap2 V)
      → key / leaf_length bits < root_length bits
      → Grown bits m m₁
      → m.calls ≤ m₁.calls
      → is_some (m₁.root (key / leaf_length bits)) ≡ true
      → ensure_loop bits grants (suc fuel) key last m
        ≡ ensure_loop bits grants fuel ((key / leaf_length bits + 1) * leaf_length bits) last m₁
      → Ends bits grants
          ((key / leaf_length bits + 1) * leaf_length bits)
          last
          m₁
          (ensure_loop bits grants fuel ((key / leaf_length bits + 1) * leaf_length bits) last m₁)
      → Ends bits grants key last m (ensure_loop bits grants (suc fuel) key last m)
  Ends-step fuel key m₁ b g c s e (ok, m', is, o) =
      (ok, m', e ∙ is, Outcome-step bits grants key last b g c s o)

  -- Enough fuel: the index into the root grows by one in each round.
  ensure_loop-Ends :
      (fuel key : ℕ) (m : PageMap2 V)
      → 0 < fuel
      → root_length bits < key / leaf_length bits + fuel
      → Ends bits grants key last m (ensure_loop bits grants fuel key last m)
  unfolding ensure_loop
  ensure_loop-Ends zero key m pos enough = absurd (omega arith)
  ensure_loop-Ends (suc fuel) key m pos enough =
      let i1 = key / leaf_length bits in
      let next = (i1 + 1) * leaf_length bits in
      let index : next / leaf_length bits ≡ i1 + 1 = div_mul_self _ _ (leaf_length_pos bits) in
      elim (Bool-cases (leb key last)) [
        | inr done ↦ (true, m, rw done, Outcome-done bits grants key last m (not_leb→lt _ _ done))
        | inl more ↦ elim (Bool-cases (ltb i1 (root_length bits))) [
          | inr out ↦ (
            false,
            m,
            rw (more, out),
            Outcome-range bits grants key last m (leb→le _ _ more)
                (le_of_bound bits key (not_ltb→le _ _ out)),
          )
          | inl b ↦ elim (Option-cases (m.root i1)) [
            | inl e ↦ elim (Bool-cases (grants m.calls)) [
              | inl granted ↦
                  Ends-step fuel key (fresh bits m i1) (ltb→lt _ _ b) (Grown-fresh bits m i1 e)
                    (omega arith) (ground arith) (rw (more, b, e, granted))
                    (ensure_loop-Ends fuel next (fresh bits m i1) (omega (arith, ltb→lt _ _ b))
                      (omega (arith, ltb→lt _ _ b)))
              | inr refused ↦ (
                false,
                record m { calls = m.calls + 1 },
                rw (more, b, e, refused),
                Outcome-refused bits grants key last m refused,
              )
            ]
            | inr (leaf, e) ↦
                Ends-step fuel key m (ltb→lt _ _ b) (Grown-refl bits m) (omega arith) (rw e)
                  (rw (more, b, e))
                  (ensure_loop-Ends fuel next m (omega (arith, ltb→lt _ _ b))
                    (omega (arith, ltb→lt _ _ b)))
          ]
        ]
      ]

module _ (bits : ℕ) {V : Type 0} (grants : ℕ → Bool) (start n : ℕ) (m : PageMap2 V) (pos : 0 < n)
    (fits : start + n ≤ word) where
  -- Ensure of a range of at least one number that does not wrap always returns; it changes no
  -- pointer and takes no leaf away; where it returns true every number of the range is ready, and
  -- it returns false only if the range leaves the map or the allocator refused a request.
  pub ensure-Outcome :
      (ok : Bool) × (m' : PageMap2 V) × (ensure bits grants start n m ≡ some (ok, m'))
      × Outcome bits grants m start (start + n - 1) ok m'
  unfolding ensure
  ensure-Outcome =
      let last : (start + n + word - 1) % word ≡ start + n - 1 = omega arith in
      rw last (
        ensure_loop-Ends bits grants (start + n - 1) (root_length bits + 1) start m (omega arith)
          (omega arith))
