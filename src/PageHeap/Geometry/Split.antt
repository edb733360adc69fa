-- ===== src/PageHeap/Geometry/Split.antt =====
-- One span becomes two: Split and Carve of src/src/page_heap.cc.
use mathlib.Core.Path.{subst₂}
use conan_tcmalloc.Base.{
  ℕ, ◌+◌, ◌-◌, ◌≤◌, ◌<◌, ◌≡◌, ◌≢◌, ◌⊎◌, inl, inr, sym, ◌∙◌, none, some, ◌==◌, leb, leb→le,
  not_leb→lt, arith, Bool-cases,
}
use conan_tcmalloc.PageMap.{update}
use conan_tcmalloc.PageMap.Two.{PageMap2, get, Ready}
use conan_tcmalloc.PageHeap.State.{Span, page_bits}
use conan_tcmalloc.PageHeap.Geometry.Tiling.{Spans, Tiling, Filled, Apart, Holds, Wrote, Recorded}

-- `s` at `p` is cut into `a` and, at the free object `l`, `b`.
pub record Cut (s a b : Span) : Type 0 where
  pub starts : a.start ≡ s.start
  pub shorter : 0 < a.length
  pub rest : 0 < b.length
  pub meets : b.start ≡ s.start + a.length
  pub whole : a.length + b.length ≡ s.length

module _ {spans : Spans} {m m₁ m' : PageMap2 ℕ} (p l : ℕ) (s a b : Span) (t : Tiling spans m)
    (e : spans p ≡ some s) (free : spans l ≡ none) (c : Cut s a b) (r : Recorded m l b m₁)
    (w : Wrote m₁ (a.start + a.length - 1) p m') where
  abbrev after : Spans
  after = update (update spans l (some b)) p (some a)

  new-Ready : (k : ℕ) → Ready page_bits m k → Ready page_bits m' k
  new-Ready k h = w.ready k (r.ready k h)

  at_p : after p ≡ some a
  at_p = ground arith

  at_l : after l ≡ some b
  at_l = ground arith

  Filled-a : Filled m' p a
  Filled-a =
      let f = t.filled p s e in
      record {
        start_pos = omega (arith, c.starts, f.start_pos);
        length_pos = c.shorter;
        first = ground (
          arith,
          w.value a.start,
          r.value a.start,
          f.first,
          c.starts,
          c.meets,
          c.whole,
          c.rest,
          c.shorter,
        );
        last = ground (arith, w.value (a.start + a.length - 1));
        ready = λ k x y.
            new-Ready k (f.ready k (omega (arith, c.starts)) (omega (arith, c.starts, c.whole)));
      }

  Filled-b : Filled m' l b
  Filled-b =
      let f = t.filled p s e in
      record {
        start_pos = omega (arith, c.meets, f.start_pos);
        length_pos = c.rest;
        first =
            ground (arith, w.value b.start, r.value b.start, c.starts, c.meets, c.shorter, c.rest);
        last = ground (
          arith,
          w.value (b.start + b.length - 1),
          r.value (b.start + b.length - 1),
          c.starts,
          c.meets,
          c.shorter,
          c.rest,
        );
        ready = λ k x y.
            new-Ready k (f.ready k (omega (arith, c.meets)) (omega (arith, c.meets, c.whole)));
      }

  -- Outside the span that was cut nothing is written.
  same_value :
      (j : ℕ) → (j < s.start) ⊎ (s.start + s.length ≤ j) → get page_bits m' j ≡ get page_bits m j
  same_value j out =
      ground (arith, w.value j, r.value j, c.starts, c.meets, c.whole, c.shorter, c.rest)

  Filled-other : (q : ℕ) (u : Span) → q ≢ p → spans q ≡ some u → Filled m' q u
  Filled-other q u ne h =
      let f = t.filled q u h in
      let away = t.apart q p u s ne h e in
      record {
        start_pos = f.start_pos;
        length_pos = f.length_pos;
        first =
            ground (arith, same_value u.start, f.first, f.length_pos, (t.filled p s e).length_pos);
        last = ground (
          arith,
          same_value (u.start + u.length - 1),
          f.last,
          f.length_pos,
          (t.filled p s e).length_pos,
        );
        ready = λ k x y. new-Ready k (f.ready k x y);
      }

  -- What the spans are after the cut.
  after_cases :
      (q : ℕ) (u : Span)
      → after q ≡ some u
      → ((q ≡ p) × (a ≡ u)) ⊎ ((q ≡ l) × (b ≡ u)) ⊎ ((q ≢ p) × (spans q ≡ some u))
  after_cases q u h = elim (Bool-cases (q == p)) [
    | inl at ↦ inl (ground arith, ground arith)
    | inr other ↦ elim (Bool-cases (q == l)) [
      | inl at ↦ inr (inl (ground arith, ground arith))
      | inr free_other ↦ inr (inr (λ x. ground arith, ground arith))
    ]
  ]

  a-b : Apart a b
  a-b = inl (omega (arith, c.starts, c.meets))

  a-other : (q : ℕ) (u : Span) → q ≢ p → spans q ≡ some u → Apart u a
  a-other q u ne h = omega (arith, t.apart q p u s ne h e, c.starts, c.whole)

  b-other : (q : ℕ) (u : Span) → q ≢ p → spans q ≡ some u → Apart u b
  b-other q u ne h = omega (arith, t.apart q p u s ne h e, c.meets, c.whole)

  Apart-after : (q r : ℕ) (u v : Span) → q ≢ r → after q ≡ some u → after r ≡ some v → Apart u v
  Apart-after q r u v ne h k = elim (after_cases q u h) [
    | inl (qp, au) ↦ elim (after_cases r v k) [
      | inl (rp, av) ↦ absurd (ne (ground arith))
      | inr (inl (rl, bv)) ↦ subst₂ Apart au bv a-b
      | inr (inr (n, o)) ↦ ground (arith, a-other r v n o)
    ]
    | inr (inl (ql, bu)) ↦ elim (after_cases r v k) [
      | inl (rp, av) ↦ ground (arith, a-b)
      | inr (inl (rl, bv)) ↦ absurd (ne (ground arith))
      | inr (inr (n, o)) ↦ ground (arith, b-other r v n o)
    ]
    | inr (inr (n, o)) ↦ elim (after_cases r v k) [
      | inl (rp, av) ↦ ground (arith, a-other q u n o)
      | inr (inl (rl, bv)) ↦ ground (arith, b-other q u n o)
      | inr (inr (n', o')) ↦ t.apart q r u v ne o o'
    ]
  ]

  covered-after :
      (k q : ℕ)
      → get page_bits m' k ≡ some q
      → (x : ℕ) × (u : Span) × (after x ≡ some u) × Holds u k
  covered-after k q h = elim (Bool-cases (leb s.start k)) [
    | inr before ↦ old (inl (not_leb→lt _ _ before))
    | inl lo ↦ elim (Bool-cases (leb (s.start + s.length) k)) [
      | inl behind ↦ old (inr (leb→le _ _ behind))
      | inr hi ↦ elim (Bool-cases (leb b.start k)) [
        | inl in_b ↦ (l, b, at_l, ground (arith, c.meets, c.whole))
        | inr in_a ↦ (p, a, at_p, ground (arith, c.starts, c.meets))
      ]
    ]
  ]
    where
      old :
          (k < s.start) ⊎ (s.start + s.length ≤ k)
          → (x : ℕ) × (u : Span) × (after x ≡ some u) × Holds u k
      old out =
          let (x, u, ex, holds) = t.covered k q (sym (same_value k out) ∙ h) in
          let ne : x ≢ p = λ eq. ground arith in (x, u, ground arith, holds)

  -- The two parts of a span that is cut lie as the spans did.
  pub Tiling-split : Tiling after m'
  Tiling-split = record {
    filled = λ q u h. elim (after_cases q u h) [
      | inl (qp, au) ↦ subst₂ (Filled m') (sym qp) au Filled-a
      | inr (inl (ql, bu)) ↦ subst₂ (Filled m') (sym ql) bu Filled-b
      | inr (inr (n, o)) ↦ Filled-other q u n o
    ];
    apart = Apart-after;
    covered = covered-after;
  }
