-- ===== src/PageHeap/Geometry/Add.antt =====
-- New memory becomes a span: GrowHeap of src/src/page_heap.cc.
use mathlib.Core.Path.{subst₂}
use conan_tcmalloc.Base.{
  ℕ, ◌+◌, ◌-◌, ◌≤◌, ◌<◌, ◌≡◌, ◌⊎◌, inl, inr, sym, not, ◌&&◌, none, some, ◌==◌, leb, leb→le,
  not_leb→lt, arith, Bool-cases,
}
use conan_tcmalloc.PageMap.{update}
use conan_tcmalloc.PageMap.Two.{PageMap2, Ready}
use conan_tcmalloc.PageHeap.State.{Span, page_bits}
use conan_tcmalloc.PageHeap.Geometry.Tiling.{Spans, Tiling, Filled, Apart, Holds, Recorded}

-- No span has a page of the range.
abbrev pub Unused : Spans → (start length : ℕ) → Type 0
Unused spans start len =
    (k : ℕ) → start ≤ k → k < start + len → (p : ℕ) (s : Span) → spans p ≡ some s → ¬ Holds s k

module _ {spans : Spans} {m m' : PageMap2 ℕ} (l : ℕ) (n : Span) (t : Tiling spans m)
    (free : spans l ≡ none) (start_pos : 0 < n.start) (length_pos : 0 < n.length)
    (unused : Unused spans n.start n.length)
    (ready : (k : ℕ) → n.start ≤ k → k < n.start + n.length → Ready page_bits m k)
    (r : Recorded m l n m') where
  abbrev after : Spans
  after = update spans l (some n)

  away : (q : ℕ) (u : Span) → spans q ≡ some u → Apart u n
  away q u h = elim (Bool-cases (leb n.start u.start)) [
    | inl lo ↦ elim (Bool-cases (leb (n.start + n.length) u.start)) [
      | inl behind ↦ inr (leb→le _ _ behind)
      | inr in_n ↦ absurd (
          unused u.start (leb→le _ _ lo) (not_leb→lt _ _ in_n) q u h
            (omega arith, omega (arith, (t.filled q u h).length_pos)))
    ]
    | inr hi ↦ elim (Bool-cases (leb (u.start + u.length) n.start)) [
      | inl before ↦ inl (leb→le _ _ before)
      | inr in_u ↦ absurd (
          unused n.start (omega arith) (omega arith) q u h
            (omega (arith, not_leb→lt _ _ hi), not_leb→lt _ _ in_u))
    ]
  ]

  after_cases : (q : ℕ) (u : Span) → after q ≡ some u → ((q ≡ l) × (n ≡ u)) ⊎ (spans q ≡ some u)
  after_cases q u h = elim (Bool-cases (q == l)) [
    | inl at ↦ inl (ground arith, ground arith)
    | inr other ↦ inr (ground arith)
  ]

  Filled-n : Filled m' l n
  Filled-n = record {
    start_pos = start_pos;
    length_pos = length_pos;
    first = ground (arith, r.value n.start);
    last = ground (arith, r.value (n.start + n.length - 1));
    ready = λ k x y. r.ready k (ready k x y);
  }

  Filled-other : (q : ℕ) (u : Span) → spans q ≡ some u → Filled m' q u
  Filled-other q u h =
      let f = t.filled q u h in
      record {
        start_pos = f.start_pos;
        length_pos = f.length_pos;
        first = ground (arith, r.value u.start, f.first, f.length_pos, length_pos, away q u h);
        last =
            ground (
              arith,
              r.value (u.start + u.length - 1),
              f.last,
              f.length_pos,
              length_pos,
              away q u h,
            );
        ready = λ k x y. r.ready k (f.ready k x y);
      }

  -- A span of new memory lies apart from those that there are.
  pub Tiling-add : Tiling after m'
  Tiling-add = record {
    filled = λ q u h. elim (after_cases q u h) [
      | inl (ql, nu) ↦ subst₂ (Filled m') (sym ql) nu Filled-n
      | inr o ↦ Filled-other q u o
    ];
    apart = λ x y v z d h i. elim (after_cases x v h) [
      | inl (xl, nv) ↦ elim (after_cases y z i) [
        | inl (yl, nz) ↦ absurd (d (ground arith))
        | inr o ↦ ground (arith, away y z o)
      ]
      | inr o ↦ elim (after_cases y z i) [
        | inl (yl, nz) ↦ ground (arith, away x v o)
        | inr o' ↦ t.apart x y v z d o o'
      ]
    ];
    covered = λ k q h. elim (Bool-cases (leb n.start k && not (leb (n.start + n.length) k))) [
      | inl in_n ↦ (l, n, ground arith, ground arith)
      | inr out ↦
          let (x, u, ex, holds) = t.covered k q (ground (arith, r.value k, length_pos)) in
          (x, u, ground arith, holds)
    ];
  }
