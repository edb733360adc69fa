-- ===== src/PageHeap/Geometry/Join.antt =====
-- Two spans that meet become one: the merges of MergeIntoFreeList of src/src/page_heap.cc.
use mathlib.Core.Path.{subst₂}
use conan_tcmalloc.Base.{
  ℕ, ◌+◌, ◌-◌, ◌≡◌, ◌≢◌, ◌⊎◌, inl, inr, sym, none, some, ◌==◌, leb, leb→le, not_leb→lt, arith,
  Bool-cases,
}
use conan_tcmalloc.PageMap.{update}
use conan_tcmalloc.PageMap.Two.{PageMap2, get}
use conan_tcmalloc.PageHeap.State.{Span, page_bits}
use conan_tcmalloc.PageHeap.Geometry.Tiling.{Spans, Tiling, Filled, Apart, Holds, Wrote}

-- `s` and `u` meet, `j` has the range of both, and `k` is the end that `j` has from `u`.
pub data Join (s u j : Span) (k : ℕ) : Type 0 where
  before :
      u.start + u.length ≡ s.start
      → j.start ≡ u.start
      → j.length ≡ s.length + u.length
      → k ≡ u.start
      → Join s u j k
  behind :
      s.start + s.length ≡ u.start
      → j.start ≡ s.start
      → j.length ≡ s.length + u.length
      → k ≡ u.start + u.length - 1
      → Join s u j k

pub Join-length : {s u j : Span} {k : ℕ} → Join s u j k → j.length ≡ s.length + u.length
Join-length (before meets start len at) = len
Join-length (behind meets start len at) = len

-- The facts of both cases that are linear.
abbrev Ends : Span → Span → Span → ℕ → Type 0
Ends s u j k =
    (j.length ≡ s.length + u.length)
    × (((u.start + u.length ≡ s.start) × (j.start ≡ u.start) × (k ≡ u.start))
        ⊎ ((s.start + s.length ≡ u.start) × (j.start ≡ s.start) × (k ≡ u.start + u.length - 1)))

ends : {s u j : Span} {k : ℕ} → Join s u j k → Ends s u j k
ends (before a b c d) = (c, inl (a, b, d))
ends (behind a b c d) = (c, inr (a, b, d))

module _ {spans : Spans} {m m' : PageMap2 ℕ} (p q k : ℕ) (s u j : Span) (t : Tiling spans m)
    (e : spans p ≡ some s) (g : spans q ≡ some u) (ne : p ≢ q) (c : Join s u j k)
    (w : Wrote m k p m') where
  abbrev after : Spans
  after = update (update spans q none) p (some j)

  Filled-j : Filled m' p j
  Filled-j =
      let f = t.filled p s e in
      let f' = t.filled q u g in
      record {
        start_pos = omega (arith, ends c, f.start_pos, f'.start_pos);
        length_pos = omega (arith, ends c, f.length_pos);
        first = ground (arith, ends c, w.value j.start, f.first, f.length_pos, f'.length_pos);
        last =
            ground (
              arith,
              ends c,
              w.value (j.start + j.length - 1),
              f.last,
              f.length_pos,
              f'.length_pos,
            );
        ready = λ i x y. w.ready i (elim (Bool-cases (leb s.start i)) [
          | inr lo ↦ f'.ready i (ground (arith, ends c)) (ground (arith, ends c))
          | inl hi ↦ elim (Bool-cases (leb (s.start + s.length) i)) [
            | inl above ↦ f'.ready i (ground (arith, ends c)) (ground (arith, ends c))
            | inr inside ↦ f.ready i (leb→le _ _ hi) (not_leb→lt _ _ inside)
          ]
        ]);
      }

  away_s : (r : ℕ) (v : Span) → r ≢ p → spans r ≡ some v → Apart v s
  away_s r v n h = t.apart r p v s n h e

  away_u : (r : ℕ) (v : Span) → r ≢ q → spans r ≡ some v → Apart v u
  away_u r v n h = t.apart r q v u n h g

  -- The written page is one of `u`.
  written : Holds u k
  written = (
    omega (arith, ends c, (t.filled q u g).length_pos),
    omega (arith, ends c, (t.filled q u g).length_pos),
  )

  Filled-other : (r : ℕ) (v : Span) → r ≢ p → r ≢ q → spans r ≡ some v → Filled m' r v
  Filled-other r v n n' h =
      let f = t.filled r v h in
      record {
        start_pos = f.start_pos;
        length_pos = f.length_pos;
        first = ground (arith, w.value v.start, f.first, f.length_pos, away_u r v n' h, written);
        last = ground (
          arith,
          w.value (v.start + v.length - 1),
          f.last,
          f.length_pos,
          away_u r v n' h,
          written,
        );
        ready = λ i x y. w.ready i (f.ready i x y);
      }

  after_cases :
      (r : ℕ) (v : Span)
      → after r ≡ some v
      → ((r ≡ p) × (j ≡ v)) ⊎ ((r ≢ p) × (r ≢ q) × (spans r ≡ some v))
  after_cases r v h = elim (Bool-cases (r == p)) [
    | inl at ↦ inl (ground arith, ground arith)
    | inr other ↦ elim (Bool-cases (r == q)) [
      | inl at ↦ absurd (ground arith)
      | inr left ↦ inr (λ x. ground arith, λ x. ground arith, ground arith)
    ]
  ]

  j-other : (r : ℕ) (v : Span) → r ≢ p → r ≢ q → spans r ≡ some v → Apart v j
  j-other r v n n' h = omega (
    arith,
    away_s r v n h,
    away_u r v n' h,
    ends c,
    (t.filled p s e).length_pos,
    (t.filled q u g).length_pos,
    (t.filled r v h).length_pos,
  )

  Apart-after : (x y : ℕ) (v z : Span) → x ≢ y → after x ≡ some v → after y ≡ some z → Apart v z
  Apart-after x y v z d h i = elim (after_cases x v h) [
    | inl (xp, jv) ↦ elim (after_cases y z i) [
      | inl (yp, jz) ↦ absurd (d (ground arith))
      | inr (n, n', o) ↦ ground (arith, j-other y z n n' o)
    ]
    | inr (n, n', o) ↦ elim (after_cases y z i) [
      | inl (yp, jz) ↦ ground (arith, j-other x v n n' o)
      | inr (l, l', o') ↦ t.apart x y v z d o o'
    ]
  ]

  covered-after :
      (i r : ℕ)
      → get page_bits m' i ≡ some r
      → (x : ℕ) × (v : Span) × (after x ≡ some v) × Holds v i
  covered-after i r h = elim (Bool-cases (i == k)) [
    | inl at ↦ (p, j, ground arith, ground (arith, ends c, written))
    | inr other ↦
        let (x, v, ex, holds) = t.covered i r (ground (arith, w.value i)) in
        elim (Bool-cases (x == p)) [
          | inl xp ↦ (p, j, ground arith, ground (arith, ends c))
          | inr xn ↦ elim (Bool-cases (x == q)) [
            | inl xq ↦ (p, j, ground arith, ground (arith, ends c))
            | inr xn' ↦ (x, v, ground arith, holds)
          ]
        ]
  ]

  -- The joined span lies as the two did.
  pub Tiling-join : Tiling after m'
  Tiling-join = record {
    filled = λ r v h. elim (after_cases r v h) [
      | inl (rp, jv) ↦ subst₂ (Filled m') (sym rp) jv Filled-j
      | inr (n, n', o) ↦ Filled-other r v n n' o
    ];
    apart = Apart-after;
    covered = covered-after;
  }
