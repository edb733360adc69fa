-- ===== src/PageHeap/Geometry/Tiling.antt =====
-- Spans that do not overlap, and a page map that leads to them.
use conan_tcmalloc.Base.{
  ℕ, ◌+◌, ◌-◌, ◌≤◌, ◌<◌, ◌≡◌, ◌≢◌, ◌⊎◌, inl, inr, Option, some, ◌==◌, if◌then◌else◌, arith, subst,
  sym, Bool-cases,
}
use mathlib.Core.Path.{subst₂}
use conan_tcmalloc.PageMap.{update}
use conan_tcmalloc.PageMap.Two.{PageMap2, get, Ready}
use conan_tcmalloc.PageHeap.State.{Span, page_bits}

abbrev pub Spans : Type 0
Spans = ℕ → Option Span

-- The two ranges share no page.
abbrev pub Apart : Span → Span → Type 0
Apart s t = (s.start + s.length ≤ t.start) ⊎ (t.start + t.length ≤ s.start)

abbrev pub Holds : Span → ℕ → Type 0
Holds s k = (s.start ≤ k) × (k < s.start + s.length)

-- The span at `p` is not empty, and the page map can hold its pages and knows its ends.
pub record Filled (m : PageMap2 ℕ) (p : ℕ) (s : Span) : Type 0 where
  pub start_pos : 0 < s.start
  pub length_pos : 0 < s.length
  pub first : get page_bits m s.start ≡ some p
  pub last : get page_bits m (s.start + s.length - 1) ≡ some p
  pub ready : (k : ℕ) → s.start ≤ k → k < s.start + s.length → Ready page_bits m k

pub record Tiling (spans : Spans) (m : PageMap2 ℕ) : Type 0 where
  pub filled : (p : ℕ) (s : Span) → spans p ≡ some s → Filled m p s
  pub apart : (p q : ℕ) (s t : Span) → p ≢ q → spans p ≡ some s → spans q ≡ some t → Apart s t
  pub covered :
      (k q : ℕ) → get page_bits m k ≡ some q → (p : ℕ) × (s : Span) × (spans p ≡ some s) × Holds s k

-- `m'` has what `m` has, but for the pointer at one page.
pub record Wrote (m : PageMap2 ℕ) (k p : ℕ) (m' : PageMap2 ℕ) : Type 0 where
  pub value : (j : ℕ) → get page_bits m' j ≡ (if j == k then some p else get page_bits m j)
  pub ready : (j : ℕ) → Ready page_bits m j → Ready page_bits m' j

module _ {spans : Spans} {m : PageMap2 ℕ} (t : Tiling spans m) where
  -- The descriptor of the page before a span is the span that ends there, if there is any.
  pub descriptor-before :
      (p q : ℕ) (s : Span)
      → spans p ≡ some s
      → get page_bits m (s.start - 1) ≡ some q
      → (u : Span) × (spans q ≡ some u) × (u.start + u.length ≡ s.start) × (p ≢ q)
  descriptor-before p q s e g =
      let (r, u, er, holds) = t.covered (s.start - 1) q g in
      let f = t.filled p s e in
      let ne : p ≢ r = λ eq. ground (arith, f.start_pos) in
      let ends : u.start + u.length ≡ s.start = elim (t.apart p r s u ne e er) [
        | inl h ↦ absurd (omega (arith, f.length_pos))
        | inr h ↦ omega (arith, f.start_pos)
      ] in
      let same : r ≡ q = ground (arith, (t.filled r u er).last, ends) in
      (u, subst (λ x. spans x ≡ some u) same er, ends, subst (λ x. p ≢ x) same ne)

  pub descriptor-after :
      (p q : ℕ) (s : Span)
      → spans p ≡ some s
      → get page_bits m (s.start + s.length) ≡ some q
      → (u : Span) × (spans q ≡ some u) × (s.start + s.length ≡ u.start) × (p ≢ q)
  descriptor-after p q s e g =
      let (r, u, er, holds) = t.covered (s.start + s.length) q g in
      let f = t.filled p s e in
      let ne : p ≢ r = λ eq. ground (arith) in
      let begins : s.start + s.length ≡ u.start = elim (t.apart p r s u ne e er) [
        | inl h ↦ omega arith
        | inr h ↦ absurd (omega (arith, f.length_pos))
      ] in
      let same : r ≡ q = ground (arith, (t.filled r u er).first, begins) in
      (u, subst (λ x. spans x ≡ some u) same er, begins, subst (λ x. p ≢ x) same ne)

-- `m'` has what `m` has, but that RecordSpan has written the ends of the span `t` at `l`.
pub record Recorded (m : PageMap2 ℕ) (l : ℕ) (t : Span) (m' : PageMap2 ℕ) : Type 0 where
  pub value :
      (j : ℕ)
      → get page_bits m' j ≡ (
          if j == t.start + t.length - 1
          then some l
          else (if j == t.start then some l else get page_bits m j))
  pub ready : (j : ℕ) → Ready page_bits m j → Ready page_bits m' j

-- A Span may change in all but its range.
pub Tiling-relabel :
    {spans : Spans} {m : PageMap2 ℕ} (p : ℕ) (s s' : Span)
    → Tiling spans m
    → spans p ≡ some s
    → s'.start ≡ s.start
    → s'.length ≡ s.length
    → Tiling (update spans p (some s')) m
Tiling-relabel {spans} {m} p s s' t e es el = record {
  filled = λ q u h. elim (Bool-cases (q == p)) [
    | inl at ↦
        let f = t.filled p s e in
        let q-p : q ≡ p = ground arith in
        let u-s : s' ≡ u = ground arith in
        subst₂ (Filled m) (sym q-p) u-s (record {
          start_pos = omega (arith, f.start_pos);
          length_pos = omega (arith, f.length_pos);
          first = rw es f.first;
          last = rw (es, el) f.last;
          ready = λ k a b. f.ready k (omega arith) (omega arith);
        })
    | inr other ↦ t.filled q u (ground arith)
  ];
  apart = λ q r u v ne a b. ground (arith, t.apart q r u v ne, t.apart p r s v, t.apart q p u s);
  covered = λ k q h.
      let (r, u, er, holds) = t.covered k q h in
      elim (Bool-cases (r == p)) [
        | inl at ↦ (p, s', ground arith, ground (arith, e, er))
        | inr other ↦ (r, u, ground arith, holds)
      ];
}
