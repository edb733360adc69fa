-- ===== src/PageHeap/Invariant/Kept.antt =====
-- Ranges of pages that stay free while spans are merged and released (src/src/page_heap.cc).
use conan_tcmalloc.Base.{
  ℕ, ◌+◌, ◌≤◌, ◌≡◌, ◌≢◌, ◌∙◌, sym, subst, some, arith, Bool-cases, ◌==◌, inl, inr,
}
use mathlib.Core.Option.{some-injective}
use conan_tcmalloc.PageHeap.State.{in_use, Span, PageHeap}

-- The range of `s'` has that of `s` in it.
abbrev pub Within : Span → Span → Type 0
Within s s' = (s'.start ≤ s.start) × (s.start + s.length ≤ s'.start + s'.length)

-- All pages of `u` are in one free span.
abbrev pub FreeIn : PageHeap → Span → Type 0
FreeIn h u = (p : ℕ) × (s : Span) × (h.spans p ≡ some s) × (s.location ≢ in_use) × Within u s

-- What was free is free.
abbrev pub KeepsFree : PageHeap → PageHeap → Type 0
KeepsFree h h' = (u : Span) → FreeIn h u → FreeIn h' u

pub same-KeepsFree : (h h' : PageHeap) → h'.directory ≡ h.directory → KeepsFree h h'
same-KeepsFree h h' d u (p, s, e, free, w) =
    (p, s, subst (λ x. x.spans p ≡ some s) (sym d) e, free, w)

-- One span is another.
pub changed-KeepsFree :
    (h h' : PageHeap) (p : ℕ) (s s' : Span)
    → h.spans p ≡ some s
    → h'.spans p ≡ some s'
    → s'.location ≢ in_use
    → Within s s'
    → ((x : ℕ) → x ≢ p → h'.spans x ≡ h.spans x)
    → KeepsFree h h'
changed-KeepsFree h h' p s s' e e' free w others u (q, t, at, used, v) =
    elim (Bool-cases (q == p)) [
      | inr other ↦ (q, t, others q (ground arith) ∙ at, used, v)
      | inl here ↦
          let same : q ≡ p = ground arith in
          let there = subst (λ x. h.spans x ≡ some t) same at in
          let is : t ≡ s = some-injective _ _ (sym there ∙ e) in
          let v' = subst (Within u) is v in (p, s', e', free, (omega arith, omega arith))
    ]

-- Two spans are one.
pub merged-KeepsFree :
    (h h' : PageHeap) (p q : ℕ) (s t j : Span)
    → h.spans p ≡ some s
    → h.spans q ≡ some t
    → h'.spans p ≡ some j
    → j.location ≢ in_use
    → Within s j
    → Within t j
    → ((x : ℕ) → x ≢ p → x ≢ q → h'.spans x ≡ h.spans x)
    → KeepsFree h h'
merged-KeepsFree h h' p q s t j e g e' free ws wt others u (x, r, at, used, v) =
    elim (Bool-cases (x == p)) [
      | inl here ↦
          let same : x ≡ p = ground arith in
          let is : r ≡ s = some-injective _ _ (sym (subst (λ y. h.spans y ≡ some r) same at) ∙ e) in
          let v' = subst (Within u) is v in (p, j, e', free, (omega arith, omega arith))
      | inr other ↦ elim (Bool-cases (x == q)) [
        | inl here ↦
            let same : x ≡ q = ground arith in
            let is : r ≡ t =
              some-injective _ _ (sym (subst (λ y. h.spans y ≡ some r) same at) ∙ g) in
            let v' = subst (Within u) is v in (p, j, e', free, (omega arith, omega arith))
        | inr neither ↦ (x, r, others x (ground arith) (ground arith) ∙ at, used, v)
      ]
    ]
