-- ===== src/PageHeap/Invariant/Rounds.antt =====
-- The for loop of ReleaseAtLeastNPages of src/src/page_heap.cc.
use conan_tcmalloc.Base.{
  ℕ, zero, suc, ◌+◌, ◌≤◌, ◌<◌, ◌≡◌, ◌⊎◌, refl, subst, sym, Bool, true, false, some, List, [], ◌∷◌,
  ltb, ◌==◌, if◌then◌else◌, arith, has, Bool-cases, Option-cases, inl, inr,
}
use conan_tcmalloc.PageHeap.State.{
  on_normal_freelist, Span, PageHeap, System, ◌>>◌, pure, max_pages, bytes,
}
use conan_tcmalloc.PageHeap.Merge.{release_span}
use conan_tcmalloc.PageHeap.Release.{head?, last?, victim, release_round, next_release_index}
use conan_tcmalloc.PageHeap.Invariant.{IsValid, Answered, Returns, returns, bind, mono}
use conan_tcmalloc.PageHeap.Invariant.Kept.{KeepsFree}
use conan_tcmalloc.PageHeap.Invariant.Freed.{release_span_rule}

pub has-head? : (xs : List ℕ) (p : ℕ) → head? xs ≡ some p → has p xs ≡ true
has-head? [] p h = cc
has-head? (x ∷ xs) p h = ground arith

has-last? : (xs : List ℕ) (p : ℕ) → last? xs ≡ some p → has p xs ≡ true
unfolding last?
has-last? [] p h = cc
has-last? (x ∷ xs) p h = elim (Option-cases (last? xs)) [
  | inl e ↦ ground arith
  | inr (q, e) ↦ ground (arith, has-last? xs q e)
]

-- A span that is chosen for release is on a normal list.
pub victim-normal :
    (i p : ℕ) {h : PageHeap}
    → IsValid h
    → victim i h ≡ some p
    → (s : Span) × (h.spans p ≡ some s) × (s.location ≡ on_normal_freelist)
unfolding victim
victim-normal i p {h} v e = elim (Bool-cases (i == max_pages)) [
  | inl at ↦
      let (s, is, held, l, fits) =
        v.listed.large_normal p (has-head? h.large_normal p (rw at at e)) in
      (s, is, l)
  | inr below ↦
      let (s, is, held, l, fits) = v.listed.normal i p (has-last? (h.normal i) p (rw below at e)) in
      (s, is, l)
]

pub with_index-IsValid :
    {h : PageHeap} (i : ℕ) → IsValid h → IsValid (record h { release_index = i })
with_index-IsValid i v = record {
  geometry = v.geometry;
  listed = v.listed;
  balanced = v.balanced;
  counted = v.counted;
  owned = v.owned;
  limited = v.limited;
}

-- A span that was released, or that was not.
abbrev pub Released : System → ℕ → Type 0
Released sys len = (0 < len) ⊎ ((len ≡ 0) × Answered sys false)

-- The rounds end with no fewer pages than before, and early only if a release failed.
abbrev pub Rounds : System → PageHeap → ℕ → Bool × ℕ → PageHeap → Type 0
Rounds sys h released r h' =
    IsValid h' × (released ≤ r.1) × ((r.0 ≡ false) ⊎ Answered sys false) × KeepsFree h h'

module _ (sys : System) where
  -- ReleaseSpan of the span that is next.
  pub release_victim :
      (i p : ℕ) {h : PageHeap}
      → IsValid h
      → victim i h ≡ some p
      → Returns
          (λ len h'. IsValid h' × Released sys len × KeepsFree h h')
          (release_span sys p (record h { release_index = i }))
  release_victim i p {h} v e =
      let (s, is, l) = victim-normal i p v e in
      let pos = (v.geometry.tiling.filled p s is).length_pos in
      mono (release_span_rule sys p s (with_index-IsValid i v) is l) λ len h' (w, kept, out). (
        w,
        elim out [
          | inl (all, called, released) ↦ inl (subst (λ n. 0 < n) (sym all) pos)
          | inr (nothing, same, refused) ↦
              inr (nothing, (h.calls, bytes s.start, bytes s.length, refused))
        ],
        kept,
      )

module _ (sys : System) (num_pages : ℕ) where
  after_release :
      (h₀ : PageHeap) (rounds released len : ℕ) {h : PageHeap}
      → IsValid h
      → Released sys len
      → KeepsFree h₀ h
      → ((released' : ℕ) (h' : PageHeap)
          → IsValid h'
          → Returns (Rounds sys h' released') (release_round sys rounds num_pages released' h'))
      → Returns (Rounds sys h₀ released) (
          (if len == 0
              then pure (true, released)
              else next_release_index >> release_round sys rounds num_pages (released + len))
            h)
  after_release h₀ rounds released len {h} v out kept next = elim out [
    | inl some_released ↦
        let more : (len == 0) ≡ false = ground arith in
        rw more (
          mono (next (released + len) _ (with_index-IsValid (h.release_index + 1) v))
            λ r h' (w, le, end, more_kept). (w, omega arith, end, λ u k. more_kept u (kept u k)))
    | inr (nothing, refused) ↦
        let stop : (len == 0) ≡ true = ground arith in
        rw stop (returns (v, omega arith, inr refused, kept))
  ]

  -- The loop over the lists in ReleaseAtLeastNPages, from a heap that keeps the invariant, always
  -- returns without a fault, keeps the invariant, only adds to the number of pages released, and ends
  -- early only if a release failed.
  pub release_round_rule :
      (rounds released : ℕ) {h : PageHeap}
      → IsValid h
      → Returns (Rounds sys h released) (release_round sys rounds num_pages released h)
  unfolding release_round
  release_round_rule zero released v = returns (v, omega arith, inl refl, λ u k. k)
  release_round_rule (suc rounds) released {h} v =
      let i = if ltb max_pages h.release_index then 0 else h.release_index in
      elim (Bool-cases (ltb released num_pages)) [
        | inr done ↦ rw (done, release_round) (returns (v, omega arith, inl refl, λ u k. k))
        | inl more ↦ elim (Option-cases (victim i h)) [
          | inl e ↦
              rw (more, e, release_round)
                (release_round_rule rounds released (with_index-IsValid (i + 1) v))
          | inr (p, e) ↦
              rw (more, e, release_round)
                (bind (release_victim sys i p v e) λ len h' (w, out, kept).
                  after_release h rounds released len w out kept
                    (λ released' h''. release_round_rule rounds released'))
        ]
      ]
