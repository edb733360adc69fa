-- ===== src/PageHeap/Invariant/SizeClass.antt =====
-- RegisterSizeClass and NewWithSizeClass of src/src/page_heap.cc.
use conan_tcmalloc.Base.{
  ◌^◌, ◌%◌, ℕ, zero, suc, ◌+◌, ◌-◌, ◌≤◌, ◌<◌, ◌≡◌, ◌≢◌, ◌⊎◌, ◌∙◌, ap, refl, Bool, false, ◌&&◌,
  Option, none, some, ltb, leb, ◌==◌, if◌then◌else◌, arith, word, inl, inr, Bool-cases,
}
use conan_tcmalloc.PageMap.Two.{PageMap2, Ready, get}
use conan_tcmalloc.PageHeap.State.{in_use, Span, PageHeap, System, page_bits}
use conan_tcmalloc.PackedCache.{PackedCache}
use conan_tcmalloc.PageHeap.FreeLists.{with_span}
use conan_tcmalloc.PageHeap.Spans.{set_pages, register_size_class}
use conan_tcmalloc.PageHeap.Alloc.{must_coalesce, round_up_size}
use conan_tcmalloc.PageHeap.Geometry.Tiling.{Spans, Tiling, Filled, Holds}
use conan_tcmalloc.PageHeap.Listed.Moves.{Off-in_use}
use conan_tcmalloc.PageHeap.Invariant.{Inv, IsValid, Returns, returns, bind, mono}
use conan_tcmalloc.PageHeap.Invariant.Rules.{load-ok, set_page_rule, relabel_rule}
use conan_tcmalloc.PageHeap.Invariant.Free.{Inv-same}
use conan_tcmalloc.PageHeap.Invariant.Merges.{Stock-pagemap}
use conan_tcmalloc.PageHeap.Invariant.Cuts.{with_map}
use conan_tcmalloc.PageHeap.Invariant.Grown.{GivesNew}
use conan_tcmalloc.PageHeap.Invariant.New.{Unmet}

-- `m'` has what `m` has, but that the `rounds` pages from `k` on have `p`.
record FilledIn (m : PageMap2 ℕ) (k rounds p : ℕ) (m' : PageMap2 ℕ) : Type 0 where
  value :
      (j : ℕ)
      → get page_bits m' j ≡ (if leb k j && ltb j (k + rounds) then some p else get page_bits m j)
  ready : (j : ℕ) → Ready page_bits m j → Ready page_bits m' j

set_pages_rule :
    (rounds k p : ℕ) (h : PageHeap)
    → ((j : ℕ) → k ≤ j → j < k + rounds → Ready page_bits h.pagemap j)
    → Returns
        (λ _ h'. (m : PageMap2 ℕ) × (h' ≡ with_map h m) × FilledIn h.pagemap k rounds p m)
        (set_pages rounds k p h)
unfolding set_pages
set_pages_rule zero k p h ready =
    returns (h.pagemap, refl, record { value = λ j. ground arith; ready = λ j r. r })
set_pages_rule (suc rounds) k p h ready =
    bind (set_page_rule h k p (ready k (omega arith) (omega arith))) λ x h₁ (m₁, is₁, w₁). rw is₁ (
      mono
        (set_pages_rule rounds (k + 1) p (with_map h m₁)
          (λ j a b. w₁.ready j (ready j (omega arith) (omega arith))))
        λ y h₂ (m₂, is₂, w₂). (
          m₂,
          is₂,
          record {
            value = λ j. ground (arith, w₁.value j, w₂.value j);
            ready = λ j r. w₂.ready j (w₁.ready j r);
          },
        ))

-- Pages in the middle of a span may be given to it.
module _ {spans : Spans} {m m' : PageMap2 ℕ} (p k rounds : ℕ) (s : Span) (t : Tiling spans m)
    (e : spans p ≡ some s)
    (middle : (j : ℕ) → k ≤ j → j < k + rounds → (s.start < j) × (j + 1 < s.start + s.length))
    (f : FilledIn m k rounds p m') where
  -- The ends of a span are not in the middle of one.
  Filled-end :
      (q j : ℕ) (u : Span)
      → spans q ≡ some u
      → (j ≡ u.start) ⊎ (j + 1 ≡ u.start + u.length)
      → get page_bits m' j ≡ get page_bits m j
  Filled-end q j u h end = elim (Bool-cases (leb k j && ltb j (k + rounds))) [
    | inr outside ↦ rw f.value (rw outside)
    | inl inside ↦
        let (lo, hi) = middle j (ground arith) (ground arith) in
        elim (Bool-cases (q == p)) [
          | inl same ↦ absurd (ground (arith, e))
          | inr other ↦
              let ne : q ≢ p = ground arith in
              let pos = (t.filled q u h).length_pos in
              absurd (ground (arith, t.apart q p u s ne h e))
        ]
  ]

  Tiling-filled : Tiling spans m'
  Tiling-filled = record {
    filled = λ q u h.
        let g = t.filled q u h in
        record {
          start_pos = g.start_pos;
          length_pos = g.length_pos;
          first = Filled-end q u.start u h (inl refl) ∙ g.first;
          last =
              Filled-end q (u.start + u.length - 1) u h (inr (omega (arith, g.length_pos)))
              ∙ g.last;
          ready = λ j a b. f.ready j (g.ready j a b);
        };
    apart = t.apart;
    covered = λ j q h. elim (Bool-cases (leb k j && ltb j (k + rounds))) [
      | inl inside ↦
          let (lo, hi) = middle j (ground arith) (ground arith) in
          (p, s, e, (omega arith, omega arith))
      | inr outside ↦ t.covered j q (ground (arith, f.value j))
    ];
  }

filled-IsValid :
    {held : ℕ → Bool} {h : PageHeap} {p : ℕ} (s : Span) (m : PageMap2 ℕ)
    → Inv held 0 h
    → h.spans p ≡ some s
    → FilledIn h.pagemap (s.start + 1) (s.length - 1 - 1) p m
    → Inv held 0 (with_map h m)
filled-IsValid {h = h} {p = p} s m v e f = record {
  geometry = record {
    stock = Stock-pagemap h.directory m v.geometry.stock;
    tiling =
        Tiling-filled p (s.start + 1) (s.length - 1 - 1) s v.geometry.tiling e
          (λ j a b. (omega arith, omega arith)) f;
  };
  listed = v.listed;
  balanced = v.balanced;
  counted = v.counted;
  owned = v.owned;
  limited = v.limited;
}

pages_lead :
    {m m' : PageMap2 ℕ} (p : ℕ) (s : Span)
    → Filled m p s
    → FilledIn m (s.start + 1) (s.length - 1 - 1) p m'
    → (k : ℕ) → s.start ≤ k
    → k < s.start + s.length
    → get page_bits m' k ≡ some p
pages_lead {m} {m'} p s g f k lo hi =
    elim (Bool-cases (leb (s.start + 1) k && ltb k (s.start + 1 + (s.length - 1 - 1)))) [
      | inl inside ↦ rw f.value (rw inside)
      | inr outside ↦
          f.value k
          ∙ rw outside (elim (Bool-cases (k == s.start)) [
            | inl first ↦
                let same : k ≡ s.start = ground arith in ap (get page_bits m) same ∙ g.first
            | inr later ↦
                let same : k ≡ s.start + s.length - 1 = ground arith in
                ap (get page_bits m) same ∙ g.last
          ])
    ]

module _ (p sc : ℕ) (s : Span) {h : PageHeap} (v : IsValid h) (e : h.spans p ≡ some s)
    (used : s.location ≡ in_use) where
  abbrev classed : Span
  classed = record s { sizeclass = sc % 2 ^ 8 }

  -- In a heap that keeps the invariant, RegisterSizeClass of a span in use keeps it, and leads from
  -- every page of the span to it.
  pub register_rule :
      Returns
        (λ _ h'.
          IsValid h'
          × (h'.spans p ≡ some classed)
          × ((k : ℕ) → Holds s k → get page_bits h'.pagemap k ≡ some p))
        (register_size_class p sc h)
  unfolding register_size_class with_span
  register_rule =
      let f = v.geometry.tiling.filled p s e in
      let w =
        relabel_rule v p s e classed false (Off-in_use v.listed p s e used) refl refl
          (λ x. absurd (x used)) in
      rw (load-ok h p e) (
        mono
          (set_pages_rule (s.length - 1 - 1) (s.start + 1) p (with_span p (some classed) h)
            (λ j a b. f.ready j (omega arith) (omega arith)))
          λ x h' (m, is, filled). rw is (
            Inv-same (λ x. ground arith) refl (filled-IsValid classed m w (ground arith) filled),
            ground arith,
            λ k (lo, hi). pages_lead p s f filled k lo hi,
          ))

-- What NewWithSizeClass returns: with a size class all pages lead to the span.
abbrev pub Classed : System → PageHeap → (n sc : ℕ) → Option ℕ → PageHeap → Type 0
Classed sys h n sc r h' =
    IsValid h'
    × (((r ≡ none) × Unmet sys h n)
        ⊎ ((p : ℕ) × (s : Span) × (r ≡ some p)
            × (h'.spans p ≡ some s)
            × (s.location ≡ in_use)
            × (s.length ≡ n)
            × ((sc ≡ 0)
                ⊎ ((s.sizeclass ≡ sc)
                    × ((k : ℕ) → Holds s k → get page_bits h'.pagemap k ≡ some p)))))

module _ (sys : System) (fuel : ℕ) (enough : 1 < fuel) (unlimited : sys.heap_limit_mb ≡ 0)
    (n sc : ℕ) (small : sc < 2 ^ 8) {h : PageHeap} (v : IsValid h) (pos : 0 < n)
    (size_pos : 0 < h.smallest_span_size) (size_lt : h.smallest_span_size < word)
    (gives : GivesNew sys h)
    (no_coalesce : must_coalesce (round_up_size h.smallest_span_size n) h ≡ false) where
  abbrev started : PageHeap
  started = record h { grown_by = 0 }
