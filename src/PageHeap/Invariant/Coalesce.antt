-- ===== src/PageHeap/Invariant/Coalesce.antt =====
-- MergeIntoFreeList of src/src/page_heap.cc, from the parts of it.
use conan_tcmalloc.Base.{
  ℕ, ◌+◌, ◌-◌, ◌%◌, ◌^◌, ◌≤◌, ◌<◌, ◌≡◌, ◌∙◌, ap, ◌≢◌, refl, sym, Bool, true, false, ◌&&◌, Option,
  none, some, ◌==◌, if◌then◌else◌, arith, Bool-cases, inl, inr, word,
}
use conan_tcmalloc.PageMap.{update}
use conan_tcmalloc.PageMap.Two.{lt_of_bound}
use conan_tcmalloc.PageHeap.State.{
  in_use, on_normal_freelist, on_returned_freelist, Span, PageHeap, System, ok, and_then, pure,
  bytes, page_bits,
}
use conan_tcmalloc.PageHeap.FreeLists.{is_normal, with_span}
use conan_tcmalloc.PageHeap.Spans.{get_descriptor}
use conan_tcmalloc.PageHeap.Merge.{check_pre_merge, decommit_first, merge_prev, merge_next}
use conan_tcmalloc.PageHeap.Geometry.Tiling.{descriptor-before, descriptor-after}
use conan_tcmalloc.PageHeap.Listed.Moves.{Off-held}
use conan_tcmalloc.PageHeap.Invariant.{Inv, none_held, charge, Returns, returns, bind, mono}
use conan_tcmalloc.PageHeap.Invariant.Rules.{load-ok, decommit_rule, relabel_rule}
use conan_tcmalloc.PageHeap.Invariant.Merges.{merge_prev_rule, merge_next_rule}
use conan_tcmalloc.PageHeap.Invariant.Kept.{
  Within, KeepsFree, same-KeepsFree, changed-KeepsFree, merged-KeepsFree,
}
use conan_tcmalloc.PageHeap.Invariant.Free.{Inv-same, merge_charge, check_pre_merge_rule}

abbrev pub only : ℕ → ℕ → Bool
only p = update none_held p true

-- A free span that is held by an operation under way, which is the only one.
pub record Floating (p : ℕ) (s : Span) (h : PageHeap) : Type 0 where
  pub is : h.spans p ≡ some s
  pub free : s.location ≢ in_use
  pub inv : Inv (only p) (charge s) h

-- A span that was given back to the system still is, and its class and sample mark are as before.
abbrev pub KeepsMarks : Span → Span → Type 0
KeepsMarks s s' =
    (s.location ≡ on_returned_freelist → s'.location ≡ on_returned_freelist)
    × (s'.sizeclass ≡ s.sizeclass)
    × (s'.sample ≡ s.sample)

module _ (p : ℕ) (s : Span) {h : PageHeap} (f : Floating p s h) (sys : System) where
  decommitted_state :
      (done : Bool) (h₁ : PageHeap)
      → s.location ≡ on_normal_freelist
      → h₁.directory ≡ h.directory
      → Inv (only p) (if done then charge s + bytes s.length else charge s) h₁
      → Returns
          (λ _ h'.
            (s' : Span) × (s'.start ≡ s.start)
            × (s'.length ≡ s.length)
            × Floating p s' h'
            × KeepsMarks s s'
            × KeepsFree h h')
          ((if done
              then (λ h'.
                  ok tt (with_span p (some (record s { location = on_returned_freelist })) h'))
              else pure tt)
            h₁)
  unfolding with_span
  decommitted_state false h₁ l d w = returns (
    s,
    refl,
    refl,
    record { is = ap (λ x. x.spans p) d ∙ f.is; free = f.free; inv = w },
    (λ e. e, refl, refl),
    same-KeepsFree h h₁ d,
  )
  decommitted_state true h₁ l d w =
      let s' : Span = record s { location = on_returned_freelist } in
      let e : h₁.spans p ≡ some s = ap (λ x. x.spans p) d ∙ f.is in
      let at_p : (p == p) ≡ true = ground arith in
      returns (
        s',
        refl,
        refl,
        record {
          is = ground arith;
          free = λ x. cc;
          inv =
              Inv-same (λ x. ground arith) (ground arith)
                (relabel_rule w p s e s' true (Off-held w.listed p (ground arith)) refl refl
                  (λ x. refl));
        },
        (λ e. refl, refl, refl),
        changed-KeepsFree h (with_span p (some s') h₁) p s s' f.is (ground arith) (λ x. cc)
            (omega arith, omega arith) (λ x ne. ground (arith, ap (λ y. y.spans x) d)),
      )

  pub decommit_first_rule :
      Returns
        (λ _ h'.
          (s' : Span) × (s'.start ≡ s.start)
          × (s'.length ≡ s.length)
          × Floating p s' h'
          × KeepsMarks s s'
          × KeepsFree h h')
        (decommit_first sys p h)
  unfolding decommit_first
  decommit_first_rule =
      rw (load-ok h p f.is) (elim (Bool-cases (h.aggressive_decommit && is_normal s.location)) [
        | inl both ↦ rw both (
            bind (decommit_rule f.inv p s f.is sys)
              λ done h₁ (d, a, w, ans). decommitted_state done h₁ (ground arith) d w)
        | inr other ↦ rw other (returns (s, refl, refl, f, (λ e. e, refl, refl), λ u x. x))
      ])

  abbrev Grown : (start stop : ℕ) → Unit {0} → PageHeap → Type 0
  Grown start stop x h' =
      (s' : Span) × Floating p s' h'
      × Within s s'
      × (s'.start ≤ start)
      × (s'.start + s'.length ≡ stop)

  start_lt : s.start < 2 ^ page_bits
  start_lt =
      let f' = f.inv.geometry.tiling.filled p s f.is in
      lt_of_bound page_bits s.start
        ((f'.ready s.start (omega arith) (omega (arith, f'.length_pos))).bound)

  abbrev pub Joined : (stop : ℕ) → Unit {0} → PageHeap → Type 0
  Joined stop x h' =
      (s' : Span) × Floating p s' h'
      × Within s s'
      × (s'.start + s'.length ≡ stop)
      × KeepsMarks s s'
      × KeepsFree h h'

  -- The span after a merge has the charges of both.
  Floating-Merged :
      (q : ℕ) (u j : Span) (h' : PageHeap)
      → p ≢ q
      → h'.spans p ≡ some j
      → j.location ≡ s.location
      → j.length ≡ s.length + u.length
      → Inv (update (update (only p) q true) q false) (charge s + merge_charge s u) h'
      → Floating p j h'
  unfolding bytes
  Floating-Merged q u j h' ne is l len w = record {
    is = is;
    free = λ x. f.free (sym l ∙ x);
    inv = Inv-same (λ x. ground arith) (ground arith) w;
  }

  pub prev_step :
      (r : Option ℕ)
      → get_descriptor ((s.start + word - 1) % word) h ≡ r
      → Returns
          (Joined (s.start + s.length))
          (and_then (check_pre_merge sys p r h) (λ o. merge_prev p o))
  unfolding check_pre_merge merge_prev get_descriptor
  prev_step none at =
      returns (s, f, (omega arith, omega arith), refl, (λ e. e, refl, refl), λ u x. x)
  prev_step (some q) at =
      let before : (s.start + word - 1) % word ≡ s.start - 1 =
        omega (arith, start_lt, (f.inv.geometry.tiling.filled p s f.is).start_pos) in
      let (u, g, meets, ne) =
        descriptor-before f.inv.geometry.tiling p q s f.is (rw before at at) in
      bind (check_pre_merge_rule f.inv sys p q s u f.is g f.free (ground arith)) λ r h₁ (d, out).
        elim out [
          | inl (eq, w) ↦ rw eq (
              returns (
                s,
                record { is = ap (λ x. x.spans p) d ∙ f.is; free = f.free; inv = w },
                (omega arith, omega arith),
                refl,
                (λ e. e, refl, refl),
                same-KeepsFree h h₁ d,
              ))
          | inr (eq, w) ↦ rw eq (
              mono
                (merge_prev_rule w p q s u (ap (λ x. x.spans p) d ∙ f.is)
                  (ap (λ x. x.spans q) d ∙ g) ne (ground arith) (ground arith) meets)
                λ x h₂ (j, is, marks, l, start, len, a, others, w'). (
                  j,
                  Floating-Merged q u j h₂ ne is l len w',
                  (omega arith, omega arith),
                  omega arith,
                  (λ e. l ∙ e, marks.0, marks.1),
                  λ w₀ x₀.
                      merged-KeepsFree h₁ h₂ p q s u j (ap (λ x. x.spans p) d ∙ f.is)
                        (ap (λ x. x.spans q) d ∙ g) is (λ x. f.free (sym l ∙ x))
                        (omega arith, omega arith) (omega arith, omega arith) others w₀
                        (same-KeepsFree h h₁ d w₀ x₀),
                ))
        ]

  pub next_step :
      (r : Option ℕ)
      → get_descriptor (s.start + s.length) h ≡ r
      → Returns
          (λ _ h'. (s' : Span) × Floating p s' h' × Within s s' × KeepsMarks s s' × KeepsFree h h')
          (and_then (check_pre_merge sys p r h) (λ o. merge_next p o))
  unfolding check_pre_merge merge_next get_descriptor
  next_step none at = returns (s, f, (omega arith, omega arith), (λ e. e, refl, refl), λ u x. x)
  next_step (some q) at =
      let (u, g, meets, ne) = descriptor-after f.inv.geometry.tiling p q s f.is at in
      bind (check_pre_merge_rule f.inv sys p q s u f.is g f.free (ground arith)) λ r h₁ (d, out).
        elim out [
          | inl (eq, w) ↦ rw eq (
              returns (
                s,
                record { is = ap (λ x. x.spans p) d ∙ f.is; free = f.free; inv = w },
                (omega arith, omega arith),
                (λ e. e, refl, refl),
                same-KeepsFree h h₁ d,
              ))
          | inr (eq, w) ↦ rw eq (
              mono
                (merge_next_rule w p q s u (ap (λ x. x.spans p) d ∙ f.is)
                  (ap (λ x. x.spans q) d ∙ g) ne (ground arith) (ground arith) meets)
                λ x h₂ (j, is, marks, l, start, len, a, others, w'). (
                  j,
                  Floating-Merged q u j h₂ ne is l len w',
                  (omega arith, omega arith),
                  (λ e. l ∙ e, marks.0, marks.1),
                  λ w₀ x₀.
                      merged-KeepsFree h₁ h₂ p q s u j (ap (λ x. x.spans p) d ∙ f.is)
                        (ap (λ x. x.spans q) d ∙ g) is (λ x. f.free (sym l ∙ x))
                        (omega arith, omega arith) (omega arith, omega arith) others w₀
                        (same-KeepsFree h h₁ d w₀ x₀),
                ))
        ]
