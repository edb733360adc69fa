-- ===== src/PageHeap/Invariant/Freed.antt =====
-- MergeIntoFreeList and ReleaseSpan of src/src/page_heap.cc as wholes.
use conan_tcmalloc.Base.{
  ℕ, ◌+◌, ◌-◌, ◌%◌, ◌≡◌, ◌∙◌, ap, ◌≢◌, ◌⊎◌, refl, Bool, true, false, some, ◌==◌, if◌then◌else◌,
  arith, inl, inr, word,
}
use conan_tcmalloc.PageHeap.State.{
  in_use, on_normal_freelist, on_returned_freelist, Span, PageHeap, System, and_then, pure, bytes,
}
use conan_tcmalloc.PageHeap.FreeLists.{with_span, prepend_to_free_list, remove_from_free_list}
use conan_tcmalloc.PageHeap.Spans.{get_descriptor}
use conan_tcmalloc.PageHeap.Merge.{
  check_pre_merge, merge_prev, merge_next, merge_into_free_list, release_span,
}
use conan_tcmalloc.PageHeap.Listed.Moves.{Off-held}
use conan_tcmalloc.PageHeap.Invariant.{
  Inv, none_held, IsValid, charge, Returns, returns, bind, bind₂, mono,
}
use conan_tcmalloc.PageHeap.Invariant.Rules.{
  load-ok, remove_rule, prepend_rule, decommit_rule, relabel_rule,
}
use conan_tcmalloc.PageHeap.Invariant.Kept.{Within, KeepsFree, same-KeepsFree, changed-KeepsFree}
use conan_tcmalloc.PageHeap.Invariant.Free.{Inv-same}
use conan_tcmalloc.PageHeap.Invariant.Coalesce.{
  only, Floating, KeepsMarks, decommit_first_rule, prev_step, next_step,
}

-- The span is free, on its list, its range has that of `s` in it, and it has the marks of `s`.
abbrev pub Freed : ℕ → Span → PageHeap → Type 0
Freed p s h =
    (s' : Span) × (h.spans p ≡ some s')
    × (s'.location ≢ in_use)
    × Within s s'
    × IsValid h
    × KeepsMarks s s'

module _ (sys : System) (p : ℕ) where
  prepended :
      (s s' : Span) (h : PageHeap)
      → Floating p s' h
      → Within s s'
      → KeepsMarks s s'
      → Returns (λ _ h'. Freed p s h' × KeepsFree h h') (prepend_to_free_list p h)
  prepended s s' h f w stays =
      mono (prepend_rule f.inv p s' f.is 0 (ground arith) f.free (omega arith)) λ x h' (d, v). (
        (s', ap (λ y. y.spans p) d ∙ f.is, f.free, w, Inv-same (λ y. ground arith) refl v, stays),
        same-KeepsFree h h' d,
      )

  -- MergeIntoFreeList of a free span that is on no list, in a heap that keeps the invariant but
  -- for that, keeps the invariant; the span is free and its range has that of before in it, its
  -- size class and sample mark are as before, and if it was given back to the system it still is,
  -- and pages that one free span had are in one free span.
  pub merge_into_free_list_rule :
      (s : Span) {h : PageHeap}
      → Floating p s h
      → Returns (λ _ h'. Freed p s h' × KeepsFree h h') (merge_into_free_list sys p h)
  unfolding merge_into_free_list
  merge_into_free_list_rule s {h} f = rw (load-ok h p f.is) (
      bind (decommit_first_rule p s f sys) λ x h₁ (s₁, start₁, len₁, f₁, stays₁, kept₁).
        let prev = get_descriptor ((s.start + word - 1) % word) h₁ in
        bind₂ (check_pre_merge sys p prev h₁) (merge_prev p)
          (prev_step p s₁ f₁ sys prev (ap (λ k. get_descriptor ((k + word - 1) % word) h₁) start₁))
          λ y h₂ (s₂, f₂, w₂, stop₂, stays₂, kept₂).
            let next = get_descriptor (s.start + s.length) h₂ in
            bind₂ (check_pre_merge sys p next h₂) (merge_next p)
              (next_step p s₂ f₂ sys next (ap (λ k. get_descriptor k h₂) (omega arith)))
              λ z h₃ (s₃, f₃, w₃, stays₃, kept₃).
                mono
                  (prepended s s₃ h₃ f₃ (omega arith, omega arith)
                    (
                      λ e. stays₃.0 (stays₂.0 (stays₁.0 e)),
                      stays₃.1 ∙ (stays₂.1 ∙ stays₁.1),
                      stays₃.2 ∙ (stays₂.2 ∙ stays₁.2),
                    ))
                  λ y' h₄ (freed, kept₄). (freed, λ u k. kept₄ u (kept₃ u (kept₂ u (kept₁ u k)))))

  module _ (s : Span) {h : PageHeap} (v : IsValid h) (e : h.spans p ≡ some s)
      (n : s.location ≡ on_normal_freelist) where
    -- Of a span that was just decommitted and removed from its list.
    returned-Floating :
        (h' : PageHeap)
        → h'.spans p ≡ some s
        → Inv (only p) (0 + bytes s.length + charge s) h'
        → Floating p
            (record s { location = on_returned_freelist })
            (with_span p (some (record s { location = on_returned_freelist })) h')
    unfolding with_span
    returned-Floating h' e' w =
        let at_p : (p == p) ≡ true = ground arith in
        record {
          is = ground arith;
          free = λ x. cc;
          inv =
              Inv-same (λ x. ground arith) (ground arith)
                (relabel_rule w p s e' (record s { location = on_returned_freelist }) true
                  (Off-held w.listed p (ground arith)) refl refl (λ x. refl));
        }

    returned-KeepsFree :
        (h' : PageHeap)
        → h'.directory ≡ h.directory
        → KeepsFree h (with_span p (some (record s { location = on_returned_freelist })) h')
    unfolding with_span
    returned-KeepsFree h' d u k =
        changed-KeepsFree h' (with_span p (some (record s { location = on_returned_freelist })) h')
          p s (record s { location = on_returned_freelist }) (ap (λ x. x.spans p) d ∙ e)
          (ground arith) (λ x. cc) (omega arith, omega arith) (λ x ne. ground arith) u
          (same-KeepsFree h h' d u k)

    -- The span is on a list of spans that were given back, with what is around it, if the call of
    -- TCMalloc_SystemRelease on its bytes said so, and nothing moved if it failed.
    abbrev pub IsReleased : ℕ → PageHeap → Type 0
    IsReleased r h' =
        IsValid h'
        × KeepsFree h h'
        × (((r ≡ s.length)
              × (true ≡ sys.release h.calls (bytes s.start) (bytes s.length))
              × ((s' : Span) × (h'.spans p ≡ some s')
                  × (s'.location ≡ on_returned_freelist)
                  × Within s s'))
            ⊎ ((r ≡ 0)
                × (h'.directory ≡ h.directory)
                × (false ≡ sys.release h.calls (bytes s.start) (bytes s.length))))

    release_done :
        (done : Bool) (h₁ : PageHeap)
        → h₁.directory ≡ h.directory
        → Inv none_held (if done then 0 + bytes s.length else 0) h₁
        → done ≡ sys.release h.calls (bytes s.start) (bytes s.length)
        → Returns IsReleased (
            (if done
                then (λ h'. and_then (remove_from_free_list p h') (λ _ h₂.
                    and_then
                      (merge_into_free_list sys p
                        (with_span p (some (record s { location = on_returned_freelist })) h₂))
                      (λ _. pure (s.length))))
                else pure 0)
              h₁)
    release_done false h₁ d w ans = returns (w, same-KeepsFree h h₁ d, inr (refl, d, ans))
    release_done true h₁ d w ans =
        bind (remove_rule w p s (ap (λ x. x.spans p) d ∙ e) refl (λ x. ground arith))
          λ x h₂ (d₂, w₂).
            bind
              (merge_into_free_list_rule (record s { location = on_returned_freelist })
                (returned-Floating h₂ (ap (λ x. x.spans p) (d₂ ∙ d) ∙ e) w₂))
              λ y h₃ ((s₃, is, free, within, v₃, stays), kept). returns (
                v₃,
                λ u k. kept u (returned-KeepsFree h₂ (d₂ ∙ d) u k),
                inl (refl, ans, (s₃, is, stays.0 refl, within)),
              )

    -- ReleaseSpan of a span on a normal list, in a heap that keeps the invariant, keeps it. If the
    -- call of TCMalloc_SystemRelease on the bytes of the span says so, it returns the length of
    -- the span, which then is on a list of those that were given back, with its range inside; if
    -- the call fails it returns 0, and the spans, the lists of deleted ones and the map are as
    -- before.
    pub release_span_rule : Returns IsReleased (release_span sys p h)
    unfolding release_span
    release_span_rule =
        rw (load-ok h p e)
          (bind (decommit_rule v p s e sys) λ done h₁ (d, a, w, ans). release_done done h₁ d w ans)
