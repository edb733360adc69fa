-- ===== src/PageHeap/Invariant/Carved.antt =====
-- Carve of src/src/page_heap.cc as a whole.
use conan_tcmalloc.Base.{
  ℕ, ◌+◌, ◌-◌, ◌%◌, ◌^◌, ◌≤◌, ◌<◌, ◌≡◌, ◌∙◌, ap, ◌≢◌, refl, false, some, ltb, if◌then◌else◌, arith,
  Bool-cases, inl, inr, word, int_pos, int_pos-small, ltb→lt, not_ltb→le,
}
use conan_tcmalloc.PageHeap.State.{in_use, Span, PageHeap, pure, bytes}
use conan_tcmalloc.PageHeap.FreeLists.{is_returned, with_span, commit_span}
use conan_tcmalloc.PageHeap.Spans.{carve_rest, carve}
use conan_tcmalloc.PageHeap.Listed.Moves.{Off-held}
use conan_tcmalloc.PageHeap.Invariant.Counting.{length-lt}
use conan_tcmalloc.PageHeap.Invariant.{
  Inv, none_held, IsValid, charge, Returns, returns, bind, mono,
}
use conan_tcmalloc.PageHeap.Invariant.Rules.{load-ok, remove_rule, commit_rule, relabel_rule}
use conan_tcmalloc.PageHeap.Invariant.Free.{Inv-same}
use conan_tcmalloc.PageHeap.Invariant.Coalesce.{only}
use conan_tcmalloc.PageHeap.Invariant.Cuts.{carve_rest_rule}

module _ {h : PageHeap} (v : IsValid h) (p n : ℕ) (s : Span) (e : h.spans p ≡ some s)
    (free : s.location ≢ in_use) (pos : 0 < n) (fits : n ≤ s.length) where
  small : s.length - n < 2 ^ 31
  small = omega (arith, length-lt v p s e)

  abbrev taken : Span
  taken = record s { location = in_use }

  abbrev carved : Span
  carved = record s { location = in_use; length = n }

  -- What is owed once the rest is back on its list: the bytes to commit.
  abbrev to_commit : ℕ
  to_commit = if is_returned s.location then bytes n else 0

  taken-Inv :
      (h₁ : PageHeap)
      → h₁.spans p ≡ some s
      → Inv (only p) (0 + charge s) h₁
      → Inv none_held (charge s) (with_span p (some taken) h₁)
  taken-Inv h₁ e₁ w =
      Inv-same (λ x. ground arith) (ground arith)
        (relabel_rule w p s e₁ taken false (Off-held w.listed p (ground arith)) refl refl
          (λ x. absurd (x refl)))

  charge_parts :
      (to_commit + (if is_returned s.location then bytes (s.length - n) else 0)) % word
      ≡ charge s % word
  unfolding bytes
  charge_parts = ground arith

  rest_done :
      (g : PageHeap)
      → g.spans p ≡ some taken
      → Inv none_held (charge s) g
      → Returns
          (λ _ h'. (h'.spans p ≡ some carved) × Inv none_held to_commit h')
          ((if int_pos (s.length - n) then carve_rest p n s.location else pure tt) g)
  rest_done g at w = elim (Bool-cases (ltb 0 (s.length - n))) [
    | inl more ↦
        rw (int_pos-small (s.length - n) small, more)
          (carve_rest_rule w p n taken at refl pos (omega (arith, ltb→lt 0 (s.length - n) more))
            s.location free to_commit charge_parts refl)
    | inr exact ↦
        let len : s.length ≡ n = omega (arith, not_ltb→le 0 (s.length - n) exact) in
        rw (int_pos-small (s.length - n) small, exact)
          (returns (
            at ∙ ap (λ k. some (record s { location = in_use; length = k })) len,
            Inv-same (λ x. refl) (ground arith) w,
          ))
  ]

  commit_done :
      (g : PageHeap)
      → g.spans p ≡ some carved
      → Inv none_held to_commit g
      → Returns
          (λ _ h'. (h'.spans p ≡ some carved) × IsValid h')
          ((if is_returned s.location then commit_span p else pure tt) g)
  commit_done g at w = elim (Bool-cases (is_returned s.location)) [
    | inl yes_returned ↦ rw yes_returned (
        mono (commit_rule w p carved at 0 (ground arith))
          λ x h' (d, l, w'). (ap (λ x. x.spans p) d ∙ at, w'))
    | inr not_returned ↦ rw not_returned (returns (at, Inv-same (λ x. refl) (ground arith) w))
  ]

  -- In a heap that keeps the invariant, Carve of a free span gives that span, in use, with exactly
  -- the pages asked for from its start, and the heap keeps the invariant. The pages asked for are
  -- at least one and no more than the span has.
  pub carve_rule : Returns (λ q h'. (q ≡ p) × (h'.spans p ≡ some carved) × IsValid h') (carve p n h)
  unfolding carve with_span
  carve_rule = rw (load-ok h p e) (
      bind (remove_rule v p s e refl free) λ x h₁ (d, w).
        let e₁ : h₁.spans p ≡ some s = ap (λ x. x.spans p) d ∙ e in
        bind (rest_done (with_span p (some taken) h₁) (ground arith) (taken-Inv h₁ e₁ w))
          λ y h₂ (at₂, w₂). bind (commit_done h₂ at₂ w₂) λ z h₃ (at₃, w₃). returns (refl, at₃, w₃))
