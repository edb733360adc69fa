-- ===== src/PageHeap/Invariant/Free.antt =====
-- check_pre_merge, MergeIntoFreeList and ReleaseSpan of src/src/page_heap.cc keep the invariant.
use conan_tcmalloc.Base.{
  ℕ, ◌+◌, ◌%◌, ◌≡◌, ◌∙◌, ap, ◌≢◌, ◌⊎◌, refl, sym, Bool, true, false, ◌&&◌, Option, none, some,
  if◌then◌else◌, arith, Bool-cases, inl, inr, word,
}
use conan_tcmalloc.PageMap.{update}
use conan_tcmalloc.PageHeap.State.{
  Location, in_use, on_normal_freelist, on_returned_freelist, Span, PageHeap, System, and_then,
  pure, bytes,
}
use conan_tcmalloc.PageHeap.FreeLists.{is_normal, is_returned, remove_from_free_list}
use conan_tcmalloc.PageHeap.Merge.{same_location, check_pre_merge}
use conan_tcmalloc.PageHeap.Tally.{Counts-same}
use conan_tcmalloc.PageHeap.Invariant.Counting.{le_refl}
use conan_tcmalloc.PageHeap.Invariant.{Inv, Returns, returns, bind}
use conan_tcmalloc.PageHeap.Invariant.Rules.{load-ok, remove_rule, decommit_rule}
use conan_tcmalloc.PageHeap.Invariant.Merges.{Listed-same}

pub same_location-eq : (l k : Location) → same_location l k ≡ true → l ≡ k
same_location-eq in_use k h = ground arith
same_location-eq on_normal_freelist k h = ground arith
same_location-eq on_returned_freelist k h = ground arith

pub Inv-same :
    {held held' : ℕ → Bool} {owed owed' : ℕ} {h : PageHeap}
    → ((p : ℕ) → held p ≡ held' p)
    → owed % word ≡ owed' % word
    → Inv held owed h
    → Inv held' owed' h
Inv-same same eq v = record {
  geometry = v.geometry;
  listed = Listed-same same v.listed;
  balanced = omega (arith, v.balanced);
  counted = Counts-same le_refl (λ q. rw (same q)) v.counted;
  owned = v.owned;
  limited = v.limited;
}

-- What the span `u` adds to what is owed when it is merged into `s`.
abbrev pub merge_charge : Span → Span → ℕ
merge_charge s u = if is_returned s.location then bytes u.length else 0

abbrev pub Checked : (ℕ → Bool) → ℕ → PageHeap → ℕ → Span → Span → Option ℕ → PageHeap → Type 0
Checked held owed h q s u r h' =
    (h'.directory ≡ h.directory)
    × (((r ≡ none) × Inv held owed h')
        ⊎ ((r ≡ some q) × Inv (update held q true) (owed + merge_charge s u) h'))

module _ {held : ℕ → Bool} {owed : ℕ} {h : PageHeap} (v : Inv held owed h) (sys : System) (p q : ℕ)
    (s u : Span) (e : h.spans p ≡ some s) (g : h.spans q ≡ some u) (free : s.location ≢ in_use)
    (on : held q ≡ false) where
  after_decommit :
      (done : Bool) (h₁ : PageHeap)
      → is_normal u.location ≡ true
      → is_returned s.location ≡ true
      → h₁.directory ≡ h.directory
      → Inv held (if done then owed + bytes u.length else owed) h₁
      → Returns (Checked held owed h q s u) (
          (if done
              then (λ h'. and_then (remove_from_free_list q h') (λ _. pure (some q)))
              else pure none)
            h₁)
  after_decommit false h₁ n r d w = returns (d, inl (refl, w))
  after_decommit true h₁ n r d w =
      bind (remove_rule w q u (ap (λ x. x.spans q) d ∙ g) on (λ x. ground arith))
        λ x h₂ (d', w'). returns (d' ∙ d, inr (refl, Inv-same (λ y. refl) (ground arith) w'))

  after_same :
      (same : Bool)
      → same_location u.location s.location ≡ same
      → Returns (Checked held owed h q s u) (
          (if same
              then (λ h'. and_then (remove_from_free_list q h') (λ _. pure (some q)))
              else pure none)
            h)
  after_same false eq = returns (refl, inl (refl, v))
  after_same true eq =
      let l : u.location ≡ s.location = same_location-eq u.location s.location eq in
      bind (remove_rule v q u g on (λ x. free (sym l ∙ x)))
        λ x h₂ (d', w'). returns (d', inr (refl, Inv-same (λ y. refl) (ground arith) w'))

  pub check_pre_merge_rule : Returns (Checked held owed h q s u) (check_pre_merge sys p (some q) h)
  unfolding check_pre_merge
  check_pre_merge_rule =
      rw (load-ok h p e, load-ok h q g)
        (elim (Bool-cases
          (h.aggressive_decommit && (is_normal u.location && is_returned s.location))) [
            | inl both ↦ rw both (
                bind (decommit_rule v q u g sys) λ done h₁ (d, a, w, ans).
                  after_decommit done h₁ (ground arith) (ground arith) d w)
            | inr other ↦ rw other (after_same (same_location u.location s.location) refl)
          ])
