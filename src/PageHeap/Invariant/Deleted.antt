-- ===== src/PageHeap/Invariant/Deleted.antt =====
-- EnsureLimit, IncrementalScavenge and DeleteLocked of src/src/page_heap.cc.
use conan_tcmalloc.Base.{
  ℕ, ◌*◌, ◌/◌, ◌^◌, ◌≤◌, ◌<◌, ◌≡◌, refl, Bool, true, false, ◌&&◌, not, some, ltb, ◌==◌, arith, word,
  add64, sub64, sub64-lt, ◌⊎◌, ◌∙◌, ap, inl, inr,
}
use conan_tcmalloc.PageHeap.State.{in_use, on_normal_freelist, Span, PageHeap, System, page_shift}
use conan_tcmalloc.PageHeap.FreeLists.{with_span}
use conan_tcmalloc.PageHeap.Release.{
  default_release_delay, ensure_limit, incremental_scavenge, delete_locked,
}
use conan_tcmalloc.PageHeap.Listed.Moves.{Off-in_use}
use conan_tcmalloc.PageHeap.Invariant.{IsValid, run_if, Returns, returns, bind, mono}
use conan_tcmalloc.PageHeap.Invariant.Kept.{FreeIn, KeepsFree}
use conan_tcmalloc.PageHeap.Invariant.Rules.{load-ok, relabel_rule}
use conan_tcmalloc.PageHeap.Invariant.Freed.{Freed, merge_into_free_list_rule}
use conan_tcmalloc.PageHeap.Invariant.Coalesce.{Floating}
use conan_tcmalloc.PageHeap.Invariant.Released.{release_at_least_rule}

-- The counters of scavenging are no part of the invariant.
with_scavenged-IsValid :
    {h : PageHeap} (c k : ℕ)
    → IsValid h
    → IsValid (record h { scavenge_counter = c; stats = record (h.stats) { scavenge_count = k } })
with_scavenged-IsValid c k v = record {
  geometry = v.geometry;
  listed = v.listed;
  balanced = v.balanced;
  counted = v.counted;
  owned = v.owned;
  limited = v.limited;
}

with_counter-IsValid :
    {h : PageHeap} (c : ℕ) → IsValid h → IsValid (record h { scavenge_counter = c })
with_counter-IsValid c v = record {
  geometry = v.geometry;
  listed = v.listed;
  balanced = v.balanced;
  counted = v.counted;
  owned = v.owned;
  limited = v.limited;
}

module _ (sys : System) (fuel n : ℕ) {h : PageHeap} (v : IsValid h) where
  -- EnsureLimit
  pub ensure_limit_rule :
      (with_release : Bool)
      → word ≤ fuel
      → Returns (λ room h'. IsValid h') (ensure_limit sys fuel n with_release h)
  unfolding ensure_limit
  ensure_limit_rule with_release enough =
      run_if (((sys.heap_limit_mb * 1024 * 1024) / 2 ^ page_shift) == 0) _ _ h (λ e. returns v)
        λ e.
          let limit = (sys.heap_limit_mb * 1024 * 1024) / 2 ^ page_shift in
          let taken =
            sub64 (sys.taken h.calls / 2 ^ page_shift) (h.stats.unmapped_bytes / 2 ^ page_shift) in
          bind
            (run_if {P = λ r h'. IsValid h'} (ltb limit (add64 taken n) && with_release) _ _ h
              (λ b.
                mono
                  (release_at_least_rule sys (sub64 (add64 taken n) limit) fuel v
                    (omega (arith, enough, sub64-lt (add64 taken n) limit)))
                  λ r h' (w, ends, kept). w)
              (λ b. returns v))
            λ released h' w. returns w

  -- IncrementalScavenge
  pub incremental_scavenge_rule :
      1 < fuel
      → Returns
          (λ _ h'.
            IsValid h' × KeepsFree h h' × ((sys.releasing ≡ true) ⊎ (h'.directory ≡ h.directory)))
          (incremental_scavenge sys fuel n h)
  unfolding incremental_scavenge
  incremental_scavenge_rule enough =
      let counter = sub64 h.scavenge_counter n in
      let counted = record h { scavenge_counter = counter } in
      run_if (ltb counter (2 ^ 63)) _ _ counted
        (λ e. returns (with_counter-IsValid counter v, λ u k. k, inr refl))
        λ e.
          run_if (not sys.releasing) _ _ counted
            (λ e. returns (with_counter-IsValid default_release_delay v, λ u k. k, inr refl))
            λ e.
              let w = with_scavenged-IsValid counter (add64 h.stats.scavenge_count 1) v in
              bind (release_at_least_rule sys 1 fuel w enough) λ released h' (w', ends, kept).
                returns (with_counter-IsValid _ w', kept, inl (ground arith))

-- The span that is deleted, before it is merged.
abbrev pub deleted_span : Span → Span
deleted_span s = record s { sizeclass = 0; sample = false; location = on_normal_freelist }

deleted-Floating :
    (p : ℕ) (s : Span) {h : PageHeap}
    → IsValid h
    → h.spans p ≡ some s
    → s.location ≡ in_use
    → Floating p (deleted_span s) (with_span p (some (deleted_span s)) h)
unfolding with_span
deleted-Floating p s v e used = record {
  is = ground arith;
  free = λ x. cc;
  inv =
      relabel_rule v p s e (deleted_span s) true (Off-in_use v.listed p s e used) refl refl
        (λ x. refl);
}

-- In a heap that keeps the invariant DeleteLocked of a span in use, with at least two rounds for
-- the loop that releases, returns without a fault and keeps the invariant. All pages of the span
-- are then in one free span. Unless scavenging is on, that is the span itself, and its size class
-- is 0 and its sample mark is gone.
pub delete_locked_rule :
    (sys : System) (fuel p : ℕ) (s : Span) {h : PageHeap}
    → IsValid h
    → h.spans p ≡ some s
    → s.location ≡ in_use
    → 1 < fuel
    → Returns
        (λ _ h'. IsValid h' × FreeIn h' s × ((sys.releasing ≡ true) ⊎ Freed p (deleted_span s) h'))
        (delete_locked sys fuel p h)
unfolding delete_locked
delete_locked_rule sys fuel p s {h} v e used enough = rw (load-ok h p e) (
    bind (merge_into_free_list_rule sys p (deleted_span s) (deleted-Floating p s v e used))
      λ x h' ((s', is, free, within, w, stays), grows).
        mono (incremental_scavenge_rule sys fuel s.length w enough) λ y h'' (w', kept, out). (
          w',
          kept s (p, s', is, free, within),
          elim out [
            | inl scavenges ↦ inl scavenges
            | inr same ↦ inr (s', ap (λ d. d.spans p) same ∙ is, free, within, w', stays)
          ],
        ))
