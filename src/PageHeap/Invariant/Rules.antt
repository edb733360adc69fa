-- ===== src/PageHeap/Invariant/Rules.antt =====
-- One rule for each step that the operations of src/src/page_heap.cc are made of.
use conan_tcmalloc.Base.{
  ℕ, ◌+◌, ◌%◌, ◌≡◌, ◌≢◌, refl, Bool, true, false, some, if◌then◌else◌, arith, word, add64, sub64,
}
use conan_tcmalloc.PageMap.{update}
use conan_tcmalloc.PageMap.Two.{PageMap2, Ready}
use conan_tcmalloc.PageMap.Two.Access.{get-set}
use conan_tcmalloc.PageHeap.State.{in_use, Span, PageHeap, System, ok, bytes, bytes-lt, page_bits}
use conan_tcmalloc.PageHeap.FreeLists.{
  load, with_span, put_in, take_out, count_in, count_out, prepend_to_free_list,
  remove_from_free_list, commit_span, decommit_span,
}
use conan_tcmalloc.PageHeap.Spans.{set_page}
use conan_tcmalloc.PageHeap.Geometry.Stock.{Stock-update, lt-next_span}
use conan_tcmalloc.PageHeap.Geometry.Tiling.{Tiling-relabel, Wrote}
use conan_tcmalloc.PageHeap.Listed.Moves.{Off, Listed-change, Listed-take_out, Listed-put_in}
use conan_tcmalloc.PageHeap.Tally.{Counts-same, Owns-same}
use conan_tcmalloc.PageHeap.Invariant.Counting.{
  Counts-out, Counts-in, normal_pages-change, pages_of-change, le_refl,
}
use conan_tcmalloc.PageHeap.Invariant.{Inv, charge, Returns, returns}

pub load-ok : (h : PageHeap) (p : ℕ) {s : Span} → h.spans p ≡ some s → load p h ≡ ok s h
unfolding load
load-ok h p e = rw (e, load)

-- A write to a page that the map is ready for.
pub set_page_rule :
    (h : PageHeap) (k p : ℕ)
    → Ready page_bits h.pagemap k
    → Returns
        (λ _ h'.
          (m : PageMap2 ℕ) × (h' ≡ record h { directory = record (h.directory) { pagemap = m } })
          × Wrote h.pagemap k p m)
        (set_page k p h)
unfolding set_page
set_page_rule h k p r =
    let (m, is, value, ready) = get-set page_bits h.pagemap k (some p) r in
    rw (is, set_page) (returns (m, refl, record { value = value; ready = ready }))

module _ {held : ℕ → Bool} {owed : ℕ} {h : PageHeap} (v : Inv held owed h) (p : ℕ) (s : Span)
    (e : h.spans p ≡ some s) where
  pub remove_rule :
      held p ≡ false
      → s.location ≢ in_use
      → Returns
          (λ _ h'. (h'.directory ≡ h.directory) × Inv (update held p true) (owed + charge s) h')
          (remove_from_free_list p h)
  unfolding remove_from_free_list take_out count_out sub64
  remove_rule on n = rw (load-ok h p e) (
      returns (
        refl,
        record {
          geometry = v.geometry;
          listed = Listed-take_out v.listed p s e on n;
          balanced = ground (arith, v.balanced, bytes-lt s.length);
          counted = Counts-out v p s e on;
          owned = λ n k. ground (arith, v.owned n k);
          limited = ground (arith, v.limited);
        },
      ))

  pub prepend_rule :
      (owed' : ℕ)
      → held p ≡ true
      → s.location ≢ in_use
      → (owed' + charge s) % word ≡ owed % word
      → Returns
          (λ _ h'. (h'.directory ≡ h.directory) × Inv (update held p false) owed' h')
          (prepend_to_free_list p h)
  unfolding prepend_to_free_list put_in count_in add64
  prepend_rule owed' off n o = rw (load-ok h p e) (
      returns (
        refl,
        record {
          geometry = v.geometry;
          listed = Listed-put_in v.listed p s e off n ((v.geometry.tiling.filled p s e).length_pos);
          balanced = ground (arith, v.balanced, bytes-lt s.length);
          counted =
              Counts-in held h.spans h.stats p s e off (lt-next_span h.directory v.geometry.stock e)
                v.counted;
          owned = λ n k. ground (arith, v.owned n k);
          limited = ground (arith, v.limited);
        },
      ))

  pub commit_rule :
      (owed' : ℕ)
      → (owed' + bytes s.length) % word ≡ owed % word
      → Returns
          (λ _ h'. (h'.directory ≡ h.directory) × (h'.lists ≡ h.lists) × Inv held owed' h')
          (commit_span p h)
  unfolding commit_span add64
  commit_rule owed' o = rw (load-ok h p e) (
      returns (
        refl,
        refl,
        record {
          geometry = v.geometry;
          listed = v.listed;
          balanced = omega (arith, v.balanced);
          counted = v.counted;
          owned = v.owned;
          limited = v.limited;
        },
      ))

  pub decommit_rule :
      (sys : System)
      → Returns
          (λ done h'.
            (h'.directory ≡ h.directory)
            × (h'.aggressive_decommit ≡ h.aggressive_decommit)
            × Inv held (if done then owed + bytes s.length else owed) h'
            × (done ≡ sys.release h.calls (bytes s.start) (bytes s.length)))
          (decommit_span sys p h)
  unfolding decommit_span sub64
  decommit_rule sys = rw (load-ok h p e) (
      returns (
        refl,
        refl,
        record {
          geometry = v.geometry;
          listed = v.listed;
          balanced = ground (arith, v.balanced, bytes-lt s.length);
          counted = λ n k. ground (arith, v.counted n k);
          owned = λ n k. ground (arith, v.owned n k);
          limited = ground (arith, v.limited);
        },
        refl,
      ))

  -- A change of a span that is on no list and keeps its range.
  pub relabel_rule :
      (s' : Span) (b : Bool)
      → Off v.listed p
      → s'.start ≡ s.start
      → s'.length ≡ s.length
      → (s'.location ≢ in_use → b ≡ true)
      → Inv (update held p b) owed (with_span p (some s') h)
  unfolding with_span
  relabel_rule s' b off es el free = record {
    geometry = record {
      stock = Stock-update h.directory p s s' e v.geometry.stock;
      tiling = Tiling-relabel p s s' v.geometry.tiling e es el;
    };
    listed = Listed-change v.listed p (some s') b off (λ u eq n. free (ground arith));
    balanced = v.balanced;
    counted =
        Counts-same le_refl
          (normal_pages-change v.listed p off (some s') b (λ u eq n. free (ground arith)))
          v.counted;
    owned = Owns-same le_refl (pages_of-change v p s e s' el) v.owned;
    limited = v.limited;
  }
