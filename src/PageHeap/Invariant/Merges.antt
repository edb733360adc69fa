-- ===== src/PageHeap/Invariant/Merges.antt =====
-- merge_prev, merge_next and check_pre_merge: the parts of MergeIntoFreeList of src/src/page_heap.cc.
use mathlib.Core.Path.{fun_ext}
use conan_tcmalloc.Base.{
  ℕ, ◌+◌, ◌-◌, ◌≡◌, ◌≢◌, refl, subst, ap, ◌∙◌, if◌then◌else◌, Bool, true, false, Option, none, some,
  ◌∷◌, arith,
}
use conan_tcmalloc.PageMap.{update}
use conan_tcmalloc.PageMap.Two.{PageMap2}
use conan_tcmalloc.PageHeap.State.{Span, FreeLists, Directory, PageHeap, ok}
use conan_tcmalloc.PageHeap.FreeLists.{with_span}
use conan_tcmalloc.PageHeap.Spans.{delete_span}
use conan_tcmalloc.PageHeap.Merge.{merge_prev, merge_next}
use conan_tcmalloc.PageHeap.Geometry.Stock.{Stock, Stock-update, Stock-delete}
use conan_tcmalloc.PageHeap.Geometry.Tiling.{Wrote}
use conan_tcmalloc.PageHeap.Geometry.Join.{Join, Join-length, before, behind, Tiling-join}
use conan_tcmalloc.PageHeap.Listed.{Listed}
use conan_tcmalloc.PageHeap.Listed.Moves.{Off-held, Listed-change}
use conan_tcmalloc.PageHeap.Tally.{Counts-same, pages_if_normal}
use conan_tcmalloc.PageHeap.Invariant.Counting.{normal_pages-change, Owns-join, le_refl}
use conan_tcmalloc.PageHeap.Invariant.{Inv, Returns, mono}
use conan_tcmalloc.PageHeap.Invariant.Rules.{load-ok, set_page_rule}

abbrev deleted : PageHeap → ℕ → PageHeap
deleted h q = record h {
  directory = record (h.directory) { spans = update h.spans q none; deleted = q ∷ h.deleted };
}

delete_span-ok :
    (h : PageHeap) (q : ℕ) {u : Span} → h.spans q ≡ some u → delete_span q h ≡ ok tt (deleted h q)
unfolding delete_span
delete_span-ok h q g = rw (load-ok h q g)

pub Stock-pagemap : (d : Directory) (m : PageMap2 ℕ) → Stock d → Stock (record d { pagemap = m })
Stock-pagemap d m k = record {
  null = k.null;
  born = k.born;
  unborn = k.unborn;
  distinct = k.distinct;
  dead = k.dead;
  dead_born = k.dead_born;
}

pub Listed-same :
    {held held' : ℕ → Bool} {spans : ℕ → Option Span} {l : FreeLists}
    → ((p : ℕ) → held p ≡ held' p)
    → Listed held spans l
    → Listed held' spans l
Listed-same {spans} {l} same v = subst (λ f. Listed f spans l) (fun_ext same) v

module _ {held : ℕ → Bool} {owed : ℕ} {h : PageHeap} (v : Inv held owed h) (p q : ℕ) (s u : Span)
    (e : h.spans p ≡ some s) (g : h.spans q ≡ some u) (ne : p ≢ q) (hp : held p ≡ true)
    (hq : held q ≡ true) where
  abbrev joined : Span → PageMap2 ℕ → PageHeap
  joined j m = record h {
    directory = record {
      spans = update (update h.spans q none) p (some j);
      next_span = h.next_span;
      deleted = q ∷ h.deleted;
      pagemap = m;
    };
  }

  joined-Inv :
      (j : Span) (k : ℕ) (m : PageMap2 ℕ)
      → Join s u j k
      → Wrote h.pagemap k p m
      → Inv (update held q false) owed (joined j m)
  joined-Inv j k m c w =
      let d : Directory = record (h.directory) {
        spans = update h.spans q none;
        deleted = q ∷ h.deleted;
      } in
      let stock = Stock-delete h.directory q u g v.geometry.stock in
      let listed = Listed-change v.listed q none false (Off-held v.listed q hq) (λ x eq. cc) in
      let off = Off-held listed p (ground arith) in
      record {
        geometry = record {
          stock = Stock-pagemap _ m (Stock-update d p s j (ground arith) stock);
          tiling = Tiling-join p q k s u j v.geometry.tiling e g ne c w;
        };
        listed =
            Listed-same (λ x. ground arith)
              (Listed-change listed p (some j) true off (λ x eq n. refl));
        balanced = v.balanced;
        counted =
            Counts-same le_refl
              (λ x.
                ap (λ b. if b then 0 else pages_if_normal (joined j m).spans x) (ground arith)
                ∙ (normal_pages-change listed p off (some j) true (λ y eq n. refl) x
                    ∙ normal_pages-change v.listed q (Off-held v.listed q hq) none false
                        (λ y eq. cc) x))
              v.counted;
        owned = Owns-join v p q s u j e g ne (Join-length c);
        limited = v.limited;
      }

  -- What a merge leaves: one span in place of the two.
  abbrev pub Merged : (start : ℕ) → Unit {0} → PageHeap → Type 0
  Merged start x h' =
      (j : Span) × (h'.spans p ≡ some j)
      × ((j.sizeclass ≡ s.sizeclass) × (j.sample ≡ s.sample))
      × (j.location ≡ s.location)
      × (j.start ≡ start)
      × (j.length ≡ s.length + u.length)
      × (h'.aggressive_decommit ≡ h.aggressive_decommit)
      × ((x : ℕ) → x ≢ p → x ≢ q → h'.spans x ≡ h.spans x)
      × Inv (update held q false) owed h'

  pub merge_prev_rule :
      u.start + u.length ≡ s.start → Returns (Merged u.start) (merge_prev p (some q) h)
  unfolding merge_prev with_span
  merge_prev_rule meets =
      let k : s.start - u.length ≡ u.start = omega (arith) in
      let f = v.geometry.tiling.filled q u g in
      let at_p : update h.spans q none p ≡ some s = ground arith in
      let j : Span = record s { start = s.start - u.length; length = s.length + u.length } in
      rw (load-ok h q g, delete_span-ok h q g, load-ok (deleted h q) p at_p)
        (mono
          (set_page_rule _ (s.start - u.length) p
            (f.ready _ (omega arith) (omega (arith, f.length_pos))))
          λ x h' (m, is, w). rw is (
            j,
            ground arith,
            (refl, refl),
            refl,
            k,
            refl,
            refl,
            λ y np nq. ground arith,
            joined-Inv j (s.start - u.length) m (before meets k refl k) w,
          ))

  pub merge_next_rule :
      s.start + s.length ≡ u.start → Returns (Merged s.start) (merge_next p (some q) h)
  unfolding merge_next with_span
  merge_next_rule meets =
      let f = v.geometry.tiling.filled q u g in
      let at_p : update h.spans q none p ≡ some s = ground arith in
      let j : Span = record s { length = s.length + u.length } in
      rw (load-ok h q g, delete_span-ok h q g, load-ok (deleted h q) p at_p)
        (mono
          (set_page_rule _ _ p
            (f.ready _ (omega (arith, f.length_pos)) (omega (arith, f.length_pos))))
          λ x h' (m, is, w). rw is (
            j,
            ground arith,
            (refl, refl),
            refl,
            refl,
            refl,
            refl,
            λ y np nq. ground arith,
            joined-Inv j _ m (behind meets refl refl (omega arith)) w,
          ))
