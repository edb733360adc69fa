-- ===== src/PageHeap/Invariant/Cuts.antt =====
-- Split and Carve of src/src/page_heap.cc keep the invariant.
use conan_tcmalloc.Base.{
  ℕ, ◌+◌, ◌-◌, ◌%◌, ◌^◌, ◌≤◌, ◌<◌, ◌≡◌, ap, ◌≢◌, ◌∙◌, refl, subst, sym, Bool, true, false, some,
  ltb, if◌then◌else◌, arith, Bool-cases, inl, inr, word, int_of-small, ltb→lt, add64,
}
use conan_tcmalloc.PageMap.{update, update-update}
use conan_tcmalloc.PageMap.Two.{PageMap2, Ready}
use conan_tcmalloc.PageHeap.State.{
  Location, in_use, Span, PageHeap, Directory, ok, and_then, bytes, bytes-lt, page_bits,
}
use conan_tcmalloc.PageHeap.FreeLists.{
  is_returned, with_span, put_in, count_in, prepend_to_free_list,
}
use conan_tcmalloc.PageHeap.Spans.{
  span, fresh, allocated, new_span, record_span, set_page, split, carve_rest,
}
use conan_tcmalloc.PageHeap.Geometry.Stock.{
  Stock, fresh-none, fresh-lt, next_span-le, Stock-allocated, Stock-update,
}
use conan_tcmalloc.PageHeap.Geometry.Tiling.{Tiling, Wrote, Recorded}
use conan_tcmalloc.PageHeap.Geometry.Split.{Tiling-split}
use conan_tcmalloc.PageHeap.Listed.{Listed}
use conan_tcmalloc.PageHeap.Listed.Moves.{Off-none, Off-in_use, Listed-change, Listed-put_in}
use conan_tcmalloc.PageHeap.Tally.{
  pages_if_normal, normal_pages, pages_of, Counts, Owns, Counts-same,
}
use conan_tcmalloc.PageHeap.Invariant.Counting.{
  Counts-in, normal_pages-change, length-lt, Owns-cut, le_refl,
}
use conan_tcmalloc.PageHeap.Invariant.{Inv, Returns, returns, bind, mono}
use conan_tcmalloc.PageHeap.Invariant.Rules.{load-ok, set_page_rule}
use conan_tcmalloc.PageHeap.Invariant.Merges.{Stock-pagemap, Listed-same}

abbrev pub with_map : PageHeap → PageMap2 ℕ → PageHeap
with_map h m = record h { directory = record (h.directory) { pagemap = m } }

-- RecordSpan writes the two ends, which may be one page.
pub record_span_rule :
    (h : PageHeap) (l : ℕ) (t : Span)
    → h.spans l ≡ some t
    → 0 < t.length
    → ((k : ℕ) → t.start ≤ k → k < t.start + t.length → Ready page_bits h.pagemap k)
    → Returns
        (λ _ h'. (m : PageMap2 ℕ) × (h' ≡ with_map h m) × Recorded h.pagemap l t m)
        (record_span l h)
unfolding record_span
record_span_rule h l t e pos ready = rw (load-ok h l e) (
    bind (set_page_rule h t.start l (ready t.start (omega arith) (omega arith)))
      λ x h₁ (m₁, is₁, w₁). elim (Bool-cases (ltb 1 t.length)) [
        | inr one ↦ rw one (
            returns (m₁, is₁, record { value = λ j. ground (arith, w₁.value j); ready = w₁.ready }))
        | inl more ↦
            rw (more, is₁)
              (mono
                (set_page_rule (with_map h m₁) (t.start + t.length - 1) l
                  (w₁.ready _ (ready _ (omega (arith, ltb→lt 1 t.length more)) (omega arith))))
                λ y h₂ (m₂, is₂, w₂). (
                  m₂,
                  is₂,
                  record {
                    value = λ j. ground (arith, w₁.value j, w₂.value j);
                    ready = λ j r. w₂.ready j (w₁.ready j r);
                  },
                ))
      ])

abbrev pub with_new : PageHeap → Span → PageHeap
with_new h t = record h {
  directory = record (allocated h.directory) {
    spans = update h.spans (fresh h.directory) (some t);
  };
}

module _ {held : ℕ → Bool} {owed : ℕ} {h : PageHeap} (v : Inv held owed h) (p n : ℕ) (s : Span)
    (e : h.spans p ≡ some s) (used : s.location ≡ in_use) (pos : 0 < n)
    (shorter : n < s.length) where
  small : s.length - n < 2 ^ 31
  small = omega (arith, length-lt v p s e)

  abbrev l : ℕ
  l = fresh h.directory

  abbrev first_part : Span
  first_part = record s { length = n }

  abbrev rest_part : Span
  rest_part = span (s.start + n) (s.length - n)

  -- The directory after the cut.
  cut_directory : Span → PageMap2 ℕ → Directory
  cut_directory t m = record (allocated h.directory) {
    spans = update (update h.spans l (some t)) p (some first_part);
    pagemap = m;
  }

  p-l : p ≢ l
  p-l x = ground (arith, fresh-none h.directory v.geometry.stock)

  Ready-rest :
      (t : Span)
      → t.start ≡ s.start + n
      → t.length ≡ s.length - n
      → (k : ℕ) → t.start ≤ k
      → k < t.start + t.length
      → Ready page_bits h.pagemap k
  Ready-rest t a b k x y = (v.geometry.tiling.filled p s e).ready k (omega arith) (omega arith)

  -- After the writes of both parts the spans lie as they should.
  cut-Tiling :
      (t : Span) (m₁ m₂ : PageMap2 ℕ)
      → t.start ≡ s.start + n
      → t.length ≡ s.length - n
      → Recorded h.pagemap l t m₁
      → Wrote m₁ (s.start + n - 1) p m₂
      → Tiling (update (update h.spans l (some t)) p (some first_part)) m₂
  cut-Tiling t m₁ m₂ a b r w =
      Tiling-split p l s first_part t v.geometry.tiling e (fresh-none h.directory v.geometry.stock)
        (record {
          starts = refl;
          shorter = pos;
          rest = omega arith;
          meets = a;
          whole = omega arith;
        })
        r w

  cut-Stock : (t : Span) (m : PageMap2 ℕ) → Stock (cut_directory t m)
  unfolding cut_directory
  cut-Stock t m = Stock-pagemap _ m (
      Stock-update (record (allocated h.directory) { spans = update h.spans l (some t) }) p s
        first_part (ground (arith, p-l)) (Stock-allocated h.directory t v.geometry.stock))

  -- Neither part of a span that is in use is on a list.
  cut-Listed : Listed held (update (update h.spans l (some rest_part)) p (some first_part)) h.lists
  cut-Listed =
      let free = fresh-none h.directory v.geometry.stock in
      let listed =
        Listed-change v.listed l (some rest_part) (held l) (Off-none v.listed l free)
          (λ u eq x. absurd (ground arith)) in
      Listed-same (λ q. ground arith)
        (Listed-change listed p (some first_part) (held p)
          (Off-in_use listed p s (ground (arith, p-l)) used) (λ u eq x. absurd (ground arith)))

  cut_pages :
      (t : Span)
      → t.length ≡ s.length - n
      → Owns
          (pages_of (update (update h.spans l (some t)) p (some first_part)))
          (allocated h.directory).next_span
          h.stats.system_bytes
  cut_pages t len =
      Owns-cut v p l _ s t first_part e (fresh-none h.directory v.geometry.stock)
        (fresh-lt h.directory v.geometry.stock) (next_span-le h.directory) (omega arith)

  cut_counts :
      Counts
        (normal_pages held (update (update h.spans l (some rest_part)) p (some first_part)))
        (allocated h.directory).next_span
        h.stats.free_bytes
  cut_counts =
      let off_l = Off-none v.listed l (fresh-none h.directory v.geometry.stock) in
      let listed =
        Listed-change v.listed l (some rest_part) (held l) off_l
          (λ u eq x. absurd (ground arith)) in
      let off_p = Off-in_use listed p s (ground (arith, p-l)) used in
      Counts-same (next_span-le h.directory)
        (λ x.
          ap
            (λ b.
              if b
              then 0
              else pages_if_normal (update (update h.spans l (some rest_part)) p (some first_part))
                  x)
            (ground arith)
          ∙ (normal_pages-change listed p off_p (some first_part) (held p)
                (λ u eq z. absurd (ground arith)) x
              ∙ normal_pages-change v.listed l off_l (some rest_part) (held l)
                  (λ u eq z. absurd (ground arith)) x))
        v.counted

  -- In a heap that keeps the invariant, Split of a span in use into two that are not empty gives
  -- the Span of the rest; both are in use, the heap keeps the invariant and no other span changed.
  pub split_rule :
      Returns
        (λ q h'.
          (h'.spans p ≡ some first_part)
          × (h'.spans q ≡ some rest_part)
          × ((r : ℕ) → r ≢ p → r ≢ q → h'.spans r ≡ h.spans r)
          × Inv held owed h')
        (split p n h)
  unfolding split new_span with_span cut_directory
  split_rule =
      let at_l : update h.spans l (some rest_part) l ≡ some rest_part = ground arith in
      rw (load-ok h p e, int_of-small (s.length - n) small)
        (bind
          (record_span_rule (with_new h rest_part) l rest_part at_l (omega arith)
            (Ready-rest rest_part refl refl))
          λ x h₁ (m₁, is₁, r). rw is₁ (
            bind
              (set_page_rule (with_map (with_new h rest_part) m₁) (s.start + n - 1) p
                (r.ready _ ((v.geometry.tiling.filled p s e).ready _ (omega arith) (omega arith))))
              λ y h₂ (m₂, is₂, w). rw is₂ (
                returns (
                  ground arith,
                  ground (arith, p-l),
                  λ q a b. ground arith,
                  record {
                    geometry = record {
                      stock = cut-Stock rest_part m₂;
                      tiling = cut-Tiling rest_part m₁ m₂ refl refl r w;
                    };
                    listed = cut-Listed;
                    balanced = v.balanced;
                    counted = cut_counts;
                    owned = cut_pages rest_part refl;
                    limited = v.limited;
                  },
                ))))

  -- The rest of a span that was carved goes back on a list of its old kind.
  module _ (old_location : Location) (free : old_location ≢ in_use) (owed' : ℕ)
      (o : (owed' + (if is_returned old_location then bytes (s.length - n) else 0)) % word
        ≡ owed % word) where
    abbrev back : Span
    back = record rest_part { location = old_location }

    abbrev listed_heap : PageHeap → PageHeap
    listed_heap g = record g {
      lists = put_in g.spans l back g.lists;
      stats = count_in old_location (s.length - n) g.stats;
    }

    prepend-ok :
        (g : PageHeap) → g.spans l ≡ some back → prepend_to_free_list l g ≡ ok tt (listed_heap g)
    unfolding prepend_to_free_list
    prepend-ok g x = rw (load-ok g l x)

    back-Listed :
        held l ≡ false
        → Listed held
            (update (update h.spans l (some back)) p (some first_part))
            (put_in (update h.spans l (some back)) l back h.lists)
    back-Listed hl =
        let none_there = fresh-none h.directory v.geometry.stock in
        let held_l =
          Listed-change v.listed l (some back) true (Off-none v.listed l none_there)
            (λ u eq x. refl) in
        let put = Listed-put_in held_l l back (ground arith) (ground arith) free (omega arith) in
        Listed-same (λ q. ground arith)
          (Listed-change put p (some first_part) (held p)
            (Off-in_use put p s (ground (arith, p-l)) used) (λ u eq x. absurd (ground arith)))

    back_counts :
        held l ≡ false
        → Counts
            (normal_pages held (update (update h.spans l (some back)) p (some first_part)))
            (allocated h.directory).next_span
            (count_in old_location (s.length - n) h.stats).free_bytes
    back_counts hl =
        let off_l = Off-none v.listed l (fresh-none h.directory v.geometry.stock) in
        let held_l = Listed-change v.listed l (some back) true off_l (λ u eq x. refl) in
        let before =
          Counts-same (next_span-le h.directory)
            (normal_pages-change v.listed l off_l (some back) true (λ u eq x. refl)) v.counted in
        let put = Listed-put_in held_l l back (ground arith) (ground arith) free (omega arith) in
        let off_p = Off-in_use put p s (ground (arith, p-l)) used in
        let after =
          Counts-in (update held l true) (update h.spans l (some back)) h.stats l back
            (ground arith) (ground arith) (fresh-lt h.directory v.geometry.stock) before in
        Counts-same le_refl
          (λ x.
            ap
              (λ b.
                if b
                then 0
                else pages_if_normal (update (update h.spans l (some back)) p (some first_part)) x)
              (ground arith)
            ∙ normal_pages-change put p off_p (some first_part) (held p)
                (λ u eq z. absurd (ground arith)) x)
          after

    pub carve_rest_rule :
        held l ≡ false
        → Returns
            (λ _ h'. (h'.spans p ≡ some first_part) × Inv held owed' h')
            (carve_rest p n old_location h)
    unfolding carve_rest new_span with_span cut_directory count_in add64
    carve_rest_rule hl =
        let at_l : update h.spans l (some rest_part) l ≡ some rest_part = ground arith in
        let at_back : update h.spans l (some back) l ≡ some back = ground arith in
        rw (load-ok h p e, int_of-small (s.length - n) small, load-ok (with_new h rest_part) l at_l)
          (subst
            (λ g.
              Returns (λ _ h'. (h'.spans p ≡ some first_part) × Inv held owed' h')
                (and_then (record_span l g) (λ _ g₁.
                  and_then (prepend_to_free_list l g₁)
                    (λ _ g₂. set_page (s.start + n - 1) p (with_span p (some first_part) g₂)))))
            (ap (λ f. record h { directory = record (allocated h.directory) { spans = f } })
              (sym (update-update h.spans l (some rest_part) (some back))))
            (bind
              (record_span_rule (with_new h back) l back at_back (omega arith)
                (Ready-rest back refl refl))
              λ x h₁ (m₁, is₁, r).
                let g₁ = with_map (with_new h back) m₁ in
                rw (is₁, prepend-ok g₁ at_back)
                  (mono
                    (set_page_rule (with_span p (some first_part) (listed_heap g₁))
                      (s.start + n - 1) p
                      (r.ready _
                        ((v.geometry.tiling.filled p s e).ready _ (omega arith) (omega arith))))
                    λ y h₂ (m₂, is₂, w). rw is₂ (
                      ground arith,
                      record {
                        geometry = record {
                          stock = cut-Stock back m₂;
                          tiling = cut-Tiling back m₁ m₂ refl refl r w;
                        };
                        listed = back-Listed hl;
                        balanced = ground (arith, v.balanced, o, bytes-lt (s.length - n));
                        counted = back_counts hl;
                        owned = λ m k. ground (arith, cut_pages back refl m k);
                        limited = ground (arith, v.limited);
                      },
                    ))))
