-- ===== src/PageHeap/Invariant/Added.antt =====
-- The part of GrowHeap of src/src/page_heap.cc after the system gave memory: it becomes a free
-- span.
use conan_tcmalloc.Base.{
  ◌⊎◌, inl, inr, ℕ, ◌+◌, ◌-◌, ◌*◌, ◌^◌, ◌≤◌, ◌<◌, ◌≡◌, ◌∙◌, ap, refl, sym, Bool, true, false, ◌&&◌,
  none, some, ltb, leb, ◌==◌, if◌then◌else◌, arith, word, add64,
}
use conan_tcmalloc.PageMap.{update}
use conan_tcmalloc.PageMap.Two.{PageMap2, ensure, preallocate, Ready}
use conan_tcmalloc.PageMap.Two.Ensure.{Grown, ensure-Outcome}
use conan_tcmalloc.PageHeap.State.{
  Span, PageHeap, System, pure, page_bits, bytes, out_of_fuel, M, ◌>>=◌, ◌>>◌,
}
use conan_tcmalloc.PageHeap.FreeLists.{with_span}
use conan_tcmalloc.PageHeap.Release.{delete_locked}
use conan_tcmalloc.PageHeap.Spans.{span, fresh, allocated, new_span, record_span}
use conan_tcmalloc.PageHeap.Alloc.{set_pagemap, big_allocation_threshold, count_growth, add_memory}
use conan_tcmalloc.PageHeap.Geometry.Stock.{fresh-none, fresh-lt, next_span-le, Stock-allocated}
use conan_tcmalloc.PageHeap.Geometry.Tiling.{Spans, Tiling, Recorded}
use conan_tcmalloc.PageHeap.Geometry.Add.{Unused, Tiling-add}
use conan_tcmalloc.PageHeap.Listed.Moves.{Off-none, Listed-change}
use conan_tcmalloc.PageHeap.Tally.{pages_if_normal, pages_of, Owns, Counts-same, pages_of-tally}
use conan_tcmalloc.PageHeap.Invariant.Counting.{normal_pages-change}
use conan_tcmalloc.PageHeap.Invariant.{IsValid, run_if, Returns, returns, bind}
use conan_tcmalloc.PageHeap.Invariant.Merges.{Stock-pagemap, Listed-same}
use conan_tcmalloc.PageHeap.Invariant.Cuts.{with_map, with_new, record_span_rule}
use conan_tcmalloc.PageHeap.Invariant.Kept.{FreeIn}
use conan_tcmalloc.PageHeap.Invariant.Deleted.{delete_locked_rule}

-- What the system gave: pages that no span has, and less than 16 TiB in all.
pub record NewMemory (h : PageHeap) (p ask : ℕ) : Type 0 where
  pub start_pos : 0 < p
  pub length_pos : 0 < ask
  pub fits : p + ask < word
  pub room : h.stats.system_bytes + ask * 8192 < 2 ^ 44
  pub unused : Unused h.spans p ask

count_growth-IsValid :
    {h : PageHeap} (p ask : ℕ) → IsValid h → NewMemory h p ask → IsValid (count_growth ask h)
unfolding count_growth add64 bytes
count_growth-IsValid {h} p ask v new = record {
  geometry = v.geometry;
  listed = v.listed;
  balanced = omega (arith, v.balanced, new.room);
  counted = v.counted;
  owned = λ n k. omega (arith, v.owned n k, new.room);
  limited = omega (arith, new.room);
}

preallocate-large : (grants : ℕ → Bool) (m : PageMap2 ℕ) → preallocate page_bits grants m ≡ some m
unfolding preallocate
preallocate-large grants m = refl

Tiling-ensured :
    {spans : Spans} {m m' : PageMap2 ℕ} → Tiling spans m → Grown page_bits m m' → Tiling spans m'
Tiling-ensured {m' = m'} t g = record {
  filled = λ p s e.
      let f = t.filled p s e in
      record {
        start_pos = f.start_pos;
        length_pos = f.length_pos;
        first = g.keeps s.start ∙ f.first;
        last = g.keeps (s.start + s.length - 1) ∙ f.last;
        ready = λ k a b. g.ready k (f.ready k a b);
      };
  apart = t.apart;
  covered = λ k q h. t.covered k q (sym (g.keeps k) ∙ h);
}

ensured-IsValid :
    {h : PageHeap} {m : PageMap2 ℕ}
    → IsValid h
    → Grown page_bits h.pagemap m
    → IsValid (with_map h m)
ensured-IsValid {h} {m} v g = record {
  geometry = record {
    stock = Stock-pagemap h.directory m v.geometry.stock;
    tiling = Tiling-ensured v.geometry.tiling g;
  };
  listed = v.listed;
  balanced = v.balanced;
  counted = v.counted;
  owned = v.owned;
  limited = v.limited;
}

-- The page map has no room for the pages: they are out of its range, or the allocator of its
-- leaves refused a request.
abbrev pub NoRoom : System → PageHeap → ℕ → ℕ → Type 0
NoRoom sys h p ask =
    (2 ^ page_bits ≤ p + ask) ⊎ ((c : ℕ) × (h.pagemap.calls ≤ c) × (sys.grants c ≡ false))

-- The pages are free, or the map has no room for them and the spans are as before.
abbrev pub Added : System → PageHeap → ℕ → ℕ → Bool → PageHeap → Type 0
Added sys h p ask ok h' =
    IsValid h'
    × (((ok ≡ true) × FreeIn h' (span p ask))
        ⊎ ((ok ≡ false) × (h'.spans ≡ h.spans) × NoRoom sys h p ask))

module _ {h : PageHeap} (p ask : ℕ) (v : IsValid h) (new : NewMemory h p ask) where
  abbrev l : ℕ
  l = fresh h.directory

  abbrev t : Span
  t = span p ask

  free : h.spans l ≡ none
  free = fresh-none h.directory v.geometry.stock

  new_pages :
      Owns
        (pages_of (update h.spans l (some t)))
        (allocated h.directory).next_span
        (h.stats.system_bytes + ask * 8192)
  new_pages n k =
      let same_l : (l == l) ≡ true = ground arith in
      let first =
        pages_of-tally h.spans l n (some t)
          (omega (arith, fresh-lt h.directory v.geometry.stock)) in
      let no_pages : pages_of h.spans l ≡ 0 = rw (free, pages_of) in
      let t_pages : pages_of (update h.spans l (some t)) l ≡ ask = rw (same_l, pages_of) in
      omega (arith, v.owned n (omega (arith, next_span-le h.directory)))

  system_sum : add64 h.stats.system_bytes (bytes ask) ≡ h.stats.system_bytes + ask * 8192
  unfolding add64 bytes
  system_sum = omega (arith, new.room)

  -- The page heap with the span for the new memory.
  abbrev with_memory : PageMap2 ℕ → PageMap2 ℕ → PageHeap
  with_memory m m' = with_map (with_new (with_map (count_growth ask h) m) t) m'

  with_memory-IsValid :
      (m m' : PageMap2 ℕ)
      → Grown page_bits h.pagemap m
      → ((k : ℕ) → p ≤ k → k < p + ask → Ready page_bits m k)
      → Recorded m l t m'
      → IsValid (with_memory m m')
  unfolding count_growth
  with_memory-IsValid m m' g ready r =
      let w = count_growth-IsValid p ask v new in
      let off = Off-none v.listed l free in
      record {
        geometry = record {
          stock = Stock-pagemap _ m' (
              Stock-allocated (record (h.directory) { pagemap = m }) t
                (Stock-pagemap h.directory m v.geometry.stock));
          tiling =
              Tiling-add l t (Tiling-ensured v.geometry.tiling g) free new.start_pos new.length_pos
                new.unused ready r;
        };
        listed =
            Listed-same (λ q. ground arith)
              (Listed-change v.listed l (some t) false off (λ u eq x. absurd (ground arith)));
        balanced = w.balanced;
        counted =
            Counts-same (next_span-le h.directory)
              (λ x.
                ap (λ b. if b then 0 else pages_if_normal (update h.spans l (some t)) x) {x = false}
                  (ground arith)
                ∙ normal_pages-change v.listed l off (some t) false
                    (λ u eq z. absurd (ground arith)) x)
              v.counted;
        owned = λ n k. omega (arith, system_sum, new_pages n k);
        limited = w.limited;
      }

  -- The new memory becomes a span that is in use, and is deleted.
  record_memory :
      (sys : System) (fuel : ℕ) (m : PageMap2 ℕ)
      → 1 < fuel
      → Grown page_bits h.pagemap m
      → ((k : ℕ) → p ≤ k → k < p + ask → Ready page_bits m k)
      → Returns (Added sys h p ask) (
          (new_span p ask >>= λ q. record_span q >> (delete_locked sys fuel q >> pure true))
            (with_map (count_growth ask h) m))
  unfolding new_span with_span count_growth
  record_memory sys fuel m enough g ready =
      bind
        (record_span_rule (with_new (with_map (count_growth ask h) m) t) l t (ground arith)
          new.length_pos ready)
        λ x h₁ (m', is, r). rw is (
          bind
            (delete_locked_rule sys fuel l t (with_memory-IsValid m m' g ready r) (ground arith)
              refl enough)
            λ y h₂ (w, freed, out). returns (w, inl (refl, freed)))

  -- The rest of GrowHeap, from Ensure on.
  map_memory :
      (sys : System) (fuel : ℕ)
      → 1 < fuel
      → Returns (Added sys h p ask) (
          (elim (ensure page_bits sys.grants (p - 1) (ask + 2) h.pagemap) as (λ _. M Bool) [
            | none ↦ λ _. out_of_fuel
            | some r ↦
                set_pagemap (r.1)
                >> (if r.0
                    then (new_span p ask >>= λ q.
                        record_span q >> (delete_locked sys fuel q >> pure true))
                    else pure false)
          ])
            (count_growth ask h))
  unfolding count_growth
  map_memory sys fuel enough =
      let (done, m, is, out) =
        ensure-Outcome page_bits sys.grants (p - 1) (ask + 2) h.pagemap (omega arith)
          (omega (arith, new.start_pos, new.fits)) in
      rw is (
        run_if done _ _ (with_map (count_growth ask h) m)
          (λ e.
            record_memory sys fuel m enough out.grown
              (λ k a b. out.ready e k (omega arith) (omega (arith, new.start_pos))))
          (λ e. returns (
            ensured-IsValid (count_growth-IsValid p ask v new) out.grown,
            inr (
              refl,
              refl,
              elim (out.refused e) [
                | inl beyond ↦ inl (omega (arith, new.start_pos))
                | inr refused ↦ inr refused
              ],
            ),
          )))

  -- The memory from the system is counted, and if the page map has room for it, it becomes a free span.
  pub add_memory_rule :
      (sys : System) (fuel : ℕ)
      → 1 < fuel
      → Returns (Added sys h p ask) (add_memory sys fuel p ask h)
  unfolding add_memory
  add_memory_rule sys fuel enough =
      bind
        (run_if {P = λ _ h'. h' ≡ count_growth ask h}
          (ltb h.stats.system_bytes big_allocation_threshold
            && leb big_allocation_threshold (add64 h.stats.system_bytes (bytes ask)))
          (set_pagemap h.pagemap) (pure tt) (count_growth ask h) (λ e. returns refl)
          (λ e. returns refl))
        λ x h' same. rw same (map_memory sys fuel enough)
