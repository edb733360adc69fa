-- ===== src/CentralFreeList/Populated.antt =====
-- Populate of src/src/central_freelist.cc.
use conan_tcmalloc.Base.{
  ℕ, zero, suc, ◌+◌, ◌*◌, ◌/◌, ◌%◌, ◌^◌, ◌≤◌, ◌<◌, ◌≡◌, ◌≢◌, inl, inr, sym, ◌∙◌, subst, refl, Bool,
  true, false, some, List, [], ◌∷◌, ◌==◌, arith, has, length, Bool-cases, if◌then◌else◌, word,
}
use conan_tcmalloc.PageMap.{update}
use conan_tcmalloc.LinkedList.{Memory}
use conan_tcmalloc.LinkedList.Segments.{Segment}
use conan_tcmalloc.PageHeap.State.{page_shift}
use conan_tcmalloc.CentralFreeList.{Pages, Store, objects_field, prepend_nonempty}
use conan_tcmalloc.CentralFreeList.Fetch.{cache_pages, add_span, populate}
use conan_tcmalloc.CentralFreeList.Objects.{length-grid, Distinct-grid, WasCut, cut_objects-WasCut}
use conan_tcmalloc.CentralFreeList.Invariant.{
  Place, in_span, Places, is_span, is_slot, is_given, is_loose, Same, IsNew, IsPageHeap, capacity,
  objects_of, linked, IsSpan, IsValid,
}
use conan_tcmalloc.CentralFreeList.Places.{given-loose, slot-is_loose}
use conan_tcmalloc.CentralFreeList.Step.{descriptor-object, objects-Same, Step, IsValid-step}
use conan_tcmalloc.CentralFreeList.Shrunk.{Undisturbed}
use conan_tcmalloc.CentralFreeList.Local.{IsValid-local}

module _ (P : Pages) (law : IsPageHeap P) (size_of batch pages : ℕ → ℕ) (classes : ℕ) where
  -- The objects of the class are not empty, and a span has some, no more than its `refcount` can count.
  pub record IsSized (cl : ℕ) : Type 0 where
    pub size_pos : 0 < size_of cl
    pub some_object : 0 < capacity P law size_of batch pages cl
    pub fits : capacity P law size_of batch pages cl < 2 ^ 16

  Same-trans :
      (q : ℕ) (h₀ h₁ h₂ : P.State)
      → Same P law.live q h₀ h₁
      → Same P law.live q h₁ h₂
      → Same P law.live q h₀ h₂
  Same-trans q h₀ h₁ h₂ a b = record {
    live_still = b.live_still;
    start = b.start ∙ a.start;
    length = b.length ∙ a.length;
    sizeclass = b.sizeclass ∙ a.sizeclass;
  }

  cache_pages-Same :
      (rounds start i cl q : ℕ) (h : P.State)
      → law.live h q ≡ true
      → Same P law.live q h (cache_pages P size_of batch pages rounds start i cl h)
  unfolding cache_pages
  cache_pages-Same zero start i cl q h live = record {
    live_still = live;
    start = refl;
    length = refl;
    sizeclass = refl;
  }
  cache_pages-Same (suc rounds) start i cl q h live =
      let h₁ = P.set_cached_size_class (start + i) cl h in
      let a = law.cached_keeps h (start + i) cl q live in
      Same-trans q h h₁ _ a (cache_pages-Same rounds start (i + 1) cl q h₁ a.live_still)

  capacity_bounds :
      (bytes size : ℕ)
      → 0 < size
      → (bytes / size * size ≤ bytes)
        × (bytes < bytes / size * size + size)
        × (bytes / size ≤ bytes)
  capacity_bounds bytes size pos = (grind arith, grind arith, grind arith)

  empty_chain : (m : Memory) (xs : List ℕ) → Segment m 0 xs 0 → 0 < length xs → ⊥
  empty_chain m [] c pos = omega arith
  empty_chain m (x ∷ xs) (e, ne, c) pos = ne (sym e)

  -- `p` is a new span of the heap `h`, and the others are as in the store.
  module _ (cl p : ℕ) (lt : cl < classes) (at : Places) (s : Store P) (h : P.State)
      (v : IsValid P law size_of batch pages classes at s) (sized : IsSized cl)
      (new : law.live s.heap p ≡ false) (live : law.live h p ≡ true)
      (len : P.span_length p h ≡ pages cl) (class : P.span_sizeclass p h ≡ cl)
      (same : (q : ℕ) → law.live s.heap q ≡ true → Same P law.live q s.heap h) (f : ℕ × Memory)
      (cut : WasCut
        (capacity P law size_of batch pages cl)
        (P.span_start p h * 2 ^ page_shift)
        (size_of cl)
        objects_field
        (s.objects p, s.memory)
        f) where
    abbrev new_objects : List ℕ
    new_objects = objects_of P law size_of batch pages cl p h

    abbrev added : Store P
    added = record s {
      lists = update s.lists cl (record (prepend_nonempty p (s.lists cl)) {
        num_spans = (s.lists cl).num_spans + 1;
        counter = ((s.lists cl).counter + capacity P law size_of batch pages cl) % word;
      });
      objects = update s.objects p f.0;
      refcount = update s.refcount p 0;
      heap = h;
      memory = f.1;
    }

    abbrev at_added : Places
    at_added b = if has b new_objects then in_span p else at b

    -- No object of a span in use before lies in the new one.
    not_linked : (dl : ℕ) → dl < classes → linked P law size_of batch pages dl p s ≡ false
    not_linked dl lt' = elim (Bool-cases (linked P law size_of batch pages dl p s)) [
      | inl on ↦ absurd (cc ((v.span dl p lt' on).live, new))
      | inr off ↦ off
    ]

    new_apart :
        (dl q b : ℕ)
        → dl < classes
        → linked P law size_of batch pages dl q s ≡ true
        → has b (objects_of P law size_of batch pages dl q s.heap) ≡ true
        → has b new_objects ≡ false
    new_apart dl q b lt' on inside = elim (Bool-cases (has b new_objects)) [
      | inr off ↦ off
      | inl also ↦
          let x = v.span dl q lt' on in
          let still = same q x.live in
          let there : has b (objects_of P law size_of batch pages dl q h) ≡ true =
            rw (objects-Same P law size_of batch pages s.heap h dl q still) inside in
          let e =
            descriptor-object P law size_of batch pages h dl q b still.live_still
              (still.length ∙ x.length_is) x.size_pos there in
          let e' =
            descriptor-object P law size_of batch pages h cl p b live len sized.size_pos also in
          let one : q ≡ p = sym e ∙ e' in
          absurd (cc (subst (λ r. law.live s.heap r ≡ true) one x.live, new))
    ]

    loose_apart : (dl b : ℕ) → dl < classes → is_loose dl (at b) ≡ true → has b new_objects ≡ false
    loose_apart dl b lt' on =
        let (q, linked_q, inside) = v.origin dl b lt' on in new_apart dl q b lt' linked_q inside

    span_apart : (q b : ℕ) → is_span q (at b) ≡ true → has b new_objects ≡ false
    span_apart q b on =
        let (dl, lt', linked_q) = v.home q b on in
        let x = v.span dl q lt' linked_q in
        new_apart dl q b lt' linked_q (x.inside b (x.places b ∙ on))

    slot_apart : (dl i b : ℕ) → is_slot dl i (at b) ≡ true → has b new_objects ≡ false
    slot_apart dl i b on =
        let l = slot-is_loose dl i (at b) on in loose_apart dl b (v.bounded dl b l) l

    kept_memory : (b : ℕ) → has b new_objects ≡ false → f.1 b ≡ s.memory b
    kept_memory b off = cut.frame b off tt

    added_span : IsSpan P law size_of batch pages at_added added cl p
    added_span =
        let itself : (p == p) ≡ true = ground arith in
        let size =
          length-grid (capacity P law size_of batch pages cl) (P.span_start p h * 2 ^ page_shift)
            (size_of cl) in
        record {
          live = live;
          length_is = len;
          sizeclass = class;
          size_pos = sized.size_pos;
          fits = sized.fits;
          free = new_objects;
          holds = rw itself (record {
            chain = cut.chain;
            distinct = Distinct-grid _ _ (size_of cl) sized.size_pos;
          });
          places = λ b. elim (Bool-cases (has b new_objects)) [
            | inl on ↦ rw on (ground arith)
            | inr off ↦ rw off (elim (Bool-cases (is_span p (at b))) [
              | inl on ↦
                  let (dl, lt', linked_p) = v.home p b on in
                  absurd (cc (not_linked dl lt', linked_p))
              | inr not_on ↦ rw not_on refl
            ])
          ];
          inside = λ b h. h;
          count = rw itself (omega (arith, size));
        }

    -- Of an object of the new span no place was known.
    added_places :
        (g : Place → Bool) (b : ℕ)
        → g (in_span p) ≡ false
        → (g (at b) ≡ true → has b new_objects ≡ false)
        → g (at_added b) ≡ g (at b)
    added_places g b now before = elim (Bool-cases (has b new_objects)) [
      | inr off ↦ rw off refl
      | inl on ↦ elim (Bool-cases (g (at b))) [
        | inl was ↦ absurd (cc (before was, on))
        | inr was_not ↦ rw (on, was_not) now
      ]
    ]

    added_first : f.0 ≢ 0
    added_first z =
        let size =
          length-grid (capacity P law size_of batch pages cl) (P.span_start p h * 2 ^ page_shift)
            (size_of cl) in
        empty_chain (f.1) new_objects (subst (λ k. Segment f.1 k new_objects 0) z cut.chain)
          (omega (arith, size, sized.some_object))

    added-Step : Step P law size_of batch pages classes cl p at at_added s added
    added-Step =
        let here : (cl == cl) ≡ true = ground arith in
        let itself : (p == p) ≡ true = ground arith in
        record {
          other_lists = λ dl ne. let other : (dl == cl) ≡ false = ground arith in rw other refl;
          only = λ dl lt' ne. not_linked dl lt';
          nonempty = λ q ne. rw here (ground arith);
          empty = λ q ne. rw here refl;
          slots = rw here refl;
          used_slots = rw here refl;
          cache_size = rw here refl;
          max_cache_size = rw here refl;
          heap = λ q ne live'. same q live';
          objects = λ q ne. ground arith;
          refcount = λ q ne. ground arith;
          spans = λ q b ne. added_places (is_span q) b (ground arith) (span_apart q b);
          slotted = λ dl i b. added_places (is_slot dl i) b refl (slot_apart dl i b);
          span_memory = λ q b ne on. kept_memory b (span_apart q b on);
          slot_memory = λ dl i b on. kept_memory b (slot_apart dl i b on);
          here = λ linked_now. added_span;
          here_some = λ listed. rw itself added_first;
          here_none = λ listed.
              let listed' = rw here at listed in absurd (cc (not_linked cl lt, unlisted listed'));
          loose = λ dl b lt' h. elim (Bool-cases (has b new_objects)) [
            | inl on ↦ let h' = rw on at h in absurd (cc h')
            | inr off ↦
                let (q, on_q, in_q) = v.origin dl b lt' (rw off at h) in
                inl (
                  q,
                  (λ e. cc (
                    not_linked dl lt',
                    subst (λ r. linked P law size_of batch pages dl r s ≡ true) e on_q,
                  )),
                  on_q,
                  in_q,
                )
          ];
          bounded = λ dl b h. elim (Bool-cases (has b new_objects)) [
            | inl on ↦ let h' = rw on at h in absurd (cc h')
            | inr off ↦ v.bounded dl b (rw off at h)
          ];
          home = λ b h. rw here (ground arith);
        }
      where
        unlisted : has p (s.lists cl).empty ≡ true → linked P law size_of batch pages cl p s ≡ true
        unlisted e = ground (arith, e)

    added-Undisturbed : Undisturbed P law size_of batch pages classes at at_added s added
    added-Undisturbed = record {
      valid =
          IsValid-step P law size_of batch pages classes cl p lt at at_added s added v added-Step;
      given = λ dl b. added_places (is_given dl) b refl (given_apart dl b);
      memory = λ dl b on. kept_memory b (given_apart dl b on);
    }
      where
        given_apart : (dl b : ℕ) → is_given dl (at b) ≡ true → has b new_objects ≡ false
        given_apart dl b on =
            let l = given-loose dl (at b) on in loose_apart dl b (v.bounded dl b l) l

  -- The new span from the page heap, cut into objects.
  add_span-Undisturbed :
      (cl p : ℕ) (at : Places) (s : Store P) (h : P.State)
      → cl < classes
      → IsValid P law size_of batch pages classes at s
      → IsSized cl
      → IsNew P law.live (pages cl) cl p s.heap h
      → ((q : ℕ) → law.live s.heap q ≡ true → Same P law.live q s.heap h)
      → (at' : Places) × (s' : Store P) × (add_span P size_of batch pages cl p
            (record s { heap = h })
          ≡ some s')
        × Undisturbed P law size_of batch pages classes at at' s s'
  unfolding add_span
  add_span-Undisturbed cl p at s h lt v sized new same =
      let h' = cache_pages P size_of batch pages (pages cl) (P.span_start p h) 0 cl h in
      let still = cache_pages-Same (pages cl) (P.span_start p h) 0 cl p h new.after in
      let bytes = pages cl * 2 ^ page_shift in
      let ptr = P.span_start p h' * 2 ^ page_shift in
      let len : P.span_length p h' ≡ pages cl = still.length ∙ new.length in
      let (low, high, few) = capacity_bounds bytes (size_of cl) sized.size_pos in
      let start = law.start_pos h' p still.live_still in
      let small = law.small h' p still.live_still in
      let (f, is, cut) =
        cut_objects-WasCut (bytes + 1) (capacity P law size_of batch pages cl) ptr (ptr + bytes)
          (size_of cl) 0 objects_field (s.objects p, s.memory) (omega arith) sized.size_pos
          (omega arith) (omega arith) (omega (arith, len)) (omega arith) tt in
      let all_same : (q : ℕ) → law.live s.heap q ≡ true → Same P law.live q s.heap h' = λ q on.
        let a = same q on in
        Same-trans q s.heap h h' a
          (cache_pages-Same (pages cl) (P.span_start p h) 0 cl q h a.live_still) in
      let none_before : 0 + capacity P law size_of batch pages cl
          ≡ capacity P law size_of batch pages cl =
        omega arith in
      (
        at_added cl p lt at s h' v sized new.before still.live_still len
            (still.sizeclass ∙ new.sizeclass) all_same f cut,
        added cl p lt at s h' v sized new.before still.live_still len
            (still.sizeclass ∙ new.sizeclass) all_same f cut,
        rw (is, none_before) refl,
        added-Undisturbed cl p lt at s h' v sized new.before still.live_still len
            (still.sizeclass ∙ new.sizeclass) all_same f cut,
      )

  -- Populate always returns, with a new span or without, and nothing that threads have is touched.
  pub populate-Undisturbed :
      (cl : ℕ) (at : Places) (s : Store P)
      → cl < classes
      → IsValid P law size_of batch pages classes at s
      → IsSized cl
      → (at' : Places) × (s' : Store P) × (populate P size_of batch pages cl s ≡ some s')
        × Undisturbed P law size_of batch pages classes at at' s s'
  unfolding populate
  populate-Undisturbed cl at s lt v sized =
      let p = (P.new_with_size_class (pages cl) cl s.heap).0 in
      let h = (P.new_with_size_class (pages cl) cl s.heap).1 in
      let same =
        λ (q : ℕ) (on : law.live s.heap q ≡ true). law.new_keeps s.heap (pages cl) cl q on in
      elim (Bool-cases (p == 0)) [
        | inl refused ↦ (
          at,
          record s { heap = h },
          rw refused refl,
          record {
            valid =
                IsValid-local P law size_of batch pages classes at s h s.memory same
                  (λ q b on. refl) (λ dl i b on. refl) v;
            given = λ dl b. refl;
            memory = λ dl b on. refl;
          },
        )
        | inr found ↦
            let new = law.new_some s.heap (pages cl) cl (λ e. ground arith) in
            let (at', s', is, u) = add_span-Undisturbed cl p at s h lt v sized new same in
            (at', s', rw found is, u)
      ]
