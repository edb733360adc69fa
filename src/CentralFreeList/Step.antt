-- ===== src/CentralFreeList/Step.antt =====
-- A step of the central lists (src/src/central_freelist.cc) at one span.
use conan_tcmalloc.Base.{
  ℕ, ◌*◌, ◌/◌, ◌^◌, ◌≤◌, ◌<◌, ◌≡◌, ◌≢◌, ◌⊎◌, inl, inr, sym, ap, ◌∙◌, subst, refl, true, false, ◌==◌,
  arith, has, Bool-cases,
}
use conan_tcmalloc.LinkedList.Segments.{Segment-frame}
use conan_tcmalloc.PageHeap.State.{page_shift}
use conan_tcmalloc.CentralFreeList.{Pages, CentralFreeList, Store}
use conan_tcmalloc.CentralFreeList.Objects.{grid, has-grid}
use conan_tcmalloc.CentralFreeList.Invariant.{
  Places, is_span, is_slot, is_loose, Same, IsPageHeap, capacity, objects_of, linked, IsSpan,
  IsSlot, Origin, IsValid,
}

module _ (P : Pages) (law : IsPageHeap P) (size_of batch pages : ℕ → ℕ) where
  -- A page of a span in use has its descriptor.
  pub descriptor-object :
      (h : P.State) (cl p a : ℕ)
      → law.live h p ≡ true
      → P.span_length p h ≡ pages cl
      → 0 < size_of cl
      → has a (objects_of P law size_of batch pages cl p h) ≡ true
      → P.get_descriptor (a / 2 ^ page_shift) h ≡ p
  descriptor-object h cl p a live len pos on =
      let b =
        has-grid (capacity P law size_of batch pages cl) (P.span_start p h * 2 ^ page_shift)
          (size_of cl) a on in
      let whole : capacity P law size_of batch pages cl * size_of cl ≤ pages cl * 2 ^ page_shift =
        grind arith in
      law.described h p (a / 2 ^ page_shift) live (omega (arith, b)) (omega (arith, b, whole))

  module _ (classes : ℕ) where
    -- An object lies in one span.
    pub one_span :
        (at : Places) (s : Store P)
        → IsValid P law size_of batch pages classes at s
        → (cl dl p q a : ℕ) → cl < classes
        → dl < classes
        → linked P law size_of batch pages cl p s ≡ true
        → linked P law size_of batch pages dl q s ≡ true
        → has a (objects_of P law size_of batch pages cl p s.heap) ≡ true
        → has a (objects_of P law size_of batch pages dl q s.heap) ≡ true
        → (p ≡ q) × (cl ≡ dl)
    one_span at s v cl dl p q a lt lt' on on' here here' =
        let x = v.span cl p lt on in
        let y = v.span dl q lt' on' in
        let e = descriptor-object s.heap cl p a x.live x.length_is x.size_pos here in
        let e' = descriptor-object s.heap dl q a y.live y.length_is y.size_pos here' in
        let same : p ≡ q = sym e ∙ e' in
        (same, sym x.sizeclass ∙ (ap (λ r. P.span_sizeclass r s.heap) same ∙ y.sizeclass))

  pub objects-Same :
      (h h' : P.State) (cl p : ℕ)
      → Same P law.live p h h'
      → objects_of P law size_of batch pages cl p h' ≡ objects_of P law size_of batch pages cl p h
  objects-Same h h' cl p e =
      ap (λ k. grid (capacity P law size_of batch pages cl) (k * 2 ^ page_shift) (size_of cl))
        e.start

  -- A span that the step does not touch.
  pub IsSpan-frame :
      (at at' : Places) (s s' : Store P) (cl p : ℕ)
      → Same P law.live p s.heap s'.heap
      → s'.objects p ≡ s.objects p
      → s'.refcount p ≡ s.refcount p
      → ((a : ℕ) → is_span p (at' a) ≡ is_span p (at a))
      → ((a : ℕ) → is_span p (at a) ≡ true → s'.memory a ≡ s.memory a)
      → IsSpan P law size_of batch pages at s cl p
      → IsSpan P law size_of batch pages at' s' cl p
  IsSpan-frame at at' s s' cl p same objects refcount places memory x = record {
    live = same.live_still;
    length_is = same.length ∙ x.length_is;
    sizeclass = same.sizeclass ∙ x.sizeclass;
    size_pos = x.size_pos;
    fits = x.fits;
    free = x.free;
    holds = rw objects (record {
      chain =
          Segment-frame s.memory s'.memory (s.objects p) 0 x.free
            (λ a on. memory a (sym (x.places a) ∙ on)) x.holds.chain;
      distinct = x.holds.distinct;
    });
    places = λ a. x.places a ∙ sym (places a);
    inside = λ a on. rw (objects-Same s.heap s'.heap cl p same) (x.inside a on);
    count = rw refcount x.count;
  }

  pub IsSlot-frame :
      (at at' : Places) (s s' : Store P) (cl i : ℕ)
      → (s'.lists cl).tc_slots i ≡ (s.lists cl).tc_slots i
      → ((a : ℕ) → is_slot cl i (at' a) ≡ is_slot cl i (at a))
      → ((a : ℕ) → is_slot cl i (at a) ≡ true → s'.memory a ≡ s.memory a)
      → IsSlot P law size_of batch pages at s cl i
      → IsSlot P law size_of batch pages at' s' cl i
  IsSlot-frame at at' s s' cl i entry places memory x = record {
    objects = x.objects;
    holds = rw entry (record {
      chain =
          Segment-frame s.memory s'.memory _ 0 x.objects (λ a on. memory a (sym (x.places a) ∙ on))
            x.holds.chain;
      distinct = x.holds.distinct;
    });
    last = rw entry x.last;
    count = x.count;
    places = λ a. x.places a ∙ sym (places a);
  }

  -- What a step at the span `p` of class `cl` leaves as it is, and what it makes of the span.
  pub record Step (classes cl p : ℕ) (at at' : Places) (s s' : Store P) : Type 0 where
    pub other_lists : (dl : ℕ) → dl ≢ cl → s'.lists dl ≡ s.lists dl
    pub only : (dl : ℕ) → dl < classes → dl ≢ cl → linked P law size_of batch pages dl p s ≡ false
    pub nonempty : (q : ℕ) → q ≢ p → has q (s'.lists cl).nonempty ≡ has q (s.lists cl).nonempty
    pub empty : (q : ℕ) → q ≢ p → has q (s'.lists cl).empty ≡ has q (s.lists cl).empty
    pub slots : (s'.lists cl).tc_slots ≡ (s.lists cl).tc_slots
    pub used_slots : (s'.lists cl).used_slots ≡ (s.lists cl).used_slots
    pub cache_size : (s'.lists cl).cache_size ≡ (s.lists cl).cache_size
    pub max_cache_size : (s'.lists cl).max_cache_size ≡ (s.lists cl).max_cache_size
    pub heap : (q : ℕ) → q ≢ p → law.live s.heap q ≡ true → Same P law.live q s.heap s'.heap
    pub objects : (q : ℕ) → q ≢ p → s'.objects q ≡ s.objects q
    pub refcount : (q : ℕ) → q ≢ p → s'.refcount q ≡ s.refcount q
    pub spans : (q a : ℕ) → q ≢ p → is_span q (at' a) ≡ is_span q (at a)
    pub slotted : (dl i a : ℕ) → is_slot dl i (at' a) ≡ is_slot dl i (at a)
    pub span_memory : (q a : ℕ) → q ≢ p → is_span q (at a) ≡ true → s'.memory a ≡ s.memory a
    pub slot_memory : (dl i a : ℕ) → is_slot dl i (at a) ≡ true → s'.memory a ≡ s.memory a
    pub here :
        linked P law size_of batch pages cl p s' ≡ true
        → IsSpan P law size_of batch pages at' s' cl p
    pub here_some : has p (s'.lists cl).nonempty ≡ true → s'.objects p ≢ 0
    pub here_none : has p (s'.lists cl).empty ≡ true → s'.objects p ≡ 0
    pub loose :
        (dl a : ℕ)
        → dl < classes
        → is_loose dl (at' a) ≡ true
        → ((q : ℕ) × (q ≢ p)
            × (linked P law size_of batch pages dl q s ≡ true)
            × (has a (objects_of P law size_of batch pages dl q s.heap) ≡ true))
          ⊎ ((dl ≡ cl) × Origin P law size_of batch pages s' dl a)
    pub bounded : (dl a : ℕ) → is_loose dl (at' a) ≡ true → dl < classes
    pub home : (a : ℕ) → is_span p (at' a) ≡ true → linked P law size_of batch pages cl p s' ≡ true

  module _ (classes cl p : ℕ) (at : Places) (s : Store P)
      (v : IsValid P law size_of batch pages classes at s)
      (x : IsSpan P law size_of batch pages at s cl p) where
    -- The span is of no other class.
    pub linked_once :
        (dl : ℕ) → dl < classes → dl ≢ cl → linked P law size_of batch pages dl p s ≡ false
    linked_once dl lt ne = elim (Bool-cases (linked P law size_of batch pages dl p s)) [
      | inl also ↦ absurd (ne (sym ((v.span dl p lt also).sizeclass) ∙ x.sizeclass))
      | inr off ↦ off
    ]

    -- A loose object comes from another span, or from this one.
    pub loose_from :
        (dl b : ℕ)
        → dl < classes
        → is_loose dl (at b) ≡ true
        → ((q : ℕ) × (q ≢ p)
            × (linked P law size_of batch pages dl q s ≡ true)
            × (has b (objects_of P law size_of batch pages dl q s.heap) ≡ true))
          ⊎ ((dl ≡ cl) × (has b (objects_of P law size_of batch pages cl p s.heap) ≡ true))
    loose_from dl b lt h =
        let (q, on_q, in_q) = v.origin dl b lt h in
        elim (Bool-cases (q == p)) [
          | inr other ↦ inl (q, (λ e. ground arith), on_q, in_q)
          | inl here ↦
              let e : q ≡ p = ground arith in
              let on_p = subst (λ r. linked P law size_of batch pages dl r s ≡ true) e on_q in
              let same : dl ≡ cl = sym ((v.span dl p lt on_p).sizeclass) ∙ x.sizeclass in
              inr (
                same,
                subst (λ r. has b (objects_of P law size_of batch pages cl r s.heap) ≡ true) e
                    (subst (λ k. has b (objects_of P law size_of batch pages k q s.heap) ≡ true)
                      same in_q),
              )
        ]

  module _ (classes cl p : ℕ) (lt : cl < classes) (at at' : Places) (s s' : Store P)
      (v : IsValid P law size_of batch pages classes at s) (t : Step classes cl p at at' s s') where
    same_linked :
        (dl q : ℕ)
        → q ≢ p
        → linked P law size_of batch pages dl q s' ≡ linked P law size_of batch pages dl q s
    same_linked dl q ne = elim (Bool-cases (dl == cl)) [
      | inl at_cl ↦
          let e : cl ≡ dl = ground arith in
          subst
            (λ k. linked P law size_of batch pages k q s' ≡ linked P law size_of batch pages k q s)
            e (rw (t.nonempty q ne, t.empty q ne) refl)
      | inr other ↦ rw (t.other_lists dl (λ e. ground arith)) refl
    ]

    -- Where a span of the store after the step was before.
    was_linked :
        (dl q : ℕ)
        → dl < classes
        → linked P law size_of batch pages dl q s' ≡ true
        → ((q ≢ p) × (linked P law size_of batch pages dl q s ≡ true)) ⊎ ((q ≡ p) × (dl ≡ cl))
    was_linked dl q lt' on = elim (Bool-cases (q == p)) [
      | inr other ↦ let ne : q ≢ p = λ e. ground arith in inl (ne, sym (same_linked dl q ne) ∙ on)
      | inl at_p ↦ elim (Bool-cases (dl == cl)) [
        | inl at_cl ↦ inr (ground arith, ground arith)
        | inr other ↦
            let e : q ≡ p = ground arith in
            let on' = subst (λ r. linked P law size_of batch pages dl r s' ≡ true) e on in
            let ne : dl ≢ cl = λ e. ground arith in
            let off = t.only dl lt' ne in
            let was : linked P law size_of batch pages dl p s ≡ true =
              rw (t.other_lists dl ne) at on' in
            absurd (cc (off, was))
      ]
    ]

    kept_span :
        (dl q : ℕ)
        → q ≢ p
        → IsSpan P law size_of batch pages at s dl q
        → IsSpan P law size_of batch pages at' s' dl q
    kept_span dl q ne x =
        IsSpan-frame at at' s s' dl q (t.heap q ne x.live) (t.objects q ne) (t.refcount q ne)
          (λ a. t.spans q a ne) (λ a on. t.span_memory q a ne on) x

    kept_number :
        {A : Type 0} (f : CentralFreeList → A) (dl : ℕ)
        → f (s'.lists cl) ≡ f (s.lists cl)
        → f (s'.lists dl) ≡ f (s.lists dl)
    kept_number f dl e = elim (Bool-cases (dl == cl)) [
      | inl at_cl ↦
          let here : cl ≡ dl = ground arith in subst (λ k. f (s'.lists k) ≡ f (s.lists k)) here e
      | inr other ↦ ap f (t.other_lists dl (λ e. ground arith))
    ]

    Origin-kept :
        (dl q a : ℕ)
        → dl < classes
        → q ≢ p
        → linked P law size_of batch pages dl q s ≡ true
        → has a (objects_of P law size_of batch pages dl q s.heap) ≡ true
        → Origin P law size_of batch pages s' dl a
    Origin-kept dl q a lt' ne on inside =
        let x = v.span dl q lt' on in
        (
          q,
          same_linked dl q ne ∙ on,
          rw (objects-Same s.heap s'.heap dl q (t.heap q ne x.live)) inside,
        )

    -- The invariant holds again.
    pub IsValid-step : IsValid P law size_of batch pages classes at' s'
    IsValid-step = record {
      span = λ dl q lt' on. elim (was_linked dl q lt' on) [
        | inl (ne, was) ↦ kept_span dl q ne (v.span dl q lt' was)
        | inr (e, e') ↦
            let on' = subst (λ k. linked P law size_of batch pages k q s' ≡ true) e' on in
            let on'' = subst (λ r. linked P law size_of batch pages cl r s' ≡ true) e on' in
            subst (λ k. IsSpan P law size_of batch pages at' s' k q) (sym e')
              (subst (λ r. IsSpan P law size_of batch pages at' s' cl r) (sym e) (t.here on''))
      ];
      some_free = λ dl q lt' on.
          let linked_now : linked P law size_of batch pages dl q s' ≡ true = rw on refl in
          elim (was_linked dl q lt' linked_now) [
            | inl (ne, was) ↦
                let e = kept_number (λ l. has q l.nonempty) dl (t.nonempty q ne) in
                rw (t.objects q ne) (v.some_free dl q lt' (sym e ∙ on))
            | inr (e, e') ↦
                let on' = subst (λ k. has q (s'.lists k).nonempty ≡ true) e' on in
                let on'' = subst (λ r. has r (s'.lists cl).nonempty ≡ true) e on' in
                subst (λ r. s'.objects r ≢ 0) (sym e) (t.here_some on'')
          ];
      none_free = λ dl q lt' on.
          let linked_now : linked P law size_of batch pages dl q s' ≡ true = ground (arith, on) in
          elim (was_linked dl q lt' linked_now) [
            | inl (ne, was) ↦
                let e = kept_number (λ l. has q l.empty) dl (t.empty q ne) in
                rw (t.objects q ne) (v.none_free dl q lt' (sym e ∙ on))
            | inr (e, e') ↦
                let on' = subst (λ k. has q (s'.lists k).empty ≡ true) e' on in
                let on'' = subst (λ r. has r (s'.lists cl).empty ≡ true) e on' in
                subst (λ r. s'.objects r ≡ 0) (sym e) (t.here_none on'')
          ];
      slot = λ dl i lt' in_use.
          let used = kept_number (λ l. l.used_slots) dl t.used_slots in
          let entry = kept_number (λ l. l.tc_slots) dl t.slots in
          IsSlot-frame at at' s s' dl i (ap (λ f. f i) entry) (t.slotted dl i) (t.slot_memory dl i)
            (v.slot dl i lt' (omega (arith, used)));
      used = λ dl i a on.
          let used = kept_number (λ l. l.used_slots) dl t.used_slots in
          omega (arith, used, v.used dl i a (sym (t.slotted dl i a) ∙ on));
      room = λ dl lt'.
          let used = kept_number (λ l. l.used_slots) dl t.used_slots in
          let size = kept_number (λ l. l.cache_size) dl t.cache_size in
          omega (arith, used, size, v.room dl lt');
      most = λ dl lt'.
          let size = kept_number (λ l. l.cache_size) dl t.cache_size in
          let most = kept_number (λ l. l.max_cache_size) dl t.max_cache_size in
          omega (arith, size, most, v.most dl lt');
      origin = λ dl a lt' on. elim (t.loose dl a lt' on) [
        | inl (q, ne, was, inside) ↦ Origin-kept dl q a lt' ne was inside
        | inr (e, o) ↦ o
      ];
      bounded = t.bounded;
      home = λ q a on. elim (Bool-cases (q == p)) [
        | inl at_p ↦
            let e : q ≡ p = ground arith in
            (
              cl,
              lt,
              subst (λ r. linked P law size_of batch pages cl r s' ≡ true) (sym e)
                  (t.home a (subst (λ r. is_span r (at' a) ≡ true) e on)),
            )
        | inr other ↦
            let ne : q ≢ p = λ e. ground arith in
            let (dl, lt', was) = v.home q a (sym (t.spans q a ne) ∙ on) in
            (dl, lt', same_linked dl q ne ∙ was)
      ];
    }
