-- ===== src/CentralFreeList/Released.antt =====
-- ReleaseToSpans and ReleaseListToSpans of src/src/central_freelist.cc.
use conan_tcmalloc.Base.{
  ℕ, ◌+◌, ◌-◌, ◌*◌, ◌%◌, ◌^◌, ◌≤◌, ◌<◌, ◌≡◌, ◌≢◌, ◌⊎◌, inl, inr, sym, ◌∙◌, subst, refl, true, false,
  ◌||◌, some, List, [], ◌∷◌, ◌==◌, arith, has, length, Bool-cases, if◌then◌else◌, word,
}
use conan_tcmalloc.PageMap.{update}
use conan_tcmalloc.LinkedList.Segments.{Segment-update}
use conan_tcmalloc.LinkedList.Laws.{sll_set_next-some}
use conan_tcmalloc.PageHeap.FreeLists.{remove}
use conan_tcmalloc.PageHeap.Listed.{has-remove}
use conan_tcmalloc.PageHeap.State.{page_shift}
use conan_tcmalloc.CentralFreeList.{
  Pages, CentralFreeList, Store, with_central, unlink, prepend_nonempty,
}
use conan_tcmalloc.CentralFreeList.Release.{drop_span, release_to_spans}
use conan_tcmalloc.CentralFreeList.Objects.{has-grid, length-grid, length-within}
use conan_tcmalloc.CentralFreeList.Invariant.{
  elsewhere, in_span, Places, is_span, is_slot, is_given, IsPageHeap, capacity, objects_of, linked,
  IsSpan, Origin, IsValid,
}
use conan_tcmalloc.CentralFreeList.Places.{
  given-not_span, given-not_slot, span-not_given, span-not_slot, span-not_other,
}
use conan_tcmalloc.CentralFreeList.Step.{
  descriptor-object, linked_once, loose_from, Step, IsValid-step,
}

module _ (P : Pages) (law : IsPageHeap P) (size_of batch pages : ℕ → ℕ) (classes : ℕ) where
  -- The objects `xs` were taken back; those that threads have are untouched.
  pub record TookBack (xs : List ℕ) (at at' : Places) (s s' : Store P) : Type 0 where
    pub valid : IsValid P law size_of batch pages classes at' s'
    pub given : (dl b : ℕ) → is_given dl (at' b) ≡ (if has b xs then false else is_given dl (at b))
    pub memory : (dl b : ℕ) → is_given dl (at' b) ≡ true → s'.memory b ≡ s.memory b

  module _ (cl a p : ℕ) (lt : cl < classes) (at : Places) (s : Store P)
      (v : IsValid P law size_of batch pages classes at s) (mine : is_given cl (at a) ≡ true)
      (on : linked P law size_of batch pages cl p s ≡ true)
      (inside : has a (objects_of P law size_of batch pages cl p s.heap) ≡ true) where
    x : IsSpan P law size_of batch pages at s cl p
    x = v.span cl p lt on

    abbrev left : ℕ
    left = (s.refcount p + 2 ^ 16 - 1) % 2 ^ 16

    new_object : has a (x.free) ≡ false
    new_object = x.places a ∙ given-not_span cl p (at a) mine

    not_null : a ≢ 0
    not_null e =
        let b = has-grid _ _ _ a inside in
        absurd (omega (arith, b.0, law.start_pos s.heap p x.live))

    some_room : length (a ∷ x.free) ≤ capacity P law size_of batch pages cl
    some_room =
        let l =
          length-grid (capacity P law size_of batch pages cl)
            (P.span_start p s.heap * 2 ^ page_shift) (size_of cl) in
        let w =
          length-within (a ∷ x.free) (objects_of P law size_of batch pages cl p s.heap)
            (new_object, x.holds.distinct)
            (λ b h. elim (Bool-cases (b == a)) [
              | inl here ↦
                  let e : a ≡ b = ground arith in
                  subst (λ k. has k (objects_of P law size_of batch pages cl p s.heap) ≡ true) e
                    inside
              | inr other ↦ x.inside b (ground arith)
            ]) in
        omega (arith, l, w)

    left_is : left + 1 ≡ s.refcount p
    left_is = omega (arith, x.count, x.fits, some_room)

    -- With the last object back, all objects of the span are on its list.
    all_back :
        left ≡ 0
        → (b : ℕ) → has b (objects_of P law size_of batch pages cl p s.heap) ≡ true
        → has b (a ∷ x.free) ≡ true
    all_back none_left b in_grid = elim (Bool-cases (has b (a ∷ x.free))) [
      | inl back ↦ back
      | inr out ↦
          let l =
            length-grid (capacity P law size_of batch pages cl)
              (P.span_start p s.heap * 2 ^ page_shift) (size_of cl) in
          let w =
            length-within (b ∷ a ∷ x.free) (objects_of P law size_of batch pages cl p s.heap)
              (out, (new_object, x.holds.distinct))
              (λ c h. elim (Bool-cases (c == b)) [
                | inl here ↦
                    let e : b ≡ c = ground arith in
                    subst (λ k. has k (objects_of P law size_of batch pages cl p s.heap) ≡ true) e
                      in_grid
                | inr other ↦ elim (Bool-cases (c == a)) [
                  | inl here ↦
                      let e : a ≡ c = ground arith in
                      subst (λ k. has k (objects_of P law size_of batch pages cl p s.heap) ≡ true) e
                        inside
                  | inr other' ↦ x.inside c (ground arith)
                ]
              ]) in
          absurd (omega (arith, l, w, x.count, left_is))
    ]

    abbrev moved : CentralFreeList
    moved = if s.objects p == 0 then prepend_nonempty p (unlink p (s.lists cl)) else s.lists cl

    moved_nonempty : (q : ℕ) → q ≢ p → has q moved.nonempty ≡ has q (s.lists cl).nonempty
    moved_nonempty q ne = elim (Bool-cases (s.objects p == 0)) [
      | inl z ↦ rw z (ground (arith, has-remove p q (s.lists cl).nonempty))
      | inr nz ↦ rw nz refl
    ]

    moved_empty : (q : ℕ) → q ≢ p → has q moved.empty ≡ has q (s.lists cl).empty
    moved_empty q ne = elim (Bool-cases (s.objects p == 0)) [
      | inl z ↦ rw z (ground (arith, has-remove p q (s.lists cl).empty))
      | inr nz ↦ rw nz refl
    ]

    moved_here : (has p moved.nonempty ≡ true) × (has p moved.empty ≡ false)
    moved_here = elim (Bool-cases (s.objects p == 0)) [
      | inl z ↦ rw z (ground arith, ground (arith, has-remove p p (s.lists cl).empty))
      | inr nz ↦
          let off : has p (s.lists cl).empty ≡ false =
            elim (Bool-cases (has p (s.lists cl).empty)) [
              | inl e ↦ absurd (ground (arith, v.none_free cl p lt e))
              | inr e ↦ e
            ] in
          rw nz (ground (arith, on, off), off)
    ]

    moved_caches :
        (moved.tc_slots ≡ (s.lists cl).tc_slots)
        × (moved.used_slots ≡ (s.lists cl).used_slots)
        × (moved.cache_size ≡ (s.lists cl).cache_size)
        × (moved.max_cache_size ≡ (s.lists cl).max_cache_size)
    moved_caches = elim (Bool-cases (s.objects p == 0)) [
      | inl z ↦ rw z (refl, refl, refl, refl)
      | inr nz ↦ rw nz (refl, refl, refl, refl)
    ]

    abbrev counted : CentralFreeList
    counted = record moved { counter = ((s.lists cl).counter + 1) % word }

    abbrev pushed : Store P
    pushed = record (with_central cl counted s) {
      refcount = update s.refcount p left;
      objects = update s.objects p a;
      memory = update s.memory a (s.objects p);
    }

    abbrev at_pushed : Places
    at_pushed = update at a (in_span p)

    place_here : (b : ℕ) → is_span p (at_pushed b) ≡ has b (a ∷ x.free)
    place_here b = elim (Bool-cases (b == a)) [
      | inl here ↦ rw here (ground arith)
      | inr other ↦ rw other (sym (x.places b))
    ]

    -- The span after the push.
    pushed_span : IsSpan P law size_of batch pages at_pushed pushed cl p
    pushed_span =
        let itself : (p == p) ≡ true = ground arith in
        let here : (a == a) ≡ true = ground arith in
        record {
          live = x.live;
          length_is = x.length_is;
          sizeclass = x.sizeclass;
          size_pos = x.size_pos;
          fits = x.fits;
          free = a ∷ x.free;
          holds = record {
            chain = (
              rw itself refl,
              not_null,
              rw here (
                  Segment-update s.memory (s.objects p) 0 a (s.objects p) x.free new_object
                    x.holds.chain),
            );
            distinct = (new_object, x.holds.distinct);
          };
          places = λ b. sym (place_here b);
          inside = λ b h. elim (Bool-cases (b == a)) [
            | inl same ↦
                let e : a ≡ b = ground arith in
                subst (λ k. has k (objects_of P law size_of batch pages cl p s.heap) ≡ true) e
                  inside
            | inr other ↦ x.inside b (ground arith)
          ];
          count = rw itself (omega (arith, left_is, x.count));
        }

    pushed-Step : Step P law size_of batch pages classes cl p at at_pushed s pushed
    pushed-Step =
        let itself : (p == p) ≡ true = ground arith in
        let here : (cl == cl) ≡ true = ground arith in
        record {
          other_lists = λ dl ne. let other : (dl == cl) ≡ false = ground arith in rw other refl;
          only = linked_once P law size_of batch pages classes cl p at s v x;
          nonempty = λ q ne. rw here (moved_nonempty q ne);
          empty = λ q ne. rw here (moved_empty q ne);
          slots = rw here moved_caches.0;
          used_slots = rw here moved_caches.1;
          cache_size = rw here moved_caches.2;
          max_cache_size = rw here moved_caches.3;
          heap = λ q ne live. record {
            live_still = live;
            start = refl;
            length = refl;
            sizeclass = refl;
          };
          objects = λ q ne. ground arith;
          refcount = λ q ne. ground arith;
          spans = λ q b ne. elim (Bool-cases (b == a)) [
            | inl same ↦
                let e : a ≡ b = ground arith in
                let off =
                  subst (λ k. is_span q (at k) ≡ false) e (given-not_span cl q (at a) mine) in
                rw (same, off) (ground arith)
            | inr other ↦ rw other refl
          ];
          slotted = λ dl i b. elim (Bool-cases (b == a)) [
            | inl same ↦
                let e : a ≡ b = ground arith in
                let off =
                  subst (λ k. is_slot dl i (at k) ≡ false) e (given-not_slot cl dl i (at a) mine) in
                rw (same, off) refl
            | inr other ↦ rw other refl
          ];
          span_memory = λ q b ne h. elim (Bool-cases (b == a)) [
            | inl same ↦
                let e : a ≡ b = ground arith in
                let off =
                  subst (λ k. is_span q (at k) ≡ false) e (given-not_span cl q (at a) mine) in
                absurd (cc (off, h))
            | inr other ↦ rw other refl
          ];
          slot_memory = λ dl i b h. elim (Bool-cases (b == a)) [
            | inl same ↦
                let e : a ≡ b = ground arith in
                let off =
                  subst (λ k. is_slot dl i (at k) ≡ false) e (given-not_slot cl dl i (at a) mine) in
                absurd (cc (off, h))
            | inr other ↦ rw other refl
          ];
          here = λ linked_now. pushed_span;
          here_some = λ listed. rw itself not_null;
          here_none = λ listed.
              let off = moved_here.1 in let on' = rw here at listed in absurd (cc (off, on'));
          loose = λ dl b lt' h. elim (Bool-cases (b == a)) [
            | inl same ↦ let h' = rw same at h in absurd (cc h')
            | inr other ↦
                elim (loose_from P law size_of batch pages classes cl p at s v x dl b lt'
                  (rw other at h)) [
                    | inl before ↦ inl before
                    | inr (e, in_grid) ↦ inr (
                      e,
                      subst (λ k. Origin P law size_of batch pages pushed k b) (sym e)
                          (p, rw (here, moved_here.0) refl, in_grid),
                    )
                  ]
          ];
          bounded = λ dl b h. elim (Bool-cases (b == a)) [
            | inl same ↦ let h' = rw same at h in absurd (cc h')
            | inr other ↦ v.bounded dl b (rw other at h)
          ];
          home = λ b h. rw (here, moved_here.0) refl;
        }

    given_after :
        (at' : Places)
        → (at' a ≡ elsewhere) ⊎ (at' a ≡ in_span p)
        → ((b : ℕ) → b ≢ a → (at' b ≡ at b) ⊎ ((at' b ≡ elsewhere) × (is_span p (at b) ≡ true)))
        → (dl b : ℕ) → is_given dl (at' b) ≡ (if has b (a ∷ []) then false else is_given dl (at b))
    given_after at' gone others dl b = elim (Bool-cases (b == a)) [
      | inl same ↦
          let e : a ≡ b = ground arith in
          rw same (
            subst (λ k. is_given dl (at' k) ≡ false) e
              (elim gone [ inl e' ↦ rw e' refl | inr e' ↦ rw e' refl ]))
      | inr other ↦ rw other (elim (others b (λ e. ground arith)) [
        | inl e ↦ rw e refl
        | inr (e, was) ↦ rw (e, span-not_given dl p (at b) was) refl
      ])
    ]

    pushed-TookBack : TookBack (a ∷ []) at at_pushed s pushed
    pushed-TookBack = record {
      valid =
          IsValid-step P law size_of batch pages classes cl p lt at at_pushed s pushed v
            pushed-Step;
      given = given_after at_pushed (inr (ground arith)) (λ b ne. inl (ground arith));
      memory = λ dl b h. elim (Bool-cases (b == a)) [
        | inl same ↦ let h' = rw same at h in absurd (cc h')
        | inr other ↦ rw other refl
      ];
    }

    abbrev dropped : Store P
    dropped = drop_span P size_of batch classes cl p counted s

    abbrev at_dropped : Places
    at_dropped b = if (b == a) || is_span p (at b) then elsewhere else at b

    -- Where something stays.
    dropped_at :
        (b : ℕ)
        → (at_dropped b ≡ elsewhere)
          ⊎ ((at_dropped b ≡ at b) × (b ≢ a) × (is_span p (at b) ≡ false))
    dropped_at b = elim (Bool-cases ((b == a) || is_span p (at b))) [
      | inl gone ↦ rw gone (inl refl)
      | inr stays ↦ rw stays (inr (refl, (λ e. ground arith), ground arith))
    ]

    none_linked : linked P law size_of batch pages cl p dropped ≡ false
    none_linked =
        let here : (cl == cl) ≡ true = ground arith in
        let itself : (p == p) ≡ true = ground arith in
        rw (here, has-remove p p moved.nonempty, has-remove p p moved.empty, itself) refl

    dropped_keeps : (q : ℕ) → q ≢ p → (xs : List ℕ) → has q (remove p xs) ≡ has q xs
    dropped_keeps q ne xs = ground (arith, has-remove p q xs)

    dropped-Step : left ≡ 0 → Step P law size_of batch pages classes cl p at at_dropped s dropped
    dropped-Step none_left =
        let here : (cl == cl) ≡ true = ground arith in
        record {
          other_lists = λ dl ne. let other : (dl == cl) ≡ false = ground arith in rw other refl;
          only = linked_once P law size_of batch pages classes cl p at s v x;
          nonempty = λ q ne. rw here (dropped_keeps q ne moved.nonempty ∙ moved_nonempty q ne);
          empty = λ q ne. rw here (dropped_keeps q ne moved.empty ∙ moved_empty q ne);
          slots = rw here moved_caches.0;
          used_slots = rw here moved_caches.1;
          cache_size = rw here moved_caches.2;
          max_cache_size = rw here moved_caches.3;
          heap = λ q ne live. law.delete_keeps s.heap p q x.live live ne;
          objects = λ q ne. refl;
          refcount = λ q ne. ground arith;
          spans = λ q b ne. elim (Bool-cases (b == a)) [
            | inl same ↦
                let e : a ≡ b = ground arith in
                let off =
                  subst (λ k. is_span q (at k) ≡ false) e (given-not_span cl q (at a) mine) in
                rw (same, off) refl
            | inr other ↦ elim (Bool-cases (is_span p (at b))) [
              | inl in_p ↦ rw (other, in_p, span-not_other p q (at b) in_p ne) refl
              | inr not_p ↦ rw (other, not_p) refl
            ]
          ];
          slotted = λ dl i b. elim (Bool-cases (b == a)) [
            | inl same ↦
                let e : a ≡ b = ground arith in
                let off =
                  subst (λ k. is_slot dl i (at k) ≡ false) e (given-not_slot cl dl i (at a) mine) in
                rw (same, off) refl
            | inr other ↦ elim (Bool-cases (is_span p (at b))) [
              | inl in_p ↦ rw (other, in_p, span-not_slot dl i p (at b) in_p) refl
              | inr not_p ↦ rw (other, not_p) refl
            ]
          ];
          span_memory = λ q b ne h. refl;
          slot_memory = λ dl i b h. refl;
          here = λ linked_now. absurd (cc (none_linked, linked_now));
          here_some = λ listed. absurd (let off = none_linked in ground (arith, off, listed));
          here_none = λ listed. absurd (let off = none_linked in ground (arith, off, listed));
          loose = λ dl b lt' h. elim (dropped_at b) [
            | inl e ↦ let h' = rw e at h in absurd (cc h')
            | inr (e, other, not_p) ↦
                elim (loose_from P law size_of batch pages classes cl p at s v x dl b lt'
                  (rw e at h)) [
                    | inl before ↦ inl before
                    | inr (same, in_grid) ↦
                        let back = all_back none_left b in_grid in
                        let free : has b (x.free) ≡ true = ground arith in
                        absurd (cc (x.places b, free, not_p))
                  ]
          ];
          bounded = λ dl b h. elim (dropped_at b) [
            | inl e ↦ let h' = rw e at h in absurd (cc h')
            | inr (e, other, not_p) ↦ v.bounded dl b (rw e at h)
          ];
          home = λ b h. elim (dropped_at b) [
            | inl e ↦ let h' = rw e at h in absurd (cc h')
            | inr (e, other, not_p) ↦ let h' = rw e at h in absurd (cc (h', not_p))
          ];
        }

    dropped-TookBack : left ≡ 0 → TookBack (a ∷ []) at at_dropped s dropped
    dropped-TookBack none_left = record {
      valid =
          IsValid-step P law size_of batch pages classes cl p lt at at_dropped s dropped v
            (dropped-Step none_left);
      given = given_after at_dropped (inl (ground arith)) (λ b ne. elim (dropped_at b) [
        | inl e ↦ elim (Bool-cases (is_span p (at b))) [
          | inl in_p ↦ inr (e, in_p)
          | inr not_p ↦ inl (let other : (b == a) ≡ false = ground arith in rw (other, not_p) refl)
        ]
        | inr (e, other, not_p) ↦ inl e
      ]);
      memory = λ dl b h. refl;
    }

    pub release_here :
        (at' : Places) × (s' : Store P) × (release_to_spans P size_of batch classes cl a s
          ≡ some s')
        × TookBack (a ∷ []) at at' s s'
    unfolding release_to_spans
    release_here =
        let found =
          descriptor-object P law size_of batch pages s.heap cl p a x.live x.length_is x.size_pos
            inside in
        let not_zero : (p == 0) ≡ false = let ne = law.not_null s.heap p x.live in ground arith in
        elim (Bool-cases (left == 0)) [
          | inl last ↦ (
            at_dropped,
            dropped,
            rw (found, not_zero, last) refl,
            dropped-TookBack (ground arith),
          )
          | inr more ↦ (
            at_pushed,
            pushed,
            rw (found, not_zero, more, sll_set_next-some a (s.objects p) s.memory not_null) refl,
            pushed-TookBack,
          )
        ]
