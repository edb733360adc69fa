-- ===== src/CentralFreeList/Fetched.antt =====
-- FetchFromOneSpans of src/src/central_freelist.cc.
use conan_tcmalloc.Base.{
  ℕ, suc, ◌+◌, ◌-◌, ◌%◌, ◌^◌, ◌≤◌, ◌<◌, ◌≡◌, ◌≢◌, ◌⊎◌, inl, inr, sym, ap, ◌∙◌, subst, refl, Bool,
  true, false, ◌||◌, some, List, [], ◌∷◌, ◌==◌, arith, has, length, take, drop, length-take,
  length-drop, take-append-drop, Bool-cases, if◌then◌else◌, sub64,
}
use conan_tcmalloc.PageMap.{update}
use conan_tcmalloc.LinkedList.{Memory}
use conan_tcmalloc.LinkedList.Segments.{Holds, Segment-update, has-append}
use conan_tcmalloc.LinkedList.Laws.{sll_set_next-some}
use conan_tcmalloc.LinkedList.Ranges.{
  IsLast, has-IsLast, has-take, has-drop, Disjoint-take, Distinct-take, Distinct-drop, Cut,
}
use conan_tcmalloc.PageHeap.Listed.{has-remove}
use conan_tcmalloc.CentralFreeList.{
  Pages, CentralFreeList, Store, CentralRange, unlink, prepend_empty, walk,
}
use conan_tcmalloc.CentralFreeList.Fetch.{fetch_from_span, fetch_from_one_spans}
use conan_tcmalloc.CentralFreeList.Objects.{walk-Walked}
use conan_tcmalloc.CentralFreeList.Invariant.{
  Place, given, Places, is_span, is_slot, is_given, IsPageHeap, IsSpan, Origin, IsValid,
}
use conan_tcmalloc.CentralFreeList.Places.{span-not_given, span-not_slot, span-not_other}
use conan_tcmalloc.CentralFreeList.Step.{linked_once, loose_from, Step, IsValid-step}

module _ (P : Pages) (law : IsPageHeap P) (size_of batch pages : ℕ → ℕ) (classes : ℕ) where
  -- The objects `xs` of the class were given, and were given to no one before.
  pub record Gave (cl : ℕ) (xs : List ℕ) (at at' : Places) (s s' : Store P) : Type 0 where
    pub valid : IsValid P law size_of batch pages classes at' s'
    pub given :
        (dl b : ℕ) → is_given dl (at' b) ≡ (if has b xs then cl == dl else is_given dl (at b))
    pub fresh : (dl b : ℕ) → has b xs ≡ true → is_given dl (at b) ≡ false
    pub memory : (dl b : ℕ) → is_given dl (at b) ≡ true → s'.memory b ≡ s.memory b

  -- A chain of no more than `n` objects, at least one.
  pub record IsRange (n : ℕ) (r : CentralRange P) (xs : List ℕ) : Type 0 where
    pub chain : Holds r.store.memory r.start xs
    pub last : IsLast r.end xs
    pub count : r.count ≡ length xs
    pub some_object : 0 < r.count
    pub most : r.count ≤ n

  module _ (cl p k t : ℕ) (lt : cl < classes) (at : Places) (s : Store P)
      (v : IsValid P law size_of batch pages classes at s) (on : has p (s.lists cl).nonempty ≡ true)
      (x : IsSpan P law size_of batch pages at s cl p) (le : suc k ≤ length (x.free))
      (c : Cut s.memory (s.objects p) k (x.free) t) where
    abbrev pub taken : List ℕ
    taken = take (suc k) (x.free)

    abbrev rest : List ℕ
    rest = drop (suc k) (x.free)

    abbrev pub curr : ℕ
    curr = s.memory t

    abbrev pub moved : CentralFreeList
    moved = if curr == 0 then prepend_empty p (unlink p (s.lists cl)) else s.lists cl

    abbrev pub fetched : Store P
    fetched = record s {
      lists = update s.lists cl (record moved { counter = sub64 (s.lists cl).counter (suc k) });
      objects = update s.objects p curr;
      refcount = update s.refcount p ((s.refcount p + suc k) % 2 ^ 16);
      memory = update s.memory t 0;
    }

    abbrev pub at_fetched : Places
    at_fetched b = if has b taken then given cl else at b

    taken_span : (b : ℕ) → has b taken ≡ true → is_span p (at b) ≡ true
    taken_span b h = sym (x.places b) ∙ has-take b (suc k) (x.free) h

    last_taken : has t taken ≡ true
    last_taken = has-IsLast t taken c.last

    rest_places : (b : ℕ) → has b rest ≡ is_span p (at_fetched b)
    rest_places b =
        let apart = Disjoint-take (suc k) (x.free) x.holds.distinct b in
        let both : (has b taken || has b rest) ≡ has b (x.free) =
          sym (has-append b taken rest) ∙ ap (has b) (take-append-drop (suc k) (x.free)) in
        let places = x.places b in
        elim (Bool-cases (has b taken)) [
          | inl on_taken ↦ rw on_taken (apart on_taken)
          | inr off ↦ rw off (ground (arith, both, places, off))
        ]

    fetched_span : IsSpan P law size_of batch pages at_fetched fetched cl p
    fetched_span =
        let itself : (p == p) ≡ true = ground arith in
        let off = Disjoint-take (suc k) (x.free) x.holds.distinct t last_taken in
        let lengths = length-drop (suc k) (x.free) in
        record {
          live = x.live;
          length_is = x.length_is;
          sizeclass = x.sizeclass;
          size_pos = x.size_pos;
          fits = x.fits;
          free = rest;
          holds = rw itself (record {
            chain = Segment-update s.memory curr 0 t 0 rest off c.rest;
            distinct = Distinct-drop (suc k) (x.free) x.holds.distinct;
          });
          places = rest_places;
          inside = λ b h. x.inside b (has-drop b (suc k) (x.free) h);
          count = rw itself (omega (arith, lengths, x.count, x.fits));
        }

    moved_nonempty : (q : ℕ) → q ≢ p → has q moved.nonempty ≡ has q (s.lists cl).nonempty
    moved_nonempty q ne = elim (Bool-cases (curr == 0)) [
      | inl z ↦ rw z (ground (arith, has-remove p q (s.lists cl).nonempty))
      | inr nz ↦ rw nz refl
    ]

    moved_empty : (q : ℕ) → q ≢ p → has q moved.empty ≡ has q (s.lists cl).empty
    moved_empty q ne = elim (Bool-cases (curr == 0)) [
      | inl z ↦ rw z (ground (arith, has-remove p q (s.lists cl).empty))
      | inr nz ↦ rw nz refl
    ]

    moved_caches :
        (moved.tc_slots ≡ (s.lists cl).tc_slots)
        × (moved.used_slots ≡ (s.lists cl).used_slots)
        × (moved.cache_size ≡ (s.lists cl).cache_size)
        × (moved.max_cache_size ≡ (s.lists cl).max_cache_size)
    moved_caches = elim (Bool-cases (curr == 0)) [
      | inl z ↦ rw z (refl, refl, refl, refl)
      | inr nz ↦ rw nz (refl, refl, refl, refl)
    ]

    moved_here :
        ((has p moved.nonempty || has p moved.empty) ≡ true)
        × (has p moved.nonempty ≡ true → curr ≢ 0)
        × (has p moved.empty ≡ true → curr ≡ 0)
    moved_here = elim (Bool-cases (curr == 0)) [
      | inl z ↦ rw z (
        ground arith,
        λ h. absurd (ground (arith, has-remove p p (s.lists cl).nonempty, h)),
        λ h. ground arith,
      )
      | inr nz ↦ rw nz (
        ground (arith, on),
        (λ h e. ground arith),
        λ h. absurd (v.some_free cl p lt on (v.none_free cl p lt h)),
      )
    ]

    -- Of an object that was not taken, the place is as before.
    fetched_places :
        (f : Place → Bool)
        → f (given cl) ≡ false
        → ((b : ℕ) → has b taken ≡ true → f (at b) ≡ false)
        → (b : ℕ) → f (at_fetched b) ≡ f (at b)
    fetched_places f now before b = elim (Bool-cases (has b taken)) [
      | inl h ↦ rw (h, before b h) now
      | inr off ↦ rw off refl
    ]

    fetched_memory : (b : ℕ) → is_span p (at b) ≡ false → fetched.memory b ≡ s.memory b
    fetched_memory b off =
        let on_span = taken_span t last_taken in
        elim (Bool-cases (b == t)) [
          | inl same ↦
              let e : t ≡ b = ground arith in
              absurd (cc (subst (λ k. is_span p (at k) ≡ true) e on_span, off))
          | inr other ↦ rw other refl
        ]

    fetched-Step : Step P law size_of batch pages classes cl p at at_fetched s fetched
    fetched-Step =
        let here : (cl == cl) ≡ true = ground arith in
        let itself : (p == p) ≡ true = ground arith in
        record {
          other_lists = λ dl ne. let other : (dl == cl) ≡ false = ground arith in rw other refl;
          only = linked_once P law size_of batch pages classes cl p at s v x;
          nonempty = λ q ne. rw here (moved_nonempty q ne);
          empty = λ q ne. rw here (moved_empty q ne);
          slots = rw here moved_caches.0;
          used_slots = rw here moved_caches.1;
          cache_size = rw here moved_caches.2;
          max_cache_size = rw here moved_caches.3;
          heap = λ q ne live. record {
            live_still = live;
            start = refl;
            length = refl;
            sizeclass = refl;
          };
          objects = λ q ne. ground arith;
          refcount = λ q ne. ground arith;
          spans = λ q b ne.
              fetched_places (is_span q) refl (λ a h. span-not_other p q (at a) (taken_span a h) ne)
                b;
          slotted = λ dl i b.
              fetched_places (is_slot dl i) refl
                (λ a h. span-not_slot dl i p (at a) (taken_span a h)) b;
          span_memory =
              λ q b ne h. fetched_memory b (span-not_other q p (at b) h (λ e. ne (sym e)));
          slot_memory = λ dl i b h. fetched_memory b (elim (Bool-cases (is_span p (at b))) [
            | inl also ↦ absurd (cc (span-not_slot dl i p (at b) also, h))
            | inr off ↦ off
          ]);
          here = λ linked_now. fetched_span;
          here_some = λ h. rw itself (moved_here.1 (rw here at h));
          here_none = λ h. rw itself (moved_here.2 (rw here at h));
          loose = λ dl b lt' h. elim (Bool-cases (has b taken)) [
            | inl on_taken ↦
                let h' = rw on_taken at h in
                let e : dl ≡ cl = ground arith in
                inr (
                  e,
                  subst (λ k. Origin P law size_of batch pages fetched k b) (sym e)
                      (p, rw here moved_here.0, x.inside b (has-take b (suc k) (x.free) on_taken)),
                )
            | inr off ↦
                elim (loose_from P law size_of batch pages classes cl p at s v x dl b lt'
                  (rw off at h)) [
                    | inl before ↦ inl before
                    | inr (e, in_grid) ↦ inr (
                      e,
                      subst (λ k. Origin P law size_of batch pages fetched k b) (sym e)
                          (p, rw here moved_here.0, in_grid),
                    )
                  ]
          ];
          bounded = λ dl b h. elim (Bool-cases (has b taken)) [
            | inl on_taken ↦ let h' = rw on_taken at h in subst (λ k. k < classes) (ground arith) lt
            | inr off ↦ v.bounded dl b (rw off at h)
          ];
          home = λ b h. rw here moved_here.0;
        }

    pub fetched-Gave : Gave cl taken at at_fetched s fetched
    fetched-Gave = record {
      valid =
          IsValid-step P law size_of batch pages classes cl p lt at at_fetched s fetched v
            fetched-Step;
      given = λ dl b. elim (Bool-cases (has b taken)) [ inl h ↦ rw h refl | inr off ↦ rw off refl ];
      fresh = λ dl b h. span-not_given dl p (at b) (taken_span b h);
      memory = λ dl b h. fetched_memory b (elim (Bool-cases (is_span p (at b))) [
        | inl also ↦ absurd (cc (span-not_given dl p (at b) also, h))
        | inr off ↦ off
      ]);
    }

    pub fetched-IsRange :
        (n : ℕ)
        → suc k ≤ n
        → IsRange n (record { count = suc k; start = s.objects p; end = t; store = fetched }) taken
    fetched-IsRange n most = record {
      chain = record {
        chain = c.first;
        distinct = Distinct-take (suc k) (x.free) x.holds.distinct;
      };
      last = c.last;
      count = length-take (suc k) (x.free) le;
      some_object = omega arith;
      most = most;
    }

  -- The walk along a list that is not empty.
  walked :
      (rounds p : ℕ) (free : List ℕ) (m : Memory)
      → Holds m p free
      → p ≢ 0
      → (k : ℕ) × (t : ℕ) × (suc k ≤ length free)
        × (k ≤ rounds)
        × Cut m p k free t
        × (walk rounds 0 p m ≡ some (suc k, t, m t))
  walked rounds p [] m h ne = absurd (ne h.chain)
  walked rounds p (y ∷ ys) m h ne =
      let (k, t, le, lr, c, w, stop) = walk-Walked rounds p y ys m h.chain h.distinct in
      (k, t, omega arith, lr, c, w)

  -- What FetchFromOneSpans of the store gives: nothing, and the store is as it was, or a range.
  abbrev pub Fetches : (cl n : ℕ) → Places → Store P → CentralRange P → Type 0
  Fetches cl n at s r =
      ((r.count ≡ 0) × (r.store ≡ s))
      ⊎ ((xs : List ℕ) × (at' : Places) × IsRange n r xs × Gave cl xs at at' s r.store)

  nonempty_cases : (ps : List ℕ) → (ps ≡ []) ⊎ ((p : ℕ) × (qs : List ℕ) × (ps ≡ p ∷ qs))
  nonempty_cases [] = inl refl
  nonempty_cases (p ∷ qs) = inr (p, qs, refl)

  fetch_from_span-Fetches :
      (cl n p : ℕ) (at : Places) (s : Store P)
      → cl < classes
      → 0 < n
      → IsValid P law size_of batch pages classes at s
      → has p (s.lists cl).nonempty ≡ true
      → (r : CentralRange P) × (fetch_from_span P size_of batch pages cl n p s ≡ some r)
        × Fetches cl n at s r
        × (0 < r.count)
  unfolding fetch_from_span
  fetch_from_span-Fetches cl n p at s lt pos v on =
      let x = v.span cl p lt (rw on refl) in
      let (k, t, le, lr, c, w) =
        walked (n - 1) (s.objects p) (x.free) s.memory x.holds (v.some_free cl p lt on) in
      (
        record {
          count = suc k;
          start = s.objects p;
          end = t;
          store = fetched cl p k t lt at s v on x le c;
        },
        rw (w, sll_set_next-some t 0 s.memory c.not_null) refl,
        inr (
          taken cl p k t lt at s v on x le c,
          at_fetched cl p k t lt at s v on x le c,
          fetched-IsRange cl p k t lt at s v on x le c n (omega arith),
          fetched-Gave cl p k t lt at s v on x le c,
        ),
        omega arith,
      )

  -- FetchFromOneSpans always returns: a range of objects, if a span has some.
  pub fetch_from_one_spans-Fetches :
      (cl n : ℕ) (at : Places) (s : Store P)
      → cl < classes
      → 0 < n
      → IsValid P law size_of batch pages classes at s
      → (r : CentralRange P) × (fetch_from_one_spans P size_of batch pages cl n s ≡ some r)
        × Fetches cl n at s r
        × ((p : ℕ) → has p (s.lists cl).nonempty ≡ true → 0 < r.count)
  unfolding fetch_from_one_spans
  fetch_from_one_spans-Fetches cl n at s lt pos v = elim (nonempty_cases (s.lists cl).nonempty) [
    | inl e ↦ (
      record { count = 0; start = 0; end = 0; store = s },
      rw (e, fetch_from_one_spans) refl,
      inl (refl, refl),
      λ p h. let h' = rw e at h in absurd (cc h'),
    )
    | inr (p, ps, e) ↦
        let on : has p (s.lists cl).nonempty ≡ true = rw e (ground arith) in
        let (r, is, f, pos') = fetch_from_span-Fetches cl n p at s lt pos v on in
        (r, rw (e, fetch_from_one_spans) is, f, λ q h. pos')
  ]
