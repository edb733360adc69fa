-- ===== src/CentralFreeList/Inserted.antt =====
-- MakeCacheSpace and InsertRange of src/src/central_freelist.cc.
use conan_tcmalloc.Base.{
  ℕ, ◌+◌, ◌<◌, ◌≡◌, ◌⊎◌, inl, inr, sym, ◌∙◌, subst, refl, Bool, true, false, ◌&&◌, some, List, ltb,
  ◌==◌, arith, has, length, Bool-cases,
}
use conan_tcmalloc.PageMap.{update}
use conan_tcmalloc.LinkedList.Segments.{Holds, Segment-frame}
use conan_tcmalloc.LinkedList.Ranges.{IsLast}
use conan_tcmalloc.CentralFreeList.{Pages, CentralFreeList, Store, with_central}
use conan_tcmalloc.CentralFreeList.Release.{
  next_class, evict_random_size_class, evict_twice, make_cache_space, fill_slot, insert_range,
}
use conan_tcmalloc.CentralFreeList.Invariant.{
  Places, is_slot, is_given, IsPageHeap, IsSlot, IsValid,
}
use conan_tcmalloc.CentralFreeList.Places.{given-is_loose, given-not_span, given-not_slot}
use conan_tcmalloc.CentralFreeList.Released.{TookBack}
use conan_tcmalloc.CentralFreeList.Lists.{release_list-TookBack}
use conan_tcmalloc.CentralFreeList.Slots.{
  Recached, IsValid-Recached, slot_kept, limit-Recached, to_slot,
}
use conan_tcmalloc.CentralFreeList.Shrunk.{
  Undisturbed, Tidies, unchanged, Undisturbed-trans, shrink_cache-Tidies,
}

module _ (P : Pages) (law : IsPageHeap P) (size_of batch pages : ℕ → ℕ) (classes : ℕ)
    (some_class : 0 < classes) where
  -- The counter is not looked at by the invariant.
  counter_moved :
      (n : ℕ) (at : Places) (s : Store P)
      → IsValid P law size_of batch pages classes at s
      → IsValid P law size_of batch pages classes at (record s { race_counter = n })
  counter_moved n at s v = record {
    span = λ cl p lt on.
        let x = v.span cl p lt on in
        record {
          live = x.live;
          length_is = x.length_is;
          sizeclass = x.sizeclass;
          size_pos = x.size_pos;
          fits = x.fits;
          free = x.free;
          holds = x.holds;
          places = x.places;
          inside = x.inside;
          count = x.count;
        };
    some_free = v.some_free;
    none_free = v.none_free;
    slot = λ cl i lt in_use.
        let x = v.slot cl i lt in_use in
        record {
          objects = x.objects;
          holds = x.holds;
          last = x.last;
          count = x.count;
          places = x.places;
        };
    used = v.used;
    room = v.room;
    most = v.most;
    origin = v.origin;
    bounded = v.bounded;
    home = v.home;
  }

  next_class-lt : (t : ℕ) → (next_class P size_of batch classes t).0 < classes
  next_class-lt t = ground arith

  evict-Tidies :
      (locked : ℕ) (force : Bool) (at : Places) (s : Store P)
      → IsValid P law size_of batch pages classes at s
      → (r : Bool) × (s' : Store P) × (evict_random_size_class P size_of batch classes locked force
            s
          ≡ some (r, s'))
        × Tidies P law size_of batch pages classes at s r s'
  unfolding evict_random_size_class
  evict-Tidies locked force at s v =
      let (t, n) = next_class P size_of batch classes s.race_counter in
      let lt : (next_class P size_of batch classes s.race_counter).0 < classes =
        next_class-lt s.race_counter in
      let s₁ = record s { race_counter = n } in
      let v₁ = counter_moved n at s v in
      elim (Bool-cases (t == locked)) [
        | inl same ↦ (
          false,
          s₁,
          rw same refl,
          (at, record { valid = v₁; given = λ dl b. refl; memory = λ dl b h. refl }),
        )
        | inr other ↦
            let (r, s', is, (at', u)) =
              shrink_cache-Tidies P law size_of batch pages classes t force at s₁ lt v₁ in
            (
              r,
              s',
              rw other is,
              (at', record { valid = u.valid; given = u.given; memory = u.memory }),
            )
      ]

  evict_twice-Tidies :
      (cl : ℕ) (at : Places) (s : Store P)
      → IsValid P law size_of batch pages classes at s
      → (r : Bool) × (s' : Store P) × (evict_twice P size_of batch classes cl s ≡ some (r, s'))
        × Tidies P law size_of batch pages classes at s r s'
  unfolding evict_twice
  evict_twice-Tidies cl at s v =
      let (r, s₁, is, (at₁, u)) = evict-Tidies cl false at s v in
      elim (Bool-cases r) [
        | inl done ↦ (true, s₁, rw (is, done) refl, (at₁, u))
        | inr again ↦
            let (r', s₂, is', (at₂, u')) = evict-Tidies cl true at₁ s₁ u.valid in
            (
              r',
              s₂,
              rw (is, again) is',
              (at₂, Undisturbed-trans P law size_of batch pages classes at at₁ at₂ s s₁ s₂ u u'),
            )
      ]

  -- MakeCacheSpace always returns; true means that a slot is free.
  make_cache_space-Tidies :
      (cl : ℕ) (at : Places) (s : Store P)
      → cl < classes
      → IsValid P law size_of batch pages classes at s
      → (r : Bool) × (s' : Store P) × (make_cache_space P size_of batch classes cl s ≡ some (r, s'))
        × Tidies P law size_of batch pages classes at s r s'
        × (r ≡ true → (s'.lists cl).used_slots < (s'.lists cl).cache_size)
  unfolding make_cache_space
  make_cache_space-Tidies cl at s lt v =
      elim (Bool-cases (ltb (s.lists cl).used_slots (s.lists cl).cache_size)) [
        | inl space ↦ (
          true,
          s,
          rw space refl,
          (at, unchanged P law size_of batch pages classes at s v),
          λ e. ground arith,
        )
        | inr full ↦ elim (Bool-cases ((s.lists cl).cache_size == (s.lists cl).max_cache_size)) [
          | inl most ↦ (
            false,
            s,
            rw (full, most) refl,
            (at, unchanged P law size_of batch pages classes at s v),
            λ e. cc,
          )
          | inr less ↦
              let (r, s₁, is, (at₁, u)) = evict_twice-Tidies cl at s v in
              elim (Bool-cases (r && ltb (s₁.lists cl).cache_size (s₁.lists cl).max_cache_size)) [
                | inr no_room ↦ (false, s₁, rw (full, less, is, no_room) refl, (at₁, u), λ e. cc)
                | inl larger ↦
                    let n = (s₁.lists cl).cache_size + 1 in
                    let l = record (s₁.lists cl) { cache_size = n } in
                    let room = u.valid.room cl lt in
                    let below : (s₁.lists cl).cache_size < (s₁.lists cl).max_cache_size =
                      ground arith in
                    let valid =
                      IsValid-Recached P law size_of batch pages classes cl at₁ at₁ s₁ l u.valid (
                        limit-Recached P law size_of batch pages classes cl n at₁ s₁ lt u.valid
                          (omega arith) (omega arith)) in
                    let here : (cl == cl) ≡ true = ground arith in
                    (
                      true,
                      with_central cl l s₁,
                      rw (full, less, is, larger) refl,
                      (at₁, record { valid = valid; given = u.given; memory = u.memory }),
                      λ e. rw here (omega arith),
                    )
              ]
        ]
      ]

  -- A chain of a batch of objects that were given goes to a slot.
  module _ (cl start end : ℕ) (xs : List ℕ) (at : Places) (s : Store P) (lt : cl < classes)
      (v : IsValid P law size_of batch pages classes at s) (chain : Holds s.memory start xs)
      (last : IsLast end xs) (count : batch cl ≡ length xs)
      (mine : (a : ℕ) → has a xs ≡ true → is_given cl (at a) ≡ true)
      (space : (s.lists cl).used_slots < (s.lists cl).cache_size) where
    abbrev used_slots : ℕ
    used_slots = (s.lists cl).used_slots

    abbrev filled : CentralFreeList
    filled = record (s.lists cl) {
      tc_slots = update (s.lists cl).tc_slots used_slots (record { head = start; tail = end });
      used_slots = used_slots + 1;
    }

    abbrev at_filled : Places
    at_filled = to_slot P law size_of batch pages classes cl used_slots xs at

    new_slot : IsSlot P law size_of batch pages at_filled (with_central cl filled s) cl used_slots
    new_slot =
        let here : (cl == cl) ≡ true = ground arith in
        let itself : (used_slots == used_slots) ≡ true = ground arith in
        record {
          objects = xs;
          holds = rw (here, itself) chain;
          last = rw (here, itself) last;
          count = count;
          places = λ b. elim (Bool-cases (has b xs)) [
            | inl on ↦ rw on (rw (here, itself) refl)
            | inr off ↦ rw off (elim (Bool-cases (is_slot cl used_slots (at b))) [
              | inl there ↦ absurd (omega (arith, v.used cl used_slots b there))
              | inr not_there ↦ rw not_there refl
            ])
          ];
        }

    filled-Recached : Recached P law size_of batch pages classes cl at at_filled s filled
    filled-Recached = record {
      nonempty = refl;
      empty = refl;
      room = omega arith;
      most = v.most cl lt;
      spans = λ q b. elim (Bool-cases (has b xs)) [
        | inl on ↦ rw (on, given-not_span cl q (at b) (mine b on)) refl
        | inr off ↦ rw off refl
      ];
      loose = λ dl b. elim (Bool-cases (has b xs)) [
        | inl on ↦ rw (on, given-is_loose cl dl (at b) (mine b on)) refl
        | inr off ↦ rw off refl
      ];
      others = λ dl i b ne. elim (Bool-cases (has b xs)) [
        | inl on ↦ rw (on, given-not_slot cl dl i (at b) (mine b on)) (ground arith)
        | inr off ↦ rw off refl
      ];
      slot = λ i in_use. elim (Bool-cases (i == used_slots)) [
        | inl same ↦
            let e : used_slots ≡ i = ground arith in
            subst (IsSlot P law size_of batch pages at_filled (with_central cl filled s) cl) e
              new_slot
        | inr other ↦
            slot_kept P law size_of batch pages classes cl i at at_filled s filled (rw other refl)
              (λ b. elim (Bool-cases (has b xs)) [
                | inl on ↦ rw (on, given-not_slot cl cl i (at b) (mine b on)) (ground arith)
                | inr off ↦ rw off refl
              ])
              (v.slot cl i lt (ground arith))
      ];
      used = λ i b h. elim (Bool-cases (has b xs)) [
        | inl on ↦ let h' = rw on at h in ground arith
        | inr off ↦ let below = v.used cl i b (rw off at h) in omega arith
      ];
    }

    filled-TookBack :
        TookBack P law size_of batch pages classes xs at at_filled s (with_central cl filled s)
    filled-TookBack = record {
      valid =
          IsValid-Recached P law size_of batch pages classes cl at at_filled s filled v
            filled-Recached;
      given = λ dl b. elim (Bool-cases (has b xs)) [ inl on ↦ rw on refl | inr off ↦ rw off refl ];
      memory = λ dl b h. refl;
    }

  TookBack-after :
      (xs : List ℕ) (at₀ at₁ at₂ : Places) (s₀ s₁ s₂ : Store P)
      → Undisturbed P law size_of batch pages classes at₀ at₁ s₀ s₁
      → TookBack P law size_of batch pages classes xs at₁ at₂ s₁ s₂
      → TookBack P law size_of batch pages classes xs at₀ at₂ s₀ s₂
  TookBack-after xs at₀ at₁ at₂ s₀ s₁ s₂ u t = record {
    valid = t.valid;
    given = λ dl b. ground (arith, t.given dl b, u.given dl b);
    memory = λ dl b h.
        let before : is_given dl (at₁ b) ≡ true = ground (arith, t.given dl b, h) in
        t.memory dl b h ∙ u.memory dl b (sym (u.given dl b) ∙ before);
  }

  -- For central lists that are in order, over a page heap with the laws, InsertRange of a chain of
  -- objects of the class that threads have always returns, for a batch of at least one. Exactly
  -- these objects are no longer with a thread, nothing else that threads have is touched, and the
  -- lists are in order again.
  pub insert_range-TookBack :
      (cl start end : ℕ) (xs : List ℕ) (at : Places) (s : Store P)
      → cl < classes
      → 0 < batch cl
      → IsValid P law size_of batch pages classes at s
      → Holds s.memory start xs
      → (length xs ≡ 0) ⊎ IsLast end xs
      → ((a : ℕ) → has a xs ≡ true → is_given cl (at a) ≡ true)
      → (at' : Places) × (s' : Store P) × (insert_range P size_of batch classes cl start end
            (length xs)
            s
          ≡ some s')
        × TookBack P law size_of batch pages classes xs at at' s s'
  unfolding insert_range
  insert_range-TookBack cl start end xs at s lt pos v chain last mine =
      elim (Bool-cases (length xs == batch cl)) [
        | inr part ↦
            let (at', s', is, t) =
              release_list-TookBack P law size_of batch pages classes (length xs + 1) cl start xs at
                s lt v chain.chain chain.distinct mine (omega arith) in
            (at', s', rw part is, t)
        | inl whole ↦
            let (r, s₁, is₁, (at₁, u), space) = make_cache_space-Tidies cl at s lt v in
            let mine₁ : (a : ℕ) → has a xs ≡ true → is_given cl (at₁ a) ≡ true =
              λ a h. u.given cl a ∙ mine a h in
            let chain₁ : Holds s₁.memory start xs = record {
              chain =
                  Segment-frame s.memory s₁.memory start 0 xs (λ a h. u.memory cl a (mine a h))
                    chain.chain;
              distinct = chain.distinct;
            } in
            elim (Bool-cases r) [
              | inr full ↦
                  let (at', s', is, t) =
                    release_list-TookBack P law size_of batch pages classes (length xs + 1) cl start
                      xs at₁ s₁ lt u.valid chain₁.chain chain₁.distinct mine₁ (omega arith) in
                  (at', s', rw (whole, is₁, full) is, TookBack-after xs at at₁ at' s s₁ s' u t)
              | inl free ↦
                  let size : batch cl ≡ length xs = ground arith in
                  let end_last : IsLast end xs = elim last [
                    | inl none_there ↦ absurd (omega arith)
                    | inr l ↦ l
                  ] in
                  (
                    at_filled cl start end xs at₁ s₁ lt u.valid chain₁ end_last size mine₁
                        (space free),
                    fill_slot P size_of batch classes cl start end s₁,
                    rw (whole, is₁, free) refl,
                    TookBack-after xs at at₁ _ s s₁ _ u (
                        filled-TookBack cl start end xs at₁ s₁ lt u.valid chain₁ end_last size mine₁
                          (space free)),
                  )
            ]
      ]
