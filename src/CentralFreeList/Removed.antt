-- ===== src/CentralFreeList/Removed.antt =====
-- RemoveRange of src/src/central_freelist.cc.
use conan_tcmalloc.Base.{
  ℕ, zero, suc, ◌+◌, ◌-◌, ◌<◌, ◌≡◌, ◌≢◌, inl, inr, sym, ap, ◌∙◌, subst, refl, true, false, ◌&&◌,
  some, List, [], ◌∷◌, ◌++◌, ltb, ◌==◌, arith, has, length-append, Bool-cases,
}
use conan_tcmalloc.LinkedList.{Memory}
use conan_tcmalloc.LinkedList.Segments.{Holds, Disjoint, Segment-frame, has-append}
use conan_tcmalloc.LinkedList.Ranges.{IsLast, has-IsLast, push_range-Holds}
use conan_tcmalloc.CentralFreeList.{Pages, Store, CentralRange}
use conan_tcmalloc.CentralFreeList.Fetch.{
  populate, fetch_from_one_spans_safe, fetch_more, take_slot, remove_range,
}
use conan_tcmalloc.CentralFreeList.Invariant.{
  Places, is_span, is_slot, is_given, IsPageHeap, IsValid,
}
use conan_tcmalloc.CentralFreeList.Places.{span-not_given, slot-not_given}
use conan_tcmalloc.CentralFreeList.Slots.{IsValid-Recached, given_slot, given_slot-Recached}
use conan_tcmalloc.CentralFreeList.Shrunk.{Undisturbed, unchanged}
use conan_tcmalloc.CentralFreeList.Local.{IsValid-local}
use conan_tcmalloc.CentralFreeList.Fetched.{Gave, IsRange, Fetches, fetch_from_one_spans-Fetches}
use conan_tcmalloc.CentralFreeList.Populated.{IsSized, populate-Undisturbed}

module _ (P : Pages) (law : IsPageHeap P) (size_of batch pages : ℕ → ℕ) (classes : ℕ) where
  -- Nothing was given and what threads have is as it was, or a chain of no more than `n` objects that no
  -- thread had was given.
  pub data Removes (cl n : ℕ) (at : Places) (s : Store P) (r : CentralRange P) : Type 0 where
    nothing :
        (at' : Places)
        → r.count ≡ 0
        → Undisturbed P law size_of batch pages classes at at' s r.store
        → Removes cl n at s r
    range :
        (xs : List ℕ) (at' : Places)
        → IsRange P law size_of batch pages classes n r xs
        → Gave P law size_of batch pages classes cl xs at at' s r.store
        → Removes cl n at s r

  Gave-after :
      (cl : ℕ) (xs : List ℕ) (at₀ at₁ at₂ : Places) (s₀ s₁ s₂ : Store P)
      → Undisturbed P law size_of batch pages classes at₀ at₁ s₀ s₁
      → Gave P law size_of batch pages classes cl xs at₁ at₂ s₁ s₂
      → Gave P law size_of batch pages classes cl xs at₀ at₂ s₀ s₂
  Gave-after cl xs at₀ at₁ at₂ s₀ s₁ s₂ u g = record {
    valid = g.valid;
    given = λ dl b. ground (arith, g.given dl b, u.given dl b);
    fresh = λ dl b h. sym (u.given dl b) ∙ g.fresh dl b h;
    memory = λ dl b h. g.memory dl b (u.given dl b ∙ h) ∙ u.memory dl b h;
  }

  -- More objects, in front of those that were given.
  Gave-append :
      (cl : ℕ) (xs ys : List ℕ) (at₀ at₁ at₂ : Places) (s₀ s₁ s₂ : Store P)
      → Gave P law size_of batch pages classes cl xs at₀ at₁ s₀ s₁
      → Gave P law size_of batch pages classes cl ys at₁ at₂ s₁ s₂
      → Gave P law size_of batch pages classes cl (ys ++ xs) at₀ at₂ s₀ s₂
  Gave-append cl xs ys at₀ at₁ at₂ s₀ s₁ s₂ g h =
      let old : (dl b : ℕ) → is_given dl (at₀ b) ≡ true → is_given dl (at₁ b) ≡ true = λ dl b on.
        elim (Bool-cases (has b xs)) [
          | inl new ↦ absurd (cc (g.fresh dl b new, on))
          | inr off ↦ ground (arith, g.given dl b, off, on)
        ] in
      record {
        valid = h.valid;
        given = λ dl b. ground (arith, h.given dl b, g.given dl b, has-append b ys xs);
        fresh = λ dl b on. elim (Bool-cases (is_given dl (at₀ b))) [
          | inr off ↦ off
          | inl was ↦ elim (Bool-cases (has b xs)) [
            | inl in_xs ↦ g.fresh dl b in_xs
            | inr off ↦
                let in_ys : has b ys ≡ true = ground (arith, has-append b ys xs, on, off) in
                absurd (cc (h.fresh dl b in_ys, old dl b was))
          ]
        ];
        memory = λ dl b on. h.memory dl b (old dl b on) ∙ g.memory dl b on;
      }

  -- The last objects of a list are the last ones of a longer one.
  IsLast-append : (t : ℕ) (ys xs : List ℕ) → IsLast t xs → IsLast t (ys ++ xs)
  IsLast-append t [] xs l = l
  IsLast-append t (y ∷ []) [] l = absurd l
  IsLast-append t (y ∷ []) (x ∷ xs) l = l
  IsLast-append t (y ∷ z ∷ ys) xs l = IsLast-append t (z ∷ ys) xs l

  -- A write to an object that was given.
  Gave-write :
      (cl a : ℕ) (xs : List ℕ) (at at' : Places) (s s' : Store P) (m : Memory)
      → has a xs ≡ true
      → ((b : ℕ) → b ≢ a → m b ≡ s'.memory b)
      → Gave P law size_of batch pages classes cl xs at at' s s'
      → Gave P law size_of batch pages classes cl xs at at' s (record s' { memory = m })
  Gave-write cl a xs at at' s s' m on same g =
      let mine : is_given cl (at' a) ≡ true = ground (arith, g.given cl a, on) in
      record {
        valid =
            IsValid-local P law size_of batch pages classes at' s' s'.heap m
              (λ q live. record {
                live_still = live;
                start = refl;
                length = refl;
                sizeclass = refl;
              })
              (λ q b h. same b (λ e.
                cc (span-not_given cl q (at' a) (subst (λ k. is_span q (at' k) ≡ true) e h), mine)))
              (λ dl i b h. same b (λ e. cc (
                slot-not_given dl i cl (at' a) (subst (λ k. is_slot dl i (at' k) ≡ true) e h),
                mine,
              )))
              g.valid;
        given = g.given;
        fresh = g.fresh;
        memory = λ dl b h. elim (Bool-cases (b == a)) [
          | inr other ↦ same b (λ e. ground arith) ∙ g.memory dl b h
          | inl here ↦
              let e : b ≡ a = ground arith in
              absurd (cc (g.fresh dl a on, subst (λ k. is_given dl (at k) ≡ true) e h))
        ];
      }

  -- The next range goes in front of what was fetched.
  fetch_more-Removes :
      (fuel cl n : ℕ) (xs : List ℕ) (at at' : Places) (s : Store P) (r : CentralRange P)
      → cl < classes
      → IsRange P law size_of batch pages classes n r xs
      → Gave P law size_of batch pages classes cl xs at at' s r.store
      → n < fuel + r.count
      → (r' : CentralRange P) × (fetch_more P size_of batch pages fuel cl n r ≡ some r')
        × Removes cl n at s r'
  unfolding fetch_more
  fetch_more-Removes zero cl n xs at at' s r lt is g enough = absurd (omega (arith, is.most))
  fetch_more-Removes (suc fuel) cl n xs at at' s r lt is g enough =
      elim (Bool-cases (ltb r.count n)) [
        | inr all ↦ (r, rw all refl, range xs at' is g)
        | inl more ↦
            let left : 0 < n - r.count = ground arith in
            let (t, fetched, f, first) =
              fetch_from_one_spans-Fetches P law size_of batch pages classes cl (n - r.count) at'
                r.store lt left g.valid in
            elim f [
              | inl (none_there, same) ↦
                  let e : (t.count == 0) ≡ true = ground arith in
                  let as_before : record r { store = t.store } ≡ r =
                    ap (λ u. record r { store = u }) same in
                  (
                    record r { store = t.store },
                    rw (more, fetched, e) refl,
                    subst (Removes cl n at s) (sym as_before) (range xs at' is g),
                  )
              | inr (ys, at₂, is₂, g₂) ↦
                  let ne : (t.count == 0) ≡ false = let pos = is₂.some_object in ground arith in
                  let mine : (b : ℕ) → has b xs ≡ true → is_given cl (at' b) ≡ true =
                    λ b h. ground (arith, g.given cl b, h) in
                  let kept : Holds t.store.memory r.start xs = record {
                    chain =
                        Segment-frame r.store.memory t.store.memory r.start 0 xs
                          (λ b h. g₂.memory cl b (mine b h)) is.chain.chain;
                    distinct = is.chain.distinct;
                  } in
                  let apart : Disjoint ys xs = λ b h. elim (Bool-cases (has b xs)) [
                    | inl also ↦ absurd (cc (g₂.fresh cl b h, mine b also))
                    | inr off ↦ off
                  ] in
                  let (m, pushed, whole, frame) =
                    push_range-Holds r.start t.start t.end ys xs t.store.memory is₂.chain is₂.last
                      kept apart in
                  let r₂ : CentralRange P = record {
                    count = r.count + t.count;
                    start = t.start;
                    end = r.end;
                    store = record (t.store) { memory = m };
                  } in
                  let is_more : IsRange P law size_of batch pages classes n r₂ (ys ++ xs) = record {
                    chain = whole;
                    last = IsLast-append r.end ys xs is.last;
                    count = omega (arith, is.count, is₂.count, length-append ys xs);
                    some_object = omega (arith, is.some_object);
                    most = omega (arith, is₂.most);
                  } in
                  let on : has t.end ys ≡ true = has-IsLast t.end ys is₂.last in
                  let g_more =
                    Gave-append cl xs ys at at' at₂ s r.store (record (t.store) { memory = m }) g
                      (Gave-write cl (t.end) ys at' at₂ r.store (t.store) m on frame g₂) in
                  let (r', is', removes) =
                    fetch_more-Removes fuel cl n (ys ++ xs) at at₂ s r₂ lt is_more g_more
                      (omega (arith, is₂.some_object)) in
                  (r', rw (more, fetched, ne, pushed) is', removes)
            ]
      ]

  -- What Fetches says, for any store before.
  Fetches-Removes :
      (cl n : ℕ) (at at' : Places) (s s' : Store P) (r : CentralRange P)
      → Undisturbed P law size_of batch pages classes at at' s s'
      → Fetches P law size_of batch pages classes cl n at' s' r
      → Removes cl n at s r
  Fetches-Removes cl n at at' s s' r u (inl (none_there, same)) =
      nothing at' none_there
        (subst (Undisturbed P law size_of batch pages classes at at' s) (sym same) u)
  Fetches-Removes cl n at at' s s' r u (inr (xs, at₂, is, g)) =
      range xs at₂ is (Gave-after cl xs at at' at₂ s s' r.store u g)

  fetch_safe-Removes :
      (cl n : ℕ) (at : Places) (s : Store P)
      → cl < classes
      → 0 < n
      → IsSized P law size_of batch pages classes cl
      → IsValid P law size_of batch pages classes at s
      → (r : CentralRange P) × (fetch_from_one_spans_safe P size_of batch pages cl n s ≡ some r)
        × Removes cl n at s r
  unfolding fetch_from_one_spans_safe
  fetch_safe-Removes cl n at s lt pos sized v =
      let (r, is, f, first) =
        fetch_from_one_spans-Fetches P law size_of batch pages classes cl n at s lt pos v in
      elim (Bool-cases (r.count == 0)) [
        | inr got ↦ (
          r,
          rw (is, got) refl,
          Fetches-Removes cl n at at s s r (unchanged P law size_of batch pages classes at s v) f,
        )
        | inl none_got ↦
            let same : r.store ≡ s = elim f [
              | inl (z, e) ↦ e
              | inr (xs, at', is', g) ↦ absurd (let pos' = is'.some_object in ground arith)
            ] in
            let (at₁, s₁, is₁, u) =
              populate-Undisturbed P law size_of batch pages classes cl at s lt v sized in
            let (r₂, is₂, f₂, first₂) =
              fetch_from_one_spans-Fetches P law size_of batch pages classes cl n at₁ s₁ lt pos
                u.valid in
            let populated : populate P size_of batch pages cl r.store ≡ some s₁ = rw same is₁ in
            (r₂, rw (is, none_got, populated) is₂, Fetches-Removes cl n at at₁ s s₁ r₂ u f₂)
      ]

  -- The last slot is emptied.
  take_slot-Removes :
      (cl : ℕ) (at : Places) (s : Store P)
      → cl < classes
      → 0 < batch cl
      → IsValid P law size_of batch pages classes at s
      → 0 < (s.lists cl).used_slots
      → Removes cl (batch cl) at s (take_slot P size_of batch pages cl (batch cl) s)
  take_slot-Removes cl at s lt pos v some_used =
      let i = (s.lists cl).used_slots - 1 in
      let x = v.slot cl i lt (omega arith) in
      let at' = given_slot P law size_of batch pages classes cl i at in
      let r =
        given_slot-Recached P law size_of batch pages classes cl ((s.lists cl).cache_size) at s lt v
          some_used (omega (arith, v.room cl lt)) (v.most cl lt) in
      range (x.objects) at'
        (record {
          chain = x.holds;
          last = x.last;
          count = x.count;
          some_object = pos;
          most = omega arith;
        })
        (record {
          valid = IsValid-Recached P law size_of batch pages classes cl at at' s _ v r;
          given = λ dl b. elim (Bool-cases (is_slot cl i (at b))) [
            | inl on ↦ let h = x.places b ∙ on in rw (on, h) refl
            | inr off ↦ let h = x.places b ∙ off in rw (off, h) refl
          ];
          fresh = λ dl b h. slot-not_given cl i dl (at b) (sym (x.places b) ∙ h);
          memory = λ dl b h. refl;
        })

  -- For central lists that are in order, over a page heap with the laws, RemoveRange of at least
  -- one object of a class whose spans have from 1 to 65535 objects always returns: a chain of at
  -- least one and no more than the objects asked for, of which no thread had any, or none. What
  -- threads have is not touched, and the lists are in order again.
  pub remove_range-Removes :
      (cl n : ℕ) (at : Places) (s : Store P)
      → cl < classes
      → 0 < n
      → IsSized P law size_of batch pages classes cl
      → IsValid P law size_of batch pages classes at s
      → (r : CentralRange P) × (remove_range P size_of batch pages cl n s ≡ some r)
        × Removes cl n at s r
  unfolding remove_range
  remove_range-Removes cl n at s lt pos sized v =
      elim (Bool-cases ((n == batch cl) && ltb 0 (s.lists cl).used_slots)) [
        | inl cached ↦
            let e : batch cl ≡ n = ground arith in
            (
              take_slot P size_of batch pages cl n s,
              rw cached refl,
              subst (λ k. Removes cl k at s (take_slot P size_of batch pages cl k s)) e
                  (take_slot-Removes cl at s lt (omega arith) v (ground arith)),
            )
        | inr fetch ↦
            let (r, is, removes) = fetch_safe-Removes cl n at s lt pos sized v in
            elim removes [
              | nothing at' z u ↦
                  let e : (r.count == 0) ≡ true = ground arith in
                  (r, rw (fetch, is, e) refl, nothing at' z u)
              | range xs at' is' g ↦
                  let e : (r.count == 0) ≡ false =
                    let some_object = is'.some_object in ground arith in
                  let (r', is'', more) =
                    fetch_more-Removes (n + 1) cl n xs at at' s r lt is' g (omega arith) in
                  (r', rw (fetch, is, e) is'', more)
            ]
      ]
