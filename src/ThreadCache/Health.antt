-- ===== src/ThreadCache/Health.antt =====
-- Scavenge, ListTooLong, Deallocate and Allocate of src/src/thread_cache.h and src/src/thread_cache.cc.
use conan_tcmalloc.Base.{
  ℕ, zero, suc, ◌+◌, ◌/◌, ◌^◌, ◌≤◌, ◌<◌, ◌≡◌, ◌⊎◌, ◌∙◌, ap, sym, subst, refl, true, false, ◌&&◌,
  Option, some, List, [], ltb, ◌==◌, arith, has, length, drop, drop-drop, if◌then◌else◌, Bool-cases,
  if_rule, inl, inr,
}
use conan_tcmalloc.PageMap.{update}
use conan_tcmalloc.LinkedList.{Memory, ◌>>=◌}
use conan_tcmalloc.LinkedList.Ranges.{has-drop}
use conan_tcmalloc.ThreadCache.FreeList.{FreeList, set_max_length, clear_lowwatermark}
use conan_tcmalloc.ThreadCache.Lists.{Represents}
use conan_tcmalloc.ThreadCache.Cache.{
  Central, World, list_of, with_list, release_to_central_cache, max_dynamic_length,
}
use conan_tcmalloc.ThreadCache.Traffic.{after_idle, scavenge_loop}
use conan_tcmalloc.ThreadCache.Invariant.{Ghosts, IsLawful, Owns, Spares, NoMore, Sized}
use conan_tcmalloc.ThreadCache.Budget.{Numbered, with_list-Numbered}
use conan_tcmalloc.ThreadCache.Release.{release-Owns}

-- The limit of a list is one that is asked for: at least an object, and it fits its 32 bits.
abbrev pub IsLimit : ℕ → Type 0
IsLimit k = (0 < k) × (k < 2 ^ 32)

module _ (C : Central) (classes : ℕ) (G : Ghosts C) (law : IsLawful C classes G)
    (size_of batch : ℕ → ℕ) (me n : ℕ) (me_lt : me < n)
    (batch_ok : (cl : ℕ)
      → 0 < cl
      → cl < classes
      → (0 < batch cl) × (batch cl ≤ max_dynamic_length)) where
  -- The lists stand for the objects, and the sizes are right.
  pub record Healthy (g : G.Ghost) (objs : ℕ → List ℕ) (w : World C) : Type 0 where
    pub owns : Owns C classes G me g objs w
    pub sized : Sized size_of classes objs (w.caches me)
    pub sizes : (cl : ℕ) → cl < classes → (list_of me cl w).size ≡ size_of cl
    pub limits : (cl : ℕ) → cl < classes → IsLimit ((list_of me cl w).max_length)
    pub unused : objs 0 ≡ []
    pub numbered : Numbered n w

  -- A list that differs in its limits only.
  pub record SameList (f g : FreeList) : Type 0 where
    pub list : g.list ≡ f.list
    pub length : g.length ≡ f.length
    pub lowater : (g.lowater ≡ f.lowater) ⊎ (g.lowater ≡ f.length)
    pub size : g.size ≡ f.size
    pub limit : IsLimit (f.max_length) → IsLimit (g.max_length)

  relimit-Represents :
      (m : Memory) (f g : FreeList) (xs : List ℕ)
      → SameList f g
      → Represents m f xs
      → Represents m g xs
  relimit-Represents m f g xs s r = record {
    holds = rw (s.list) r.holds;
    counts = s.length ∙ r.counts;
    low = ground (arith, r.low, r.counts, s.lowater);
    small = r.small;
  }

  pub relimit-Healthy :
      (cl : ℕ) (g : FreeList) (gh : G.Ghost) (objs : ℕ → List ℕ) (w : World C)
      → SameList (list_of me cl w) g
      → Healthy gh objs w
      → Healthy gh objs (with_list me cl g w)
  relimit-Healthy cl g gh objs w s k =
      let itself : (me == me) ≡ true = ground arith in
      record {
        owns = record {
          lists = λ dl lt.
              rw (itself, list_of)
                (elim (Bool-cases (dl == cl)) [
                  | inr other ↦ rw other (k.owns.lists dl lt)
                  | inl at ↦
                      let here : cl ≡ dl = ground arith in
                      let same = subst (λ c. SameList (list_of me c w) g) here s in
                      rw at (
                        relimit-Represents w.memory (list_of me dl w) g (objs dl) same
                          (k.owns.lists dl lt))
                ]);
          apart = k.owns.apart;
          own = k.owns.own;
          valid = k.owns.valid;
        };
        sized = rw itself k.sized;
        sizes = λ dl lt.
            rw (itself, list_of)
              (elim (Bool-cases (dl == cl)) [
                | inr other ↦ rw other (k.sizes dl lt)
                | inl at ↦
                    let here : cl ≡ dl = ground arith in
                    rw at (
                      s.size
                      ∙ subst (λ c. (list_of me c w).size ≡ size_of dl) (sym here) (k.sizes dl lt))
              ]);
        limits = λ dl lt.
            rw (itself, list_of)
              (elim (Bool-cases (dl == cl)) [
                | inr other ↦ rw other (k.limits dl lt)
                | inl at ↦
                    let here : dl ≡ cl = ground arith in
                    rw at (
                      s.limit
                        (subst (λ c. IsLimit ((list_of me c w).max_length)) here (k.limits dl lt)))
              ]);
        unused = k.unused;
        numbered = with_list-Numbered me cl n g w w.memory w.central k.numbered;
      }

  -- Lists that have lost some of their first objects.
  abbrev pub Fewer : (objs objs' : ℕ → List ℕ) → Type 0
  Fewer objs objs' = (dl : ℕ) → (k : ℕ) × (objs' dl ≡ drop k (objs dl))

  pub release-Healthy :
      (cl k : ℕ) (g : G.Ghost) (objs : ℕ → List ℕ) (w : World C)
      → 0 < cl
      → cl < classes
      → Healthy g objs w
      → (w' : World C) × (g' : G.Ghost) × (release_to_central_cache C size_of batch me cl k w
          ≡ some w')
        × Healthy g' (update objs cl (drop k (objs cl))) w'
        × Spares C classes G g g' objs w w'
        × NoMore C classes G g g' objs (update objs cl (drop k (objs cl)))
  release-Healthy cl k g objs w used here v =
      let (w', g', is, owns, spares, no_more, sized, limits, numbered) =
        release-Owns C classes G law size_of batch me cl k g objs w used here
          ((batch_ok cl used here).0) v.owns v.sized in
      (
        w',
        g',
        is,
        record {
          owns = owns;
          sized = sized;
          sizes = λ dl lt. (limits dl).2 ∙ v.sizes dl lt;
          limits = λ dl lt. rw ((limits dl).0) (v.limits dl lt);
          unused = let other : (0 == cl) ≡ false = ground arith in rw other v.unused;
          numbered = numbered n v.numbered;
        },
        spares,
        no_more,
      )

  -- A run that gives a healthy cache back, with fewer objects.
  abbrev pub Shrinks : G.Ghost → (objs : ℕ → List ℕ) → World C → Option (World C) → Type 0
  Shrinks g objs w r =
      (w' : World C) × (objs' : ℕ → List ℕ) × (g' : G.Ghost) × (r ≡ some w')
      × Healthy g' objs' w'
      × Fewer objs objs'
      × Spares C classes G g g' objs w w'
      × NoMore C classes G g g' objs objs'

  pub stays :
      (g : G.Ghost) (objs : ℕ → List ℕ) (w : World C) → Healthy g objs w → Shrinks g objs w (some w)
  stays g objs w h =
      (w, objs, g, refl, h, λ dl. (0, refl), λ dl a mine off. (mine, refl), λ dl a held. held)

  -- A run from another store with the same objects elsewhere.
  pub Shrinks-from :
      (g : G.Ghost) (objs : ℕ → List ℕ) (w v : World C) (r : Option (World C))
      → ((a : ℕ) → ((c : ℕ) → c < classes → has a (objs c) ≡ false) → v.memory a ≡ w.memory a)
      → Shrinks g objs v r
      → Shrinks g objs w r
  Shrinks-from g objs w v r same (w', objs', g', is, h, f, s, more) = (
    w',
    objs',
    g',
    is,
    h,
    f,
    λ dl a mine off. let (mine', e) = s dl a mine off in (mine', e ∙ same a off),
    more,
  )

  -- One after the other.
  pub Spares-trans :
      (g g' g'' : G.Ghost) (objs objs' : ℕ → List ℕ) (w w' w'' : World C)
      → Fewer objs objs'
      → Spares C classes G g g' objs w w'
      → Spares C classes G g' g'' objs' w' w''
      → Spares C classes G g g'' objs w w''
  Spares-trans g g' g'' objs objs' w w' w'' f s t dl a mine off =
      let (mine', e') = s dl a mine off in
      let (mine'', e'') = t dl a mine' (λ c lt.
        let (k, e) = f c in
        elim (Bool-cases (has a (objs' c))) [
          | inl on ↦
              let on' : has a (drop k (objs c)) ≡ true = rw e at on in
              absurd (cc (has-drop a k (objs c) on', off c lt))
          | inr out ↦ out
        ]) in
      (mine'', e'' ∙ e')

  pub drop_here : (cl k : ℕ) (objs : ℕ → List ℕ) → Fewer objs (update objs cl (drop k (objs cl)))
  drop_here cl k objs dl = elim (Bool-cases (dl == cl)) [
    | inl at ↦ let here : cl ≡ dl = ground arith in (k, rw at (ap (λ c. drop k (objs c)) here))
    | inr other ↦ (0, rw other refl)
  ]

  pub Fewer-trans : (a b c : ℕ → List ℕ) → Fewer a b → Fewer b c → Fewer a c
  Fewer-trans a b c f g dl =
      let (j, e) = f dl in let (k, e') = g dl in (j + k, e' ∙ ap (drop k) e ∙ drop-drop j k (a dl))

  -- Release, and a new limit.
  pub release_and_limit :
      (cl k : ℕ) (change : FreeList → FreeList) (g : G.Ghost) (objs : ℕ → List ℕ) (w : World C)
      → 0 < cl
      → cl < classes
      → ((f : FreeList) → SameList f (change f))
      → Healthy g objs w
      → Shrinks g objs w (
          release_to_central_cache C size_of batch me cl k w >>= λ v.
          some (with_list me cl (change (list_of me cl v)) v))
  release_and_limit cl k change g objs w used here keeps v =
      let (w₁, g₁, is, h, spares, no_more) = release-Healthy cl k g objs w used here v in
      (
        with_list me cl (change (list_of me cl w₁)) w₁,
        update objs cl (drop k (objs cl)),
        g₁,
        rw is refl,
        relimit-Healthy cl (change (list_of me cl w₁)) g₁ _ w₁ (keeps (list_of me cl w₁)) h,
        drop_here cl k objs,
        spares,
        no_more,
      )

  after_idle-SameList :
      (b : ℕ) (f : FreeList) → (0 < b) × (b ≤ max_dynamic_length) → SameList f (after_idle b f)
  unfolding after_idle set_max_length
  after_idle-SameList b f ok = elim (Bool-cases (ltb b f.max_length)) [
    | inl longer ↦ rw longer (record {
      list = refl;
      length = refl;
      lowater = inl refl;
      size = refl;
      limit = λ l. (ground arith, omega arith);
    })
    | inr shorter ↦
        rw shorter
          (record { list = refl; length = refl; lowater = inl refl; size = refl; limit = λ l. l })
  ]

  clear-SameList : (f : FreeList) → SameList f (clear_lowwatermark f)
  unfolding clear_lowwatermark
  clear-SameList f = record {
    list = refl;
    length = refl;
    lowater = inr refl;
    size = refl;
    limit = λ l. l;
  }

  -- A list that has objects is not the one of class 0.
  used_class :
      (cl : ℕ) (g : G.Ghost) (objs : ℕ → List ℕ) (w : World C)
      → cl < classes
      → Healthy g objs w
      → 0 < (list_of me cl w).lowater
      → 0 < cl
  used_class cl g objs w here h some_left = elim (Bool-cases (cl == 0)) [
    | inr other ↦ ground arith
    | inl at ↦
        let e : 0 ≡ cl = ground arith in
        let nothing : objs cl ≡ [] = subst (λ c. objs c ≡ []) e h.unused in
        absurd (omega (arith, (h.owns.lists cl here).low, ap length nothing))
  ]

  pub scavenge_loop-Shrinks :
      (rounds cl : ℕ) (g : G.Ghost) (objs : ℕ → List ℕ) (w : World C)
      → cl + rounds ≤ classes
      → Healthy g objs w
      → Shrinks g objs w (scavenge_loop C size_of batch classes me rounds cl w)
  unfolding scavenge_loop
  scavenge_loop-Shrinks zero cl g objs w le v = stays g objs w v
  scavenge_loop-Shrinks (suc rounds) cl g objs w le v =
      let lowmark = (list_of me cl w).lowater in
      let here : cl < classes = omega arith in
      let (w₁, objs₁, g₁, is₁, h₁, f₁, s₁, more₁) : Shrinks g objs w (
          if ltb 0 lowmark && ltb lowmark (2 ^ 31)
          then (release_to_central_cache C size_of batch me cl
                (if ltb 1 lowmark then lowmark / 2 else 1) w
              >>= λ v. some (with_list me cl (after_idle (batch cl) (list_of me cl v)) v))
          else some w) =
        if_rule (Shrinks g objs w) (ltb 0 lowmark && ltb lowmark (2 ^ 31))
          (λ e.
            let used = used_class cl g objs w here v (ground arith) in
            release_and_limit cl _ (after_idle (batch cl)) g objs w used here
              (λ f. after_idle-SameList (batch cl) f (batch_ok cl used here)) v)
          (λ e. stays g objs w v) in
      let w₂ = with_list me cl (clear_lowwatermark (list_of me cl w₁)) w₁ in
      let h₂ =
        relimit-Healthy cl (clear_lowwatermark (list_of me cl w₁)) g₁ objs₁ w₁
          (clear-SameList (list_of me cl w₁)) h₁ in
      let (w₃, objs₃, g₃, is₃, h₃, f₃, s₃, more₃) =
        scavenge_loop-Shrinks rounds (cl + 1) g₁ objs₁ w₂ (omega arith) h₂ in
      (
        w₃,
        objs₃,
        g₃,
        rw is₁ is₃,
        h₃,
        Fewer-trans objs objs₁ objs₃ f₁ f₃,
        Spares-trans g g₁ g₃ objs objs₁ w w₂ w₃ f₁ s₁ s₃,
        λ dl a held. more₁ dl a (more₃ dl a held),
      )
