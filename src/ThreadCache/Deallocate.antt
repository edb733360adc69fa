-- ===== src/ThreadCache/Deallocate.antt =====
-- Scavenge, ListTooLong and Deallocate of src/src/thread_cache.h and src/src/thread_cache.cc as wholes.
use conan_tcmalloc.Base.{
  ℕ, suc, ◌+◌, ◌*◌, ◌%◌, ◌^◌, ◌≤◌, ◌<◌, ◌≡◌, ◌≢◌, ◌∙◌, ap, sym, subst, refl, true, false, Option,
  none, some, List, ◌∷◌, ltb, ◌==◌, arith, has, length, if◌then◌else◌, Bool-cases, if_rule, inl,
  inr,
}
use mathlib.Core.Option.{some-injective}
use conan_tcmalloc.PageMap.{update}
use conan_tcmalloc.LinkedList.{Memory, ◌>>=◌}
use conan_tcmalloc.ThreadCache.FreeList.{FreeList, add32, set_max_length, set_length_overages}
use conan_tcmalloc.ThreadCache.Lists.{Represents, SameLimits, push-Represents}
use conan_tcmalloc.ThreadCache.Cache.{
  Central, World, list_of, with_list, with_size, release_to_central_cache, greater, max_overages,
  max_dynamic_length,
}
use conan_tcmalloc.ThreadCache.Traffic.{
  after_too_long, scavenge, scavenge_if_large, list_too_long, deallocate,
}
use conan_tcmalloc.ThreadCache.Invariant.{Ghosts, IsLawful, IsHeld, Sized}
use conan_tcmalloc.ThreadCache.Owned.{Step, Owns-step}
use conan_tcmalloc.ThreadCache.Budget.{
  SameObjects, Numbered, increase_cache_limit-Kept, with_list-Numbered, with_size-Numbered,
}
use conan_tcmalloc.ThreadCache.Release.{bytes-change, Owns-size}
use conan_tcmalloc.ThreadCache.Health.{
  Healthy, SameList, Shrinks, Fewer-trans, release_and_limit, scavenge_loop-Shrinks, stays,
  Shrinks-from, Spares-trans,
}

suc_mul : (a s : ℕ) → suc a * s ≡ a * s + s
suc_mul a s = grind arith

-- What follows a run that is known.
then_run :
    {A B : Type 0} (o : Option A) (k : A → B) (next : B → Option B) (b : B)
    → (o >>= λ a. some (k a)) ≡ some b
    → (o >>= λ a. next (k a)) ≡ next b
then_run none k next b e = cc
then_run (some a) k next b e = ap next (some-injective (k a) b e)

module _ (C : Central) (classes : ℕ) (G : Ghosts C) (law : IsLawful C classes G)
    (size_of batch : ℕ → ℕ) (me n : ℕ) (me_lt : me < n)
    (batch_ok : (cl : ℕ)
      → 0 < cl
      → cl < classes
      → (0 < batch cl) × (batch cl ≤ max_dynamic_length)) where
  abbrev pub H : G.Ghost → (ℕ → List ℕ) → World C → Type 0
  H = Healthy C classes G law size_of batch me n me_lt batch_ok

  abbrev pub Ends : G.Ghost → (ℕ → List ℕ) → World C → Option (World C) → Type 0
  Ends = Shrinks C classes G law size_of batch me n me_lt batch_ok

  same-Healthy :
      (g : G.Ghost) (objs : ℕ → List ℕ) (w w' : World C)
      → SameObjects w w'
      → Numbered n w'
      → H g objs w
      → H g objs w'
  same-Healthy g objs w w' s k h = record {
    owns = record {
      lists = λ cl lt. rw (s.lists me cl, s.memory) (h.owns.lists cl lt);
      apart = h.owns.apart;
      own = h.owns.own;
      valid = rw (s.central, s.memory) h.owns.valid;
    };
    sized = h.sized ∙ sym (s.size me);
    sizes = λ cl lt. ap (λ f. f.size) (s.lists me cl) ∙ h.sizes cl lt;
    limits = λ cl lt. rw (s.lists me cl) (h.limits cl lt);
    unused = h.unused;
    numbered = k;
  }

  -- Scavenge of a cache
  pub scavenge-Shrinks :
      (g : G.Ghost) (objs : ℕ → List ℕ) (w : World C)
      → H g objs w
      → Ends g objs w (scavenge C size_of batch classes me w)
  unfolding scavenge
  scavenge-Shrinks g objs w h =
      let (w₁, objs₁, g₁, is₁, h₁, f₁, s₁, more₁) =
        scavenge_loop-Shrinks C classes G law size_of batch me n me_lt batch_ok classes 0 g objs w
          (omega arith) h in
      let (w₂, is₂, kept) = increase_cache_limit-Kept me n me_lt w₁ h₁.numbered in
      (
        w₂,
        objs₁,
        g₁,
        rw is₁ is₂,
        same-Healthy g₁ objs₁ w₁ w₂ kept.same kept.numbered h₁,
        f₁,
        λ dl a mine off. rw (kept.same.memory) (s₁ dl a mine off),
        more₁,
      )

  if_large-Shrinks :
      (g : G.Ghost) (objs : ℕ → List ℕ) (w : World C)
      → H g objs w
      → Ends g objs w (scavenge_if_large C size_of batch classes me w)
  if_large-Shrinks g objs w h =
      if_rule (Ends g objs w) (greater (w.caches me).size (w.caches me).max_size)
        (λ e. scavenge-Shrinks g objs w h)
        (λ e. stays C classes G law size_of batch me n me_lt batch_ok g objs w h)

  abbrev Alike : FreeList → FreeList → Type 0
  Alike = SameList C classes G law size_of batch me n me_lt batch_ok

  after_too_long-SameList :
      (b : ℕ) (f : FreeList) → (0 < b) × (b ≤ max_dynamic_length) → Alike f (after_too_long b f)
  unfolding after_too_long set_max_length set_length_overages
  after_too_long-SameList b f ok =
      let counted = set_length_overages (f.length_overages + 1) f in
      if_rule (Alike f) (ltb f.max_length b)
        (λ e. record {
          list = refl;
          length = refl;
          lowater = inl refl;
          size = refl;
          limit = λ l. (ground arith, omega arith);
        })
        (λ e.
          if_rule (Alike f) (ltb b f.max_length)
            (λ e.
              if_rule (Alike f) (ltb max_overages counted.length_overages)
                (λ e'. record {
                  list = refl;
                  length = refl;
                  lowater = inl refl;
                  size = refl;
                  limit = λ l. (ground arith, omega arith);
                })
                (λ e'. record {
                  list = refl;
                  length = refl;
                  lowater = inl refl;
                  size = refl;
                  limit = λ l. l;
                }))
            (λ e. record {
              list = refl;
              length = refl;
              lowater = inl refl;
              size = refl;
              limit = λ l. l;
            }))

  list_too_long-Shrinks :
      (cl : ℕ) (g : G.Ghost) (objs : ℕ → List ℕ) (w : World C)
      → 0 < cl
      → cl < classes
      → H g objs (with_size me (add32 (w.caches me).size (list_of me cl w).size) w)
      → Ends g objs w (list_too_long C size_of batch classes me cl w)
  unfolding list_too_long
  list_too_long-Shrinks cl g objs w used here h =
      let v = with_size me (add32 (w.caches me).size (list_of me cl w).size) w in
      let (w₁, objs₁, g₁, is₁, h₁, f₁, s₁, more₁) =
        release_and_limit C classes G law size_of batch me n me_lt batch_ok cl (batch cl)
          (after_too_long (batch cl)) g objs v used here
          (λ f. after_too_long-SameList (batch cl) f (batch_ok cl used here)) h in
      let (w₂, objs₂, g₂, is₂, h₂, f₂, s₂, more₂) = if_large-Shrinks g₁ objs₁ w₁ h₁ in
      (
        w₂,
        objs₂,
        g₂,
        then_run (release_to_central_cache C size_of batch me cl (batch cl) v) _
              (scavenge_if_large C size_of batch classes me) w₁ is₁
            ∙ is₂,
        h₂,
        Fewer-trans C classes G law size_of batch me n me_lt batch_ok objs objs₁ objs₂ f₁ f₂,
        Spares-trans C classes G law size_of batch me n me_lt batch_ok g g₁ g₂ objs objs₁ v w₁ w₂ f₁
            s₁ s₂,
        λ dl a held. more₁ dl a (more₂ dl a held),
      )

  module _ (ptr cl : ℕ) (g : G.Ghost) (objs : ℕ → List ℕ) (w : World C) (used : 0 < cl)
      (here : cl < classes) (h : H g objs w) (x : IsHeld C classes G g objs cl ptr) (f : FreeList)
      (m : Memory) (rep : Represents m f (ptr ∷ objs cl)) (same : SameLimits (list_of me cl w) f)
      (frame : (a : ℕ) → a ≢ ptr → m a ≡ w.memory a) where
    abbrev pushed : World C
    pushed = record (with_list me cl f w) { memory = m }

    abbrev objs' : ℕ → List ℕ
    objs' = update objs cl (ptr ∷ objs cl)

    pushed-Step : Step C classes G me cl g g objs w pushed f (ptr ∷ objs cl)
    pushed-Step = record {
      list = λ dl. let itself : (me == me) ≡ true = ground arith in rw (itself, list_of) refl;
      objects = rep;
      foreign = λ dl a lt ne on.
          let off = h.owns.apart dl cl lt here ne a on in ground (arith, x.listed dl lt);
      own = λ a on. elim (Bool-cases (a == ptr)) [
        | inl at ↦ let e : ptr ≡ a = ground arith in subst (λ b. G.given g cl b ≡ true) e x.given
        | inr other ↦ h.owns.own cl a here (ground arith)
      ];
      frame = λ dl a mine off gone. (mine, frame a (ground arith));
      valid =
          law.local g w.central w.memory m h.owns.valid (λ a free.
            frame a (λ e. cc (x.given, subst (λ b. G.given g cl b ≡ false) e (free cl))));
    }

    abbrev counted : World C
    counted = with_size me (add32 (pushed.caches me).size f.size) pushed

    f_size : f.size ≡ size_of cl
    f_size = same.2 ∙ h.sizes cl here

    counted_bytes : (counted.caches me).size ≡ ((w.caches me).size + size_of cl) % 2 ^ 32
    unfolding add32
    counted_bytes =
        let itself : (me == me) ≡ true = ground arith in
        rw itself (ap (λ k. ((w.caches me).size + k) % 2 ^ 32) f_size)

    counted-Sized : Sized size_of classes objs' (counted.caches me)
    counted-Sized =
        let bytes = bytes-change C classes G law size_of batch me cl (ptr ∷ objs cl) objs here in
        let one_more = suc_mul (length (objs cl)) (size_of cl) in
        let sum = h.sized in omega (arith, bytes, one_more, sum, counted_bytes)

    counted-Healthy : H g objs' counted
    counted-Healthy =
        let itself : (me == me) ≡ true = ground arith in
        record {
          owns =
              Owns-size C classes G law size_of batch me (add32 (pushed.caches me).size f.size)
                (Owns-step here h.owns pushed-Step);
          sized = counted-Sized;
          sizes = λ dl lt.
              rw (itself, list_of)
                (elim (Bool-cases (dl == cl)) [
                  | inl at ↦
                      let same_class : cl ≡ dl = ground arith in
                      rw at (f_size ∙ ap size_of same_class)
                  | inr other ↦ rw other (h.sizes dl lt)
                ]);
          limits = λ dl lt.
              rw (itself, list_of)
                (elim (Bool-cases (dl == cl)) [
                  | inl at ↦ rw at (rw (same.0) (h.limits cl here))
                  | inr other ↦ rw other (h.limits dl lt)
                ]);
          unused = let other : (0 == cl) ≡ false = ground arith in rw other h.unused;
          numbered =
              with_size-Numbered me n (add32 (pushed.caches me).size f.size) pushed
                (with_list-Numbered me cl n f w m w.central h.numbered);
        }

    -- The list is too long, or the object is counted.
    after_push : Ends g objs' w (
        if ltb f.max_length (length (objs cl) + 1)
        then list_too_long C size_of batch classes me cl pushed
        else scavenge_if_large C size_of batch classes me counted)
    after_push =
        let itself : (me == me) ≡ true = ground arith in
        let here_list : (cl == cl) ≡ true = ground arith in
        let the_list : list_of me cl pushed ≡ f = pushed-Step.list cl ∙ rw here_list refl in
        Shrinks-from C classes G law size_of batch me n me_lt batch_ok g objs' w pushed _
          (λ a off. frame a (λ e.
            let out = off cl here in
            let out' : has a (ptr ∷ objs cl) ≡ false = rw here_list at out in ground arith))
          (if_rule (Ends g objs' pushed) (ltb f.max_length (length (objs cl) + 1))
            (λ e. list_too_long-Shrinks cl g objs' pushed used here (
              subst (λ k. H g objs' (with_size me (add32 (pushed.caches me).size k.size) pushed))
                (sym the_list) counted-Healthy))
            (λ e. if_large-Shrinks g objs' counted counted-Healthy))

  -- For a thread whose lists are in order, over a central cache with the laws, and with batches
  -- from 1 to kMaxDynamicFreeListLength, Deallocate of an object of a class other than 0 that the
  -- central cache gave and that is in no list always returns, if the list has room for it on 32
  -- bits; the lists are in order and stand for the objects of before and the new one, less some
  -- from the front of lists, and size_ is their total on 32 bits. What left a list has gone back
  -- to the central cache: given and in no list are exactly the objects that were so before, the
  -- new one excepted, and they are not written to.
  pub deallocate-Shrinks :
      (ptr cl : ℕ) (g : G.Ghost) (objs : ℕ → List ℕ) (w : World C)
      → 0 < cl
      → cl < classes
      → H g objs w
      → IsHeld C classes G g objs cl ptr
      → length (objs cl) + 1 < 2 ^ 32
      → Ends g (update objs cl (ptr ∷ objs cl)) w (deallocate C size_of batch classes me ptr cl w)
  unfolding deallocate
  deallocate-Shrinks ptr cl g objs w used here h x room =
      let ne = law.not_null g w.central w.memory cl ptr here h.owns.valid x.given in
      let (f, m, is, rep, same, frame) =
        push-Represents ptr (objs cl) (list_of me cl w) w.memory (h.owns.lists cl here) ne
          (x.listed cl here) room in
      rw is (after_push ptr cl g objs w used here h x f m rep same frame)
