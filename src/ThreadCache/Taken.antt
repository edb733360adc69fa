-- ===== src/ThreadCache/Taken.antt =====
-- Allocate of src/src/thread_cache.h from a list that has an object.
use conan_tcmalloc.Base.{
  ℕ, ◌+◌, ◌*◌, ◌%◌, ◌^◌, ◌≤◌, ◌<◌, ◌≡◌, ◌⊎◌, ◌∙◌, subst, refl, true, false, some, List, ◌∷◌, ◌==◌,
  arith, has, length, Bool-cases, inl, inr,
}
use conan_tcmalloc.PageMap.{update}
use conan_tcmalloc.PageHeap.Tally.{tally}
use conan_tcmalloc.ThreadCache.FreeList.{FreeList, sub32}
use conan_tcmalloc.ThreadCache.Lists.{Represents, SameLimits, try_pop-Taken}
use conan_tcmalloc.ThreadCache.Cache.{
  Central, World, list_of, with_list, with_size, max_dynamic_length,
}
use conan_tcmalloc.ThreadCache.Traffic.{allocate}
use conan_tcmalloc.ThreadCache.Invariant.{Ghosts, IsLawful, IsHeld}
use conan_tcmalloc.ThreadCache.Owned.{Step}
use conan_tcmalloc.ThreadCache.Release.{bytes-change}
use conan_tcmalloc.ThreadCache.Health.{Healthy}
use conan_tcmalloc.ThreadCache.Given.{changed-Healthy, Keeps, IsNew, Given}

module _ (C : Central) (classes : ℕ) (G : Ghosts C) (law : IsLawful C classes G)
    (size_of batch : ℕ → ℕ) (me n : ℕ) (me_lt : me < n)
    (batch_ok : (cl : ℕ)
      → 0 < cl
      → cl < classes
      → (0 < batch cl) × (batch cl ≤ max_dynamic_length)) where
  abbrev K : G.Ghost → (ℕ → List ℕ) → World C → Type 0
  K = Healthy C classes G law size_of batch me n me_lt batch_ok

  abbrev Held : G.Ghost → (ℕ → List ℕ) → ℕ → ℕ → Type 0
  Held = IsHeld C classes G

  -- The first object of the list is taken.
  module _ (x : ℕ) (xs : List ℕ) (cl : ℕ) (g : G.Ghost) (objs : ℕ → List ℕ) (w : World C)
      (used : 0 < cl) (here : cl < classes) (h : K g objs w) (e : objs cl ≡ x ∷ xs) (f : FreeList)
      (rep : Represents w.memory f xs) (same : SameLimits (list_of me cl w) f) where
    abbrev taken : World C
    taken = record (with_list me cl f w) { memory = w.memory; central = w.central }

    in_list : (a : ℕ) → has a xs ≡ true → has a (objs cl) ≡ true
    in_list a on = rw e (ground arith)

    taken-Step : Step C classes G me cl g g objs w taken f xs
    taken-Step = record {
      list = λ dl. let itself : (me == me) ≡ true = ground arith in rw (itself, list_of) refl;
      objects = rep;
      foreign = λ dl a lt ne on.
          let off = h.owns.apart dl cl lt here ne a on in ground (arith, in_list a);
      own = λ a on. h.owns.own cl a here (in_list a on);
      frame = λ dl a mine off gone. (mine, refl);
      valid = h.owns.valid;
    }

    taken_bytes :
        tally (λ c. length (update objs cl xs c) * size_of c) classes % 2 ^ 32
        ≡ sub32 (w.caches me).size (size_of cl % 2 ^ 32)
    unfolding sub32
    taken_bytes =
        let bytes = bytes-change C classes G law size_of batch me cl xs objs here in
        let before : length (objs cl) * size_of cl ≡ length xs * size_of cl + size_of cl =
          rw e (grind arith) in
        let sum = h.sized in omega (arith, bytes, before, sum)

    taken-Healthy :
        K g
          (update objs cl xs)
          (with_size me (sub32 (w.caches me).size (size_of cl % 2 ^ 32)) taken)
    taken-Healthy =
        changed-Healthy C classes G law size_of batch me n me_lt batch_ok cl _ g g objs xs w f
          w.memory w.central used here h taken-Step (same.2 ∙ h.sizes cl here)
          (rw (same.0) (h.limits cl here)) taken_bytes

    fewer_listed :
        (a dl : ℕ)
        → dl < classes
        → has a (objs dl) ≡ false
        → has a (objs cl) ≡ false
        → has a (update objs cl xs dl) ≡ false
    fewer_listed a dl lt off out = elim (Bool-cases (dl == cl)) [
      | inl at ↦ rw at (ground (arith, in_list a))
      | inr other ↦ rw other off
    ]

    only_first : (dl a : ℕ) → Held g (update objs cl xs) dl a → (a ≡ x) ⊎ Held g objs dl a
    only_first dl a held = elim (Bool-cases (a == x)) [
      | inl at ↦ inl (ground arith)
      | inr other ↦
          let itself : (cl == cl) ≡ true = ground arith in
          let at_cl = held.listed cl here in
          let off : has a xs ≡ false = rw itself at at_cl in
          let out : has a (objs cl) ≡ false = rw e (ground arith) in
          inr (record {
            given = held.given;
            listed = λ c lt.
                let at_c = held.listed c lt in
                elim (Bool-cases (c == cl)) [
                  | inr ne ↦ rw ne at at_c
                  | inl here_too ↦
                      let same_class : cl ≡ c = ground arith in
                      subst (λ k. has a (objs k) ≡ false) same_class out
                ];
          })
    ]

    taken-Held : Held g (update objs cl xs) cl x
    taken-Held =
        let on : has x (objs cl) ≡ true = rw e (ground arith) in
        let whole = subst (Represents w.memory (list_of me cl w)) e (h.owns.lists cl here) in
        let distinct = whole.holds.distinct in
        record {
          given = h.owns.own cl x here on;
          listed = λ dl lt. elim (Bool-cases (dl == cl)) [
            | inl at ↦ rw at (distinct.0)
            | inr other ↦ rw other (h.owns.apart cl dl here lt (ground arith) x on)
          ];
        }

  pub taken-Given :
      (oom : ℕ → ℕ) (x : ℕ) (xs : List ℕ) (cl : ℕ) (g : G.Ghost) (objs : ℕ → List ℕ) (w : World C)
      → 0 < cl
      → cl < classes
      → K g objs w
      → objs cl ≡ x ∷ xs
      → (r : ℕ × World C) × (allocate C size_of batch classes me oom (size_of cl) cl w ≡ some r)
        × Given C classes G law size_of batch me n me_lt batch_ok oom cl g objs w r
  unfolding allocate Given Keeps IsNew
  taken-Given oom x xs cl g objs w used here h e =
      let whole = subst (Represents w.memory (list_of me cl w)) e (h.owns.lists cl here) in
      let (f, is, rep, same) = try_pop-Taken (x ∷ xs) (list_of me cl w) w.memory whole in
      let on : has x (objs cl) ≡ true = rw e (ground arith) in
      (
        (x, with_size me (sub32 (w.caches me).size (size_of cl % 2 ^ 32)) (with_list me cl f w)),
        rw is refl,
        (
          update objs cl xs,
          g,
          taken-Healthy x xs cl g objs w used here h e f rep same,
          λ dl a held. (
            record {
              given = held.given;
              listed = λ c lt.
                  fewer_listed x xs cl g objs w used here h e f rep same a c lt (held.listed c lt)
                    (held.listed cl here);
            },
            refl,
          ),
          inr (
            taken-Held x xs cl g objs w used here h e f rep same,
            whole.holds.chain.1,
            λ dl a held at. cc (on, at, held.listed cl here),
            λ dl a held. only_first x xs cl g objs w used here h e f rep same dl a held,
          ),
        ),
      )
