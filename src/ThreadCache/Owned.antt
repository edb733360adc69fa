-- ===== src/ThreadCache/Owned.antt =====
-- A step of a thread's cache (src/src/thread_cache.cc) that changes one list.
use conan_tcmalloc.Base.{
  ℕ, ◌<◌, ◌≡◌, ◌≢◌, subst, true, false, List, ◌==◌, arith, has, if◌then◌else◌, Bool-cases, inl, inr,
}
use conan_tcmalloc.PageMap.{update}
use conan_tcmalloc.LinkedList.{Memory}
use conan_tcmalloc.LinkedList.Segments.{Segment-frame}
use conan_tcmalloc.ThreadCache.FreeList.{FreeList}
use conan_tcmalloc.ThreadCache.Lists.{Represents}
use conan_tcmalloc.ThreadCache.Cache.{Central, World, list_of}
use conan_tcmalloc.ThreadCache.Invariant.{Ghosts, Owns}

pub Represents-frame :
    (m m' : Memory) (f : FreeList) (xs : List ℕ)
    → ((a : ℕ) → has a xs ≡ true → m' a ≡ m a)
    → Represents m f xs
    → Represents m' f xs
Represents-frame m m' f xs same r = record {
  holds = record {
    chain = Segment-frame m m' f.list 0 xs same r.holds.chain;
    distinct = r.holds.distinct;
  };
  counts = r.counts;
  low = r.low;
  small = r.small;
}

-- The list of class `cl` becomes `f`, with the objects `ys`, and no object of another list is touched.
pub record Step (C : Central) (classes : ℕ) (G : Ghosts C) (me cl : ℕ) (g g' : G.Ghost)
    (objs : ℕ → List ℕ) (w w' : World C) (f : FreeList) (ys : List ℕ) : Type 0 where
  pub list : (dl : ℕ) → list_of me dl w' ≡ (if dl == cl then f else list_of me dl w)
  pub objects : Represents w'.memory f ys
  pub foreign : (dl a : ℕ) → dl < classes → dl ≢ cl → has a (objs dl) ≡ true → has a ys ≡ false
  pub own : (a : ℕ) → has a ys ≡ true → G.given g' cl a ≡ true
  pub frame :
      (dl a : ℕ)
      → G.given g dl a ≡ true
      → has a (objs cl) ≡ false
      → has a ys ≡ false
      → (G.given g' dl a ≡ true) × (w'.memory a ≡ w.memory a)
  pub valid : G.Valid g' w'.central w'.memory

module _ {C : Central} {classes : ℕ} {G : Ghosts C} {me cl : ℕ} {g g' : G.Ghost} {objs : ℕ → List ℕ}
    {w w' : World C} {f : FreeList} {ys : List ℕ} (here : cl < classes)
    (o : Owns C classes G me g objs w) (s : Step C classes G me cl g g' objs w w' f ys) where
  -- An object of another list.
  other_list :
      (dl a : ℕ)
      → dl < classes
      → dl ≢ cl
      → has a (objs dl) ≡ true
      → (G.given g' dl a ≡ true) × (w'.memory a ≡ w.memory a)
  other_list dl a lt ne h =
      s.frame dl a (o.own dl a lt h) (o.apart dl cl lt here ne a h) (s.foreign dl a lt ne h)

  pub Owns-step : Owns C classes G me g' (update objs cl ys) w'
  Owns-step = record {
    lists = λ dl lt. elim (Bool-cases (dl == cl)) [
      | inl at ↦ rw (s.list dl) (rw at s.objects)
      | inr other ↦ rw (s.list dl) (
          rw other (
            Represents-frame w.memory w'.memory (list_of me dl w) (objs dl)
              (λ a h. (other_list dl a lt (ground arith) h).1) (o.lists dl lt)))
    ];
    apart = λ dl el ld le ne a h. elim (Bool-cases (dl == cl)) [
      | inl at ↦ elim (Bool-cases (el == cl)) [
        | inl at' ↦ absurd (ne (ground arith))
        | inr other ↦
            let on : has a ys ≡ true = rw at at h in rw other (ground (arith, s.foreign el a le))
      ]
      | inr other ↦
          let on : has a (objs dl) ≡ true = rw other at h in
          elim (Bool-cases (el == cl)) [
            | inl at ↦ rw at (s.foreign dl a ld (ground arith) on)
            | inr other' ↦ rw other' (o.apart dl el ld le ne a on)
          ]
    ];
    own = λ dl a lt h. elim (Bool-cases (dl == cl)) [
      | inl at ↦
          let e : cl ≡ dl = ground arith in
          subst (λ k. G.given g' k a ≡ true) e (s.own a (rw at at h))
      | inr other ↦ (other_list dl a lt (ground arith) (rw other at h)).0
    ];
    valid = s.valid;
  }
