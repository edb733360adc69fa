-- ===== src/ThreadCache/Given.antt =====
-- What Allocate of src/src/thread_cache.h leaves and gives.
use conan_tcmalloc.Base.{
  ℕ, ◌*◌, ◌%◌, ◌^◌, ◌≤◌, ◌<◌, ◌≡◌, ◌≢◌, ◌⊎◌, ◌∙◌, ap, true, false, List, ◌==◌, arith, length,
  Bool-cases, inl, inr,
}
use conan_tcmalloc.PageMap.{update}
use conan_tcmalloc.PageHeap.Tally.{tally}
use conan_tcmalloc.LinkedList.{Memory}
use conan_tcmalloc.ThreadCache.FreeList.{FreeList}
use conan_tcmalloc.ThreadCache.Cache.{
  Central, World, list_of, with_list, with_size, max_dynamic_length,
}
use conan_tcmalloc.ThreadCache.Invariant.{Ghosts, IsLawful, IsHeld, NoMore}
use conan_tcmalloc.ThreadCache.Owned.{Step, Owns-step}
use conan_tcmalloc.ThreadCache.Budget.{with_list-Numbered, with_size-Numbered}
use conan_tcmalloc.ThreadCache.Release.{Owns-size}
use conan_tcmalloc.ThreadCache.Health.{Healthy, IsLimit}

module _ (C : Central) (classes : ℕ) (G : Ghosts C) (law : IsLawful C classes G)
    (size_of batch : ℕ → ℕ) (me n : ℕ) (me_lt : me < n)
    (batch_ok : (cl : ℕ)
      → 0 < cl
      → cl < classes
      → (0 < batch cl) × (batch cl ≤ max_dynamic_length)) where
  abbrev K : G.Ghost → (ℕ → List ℕ) → World C → Type 0
  K = Healthy C classes G law size_of batch me n me_lt batch_ok

  abbrev Held : G.Ghost → (ℕ → List ℕ) → ℕ → ℕ → Type 0
  Held = IsHeld C classes G

  -- One list, the memory, the central cache and the size change.
  pub changed-Healthy :
      (cl size : ℕ) (g g' : G.Ghost) (objs : ℕ → List ℕ) (ys : List ℕ) (w : World C) (f : FreeList)
      (m : Memory) (st : C.State)
      → 0 < cl
      → cl < classes
      → K g objs w
      → let v = record (with_list me cl f w) { memory = m; central = st } in
        Step C classes G me cl g g' objs w v f ys
        → f.size ≡ size_of cl
        → IsLimit (f.max_length)
        → tally (λ c. length (update objs cl ys c) * size_of c) classes % 2 ^ 32 ≡ size
        → K g' (update objs cl ys) (with_size me size v)
  changed-Healthy cl size g g' objs ys w f m st used here h step fs limit bytes =
      let itself : (me == me) ≡ true = ground arith in
      let v = record (with_list me cl f w) { memory = m; central = st } in
      record {
        owns = Owns-size C classes G law size_of batch me size (Owns-step here h.owns step);
        sized = rw itself bytes;
        sizes = λ dl lt.
            rw (itself, list_of)
              (elim (Bool-cases (dl == cl)) [
                | inl at ↦
                    let same_class : cl ≡ dl = ground arith in rw at (fs ∙ ap size_of same_class)
                | inr other ↦ rw other (h.sizes dl lt)
              ]);
        limits = λ dl lt.
            rw (itself, list_of)
              (elim (Bool-cases (dl == cl)) [
                | inl at ↦ rw at limit
                | inr other ↦ rw other (h.limits dl lt)
              ]);
        unused = let other : (0 == cl) ≡ false = ground arith in rw other h.unused;
        numbered = with_size-Numbered me n size v (with_list-Numbered me cl n f w m st h.numbered);
      }

  -- What the program had it still has, with what is in it.
  unfoldable pub Keeps : (g g' : G.Ghost) (objs objs' : ℕ → List ℕ) (w w' : World C) → Type 0
  Keeps g g' objs objs' w w' =
      (dl a : ℕ) → Held g objs dl a → Held g' objs' dl a × (w'.memory a ≡ w.memory a)

  -- An object of the class that is in no list, and that the program did not have. It has no other one more.
  unfoldable pub IsNew : (g g' : G.Ghost) (objs objs' : ℕ → List ℕ) (cl ptr : ℕ) → Type 0
  IsNew g g' objs objs' cl ptr =
      Held g' objs' cl ptr
      × (ptr ≢ 0)
      × ((dl a : ℕ) → Held g objs dl a → a ≢ ptr)
      × ((dl a : ℕ) → Held g' objs' dl a → (a ≡ ptr) ⊎ Held g objs dl a)

  -- What Allocate gives: a new object, or what the handler gives.
  unfoldable pub Given :
      (oom : ℕ → ℕ) (cl : ℕ) (g : G.Ghost) (objs : ℕ → List ℕ) (w : World C) → ℕ × World C → Type 0
  Given oom cl g objs w r =
      (objs' : ℕ → List ℕ) × (g' : G.Ghost) × K g' objs' r.1
      × Keeps g g' objs objs' w r.1
      × (((r.0 ≡ oom (size_of cl % 2 ^ 32)) × NoMore C classes G g g' objs objs')
          ⊎ IsNew g g' objs objs' cl r.0)
