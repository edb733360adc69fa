-- ===== src/ThreadCache/RoundTrip.antt =====
-- Allocate and then Deallocate of src/src/thread_cache.h.
use conan_tcmalloc.Base.{
  ℕ, ◌+◌, ◌^◌, ◌≤◌, ◌<◌, ◌≡◌, ◌≢◌, ◌⊎◌, ◌∙◌, sym, subst, true, false, some, List, ◌∷◌, ◌==◌, arith,
  has, drop, Bool-cases, inl, inr, ◌%◌,
}
use mathlib.Core.Option.{some-injective}
use conan_tcmalloc.PageMap.{update}
use conan_tcmalloc.LinkedList.Ranges.{has-drop}
use conan_tcmalloc.ThreadCache.Cache.{Central, World, list_of, max_dynamic_length}
use conan_tcmalloc.ThreadCache.Traffic.{deallocate, allocate}
use conan_tcmalloc.ThreadCache.Invariant.{Ghosts, IsLawful, IsHeld, NoMore}
use conan_tcmalloc.ThreadCache.Health.{Healthy}
use conan_tcmalloc.ThreadCache.Deallocate.{deallocate-Shrinks}
use conan_tcmalloc.ThreadCache.Given.{Keeps, IsNew, Given}
use conan_tcmalloc.ThreadCache.Allocate.{allocate-Given}

module _ (C : Central) (classes : ℕ) (G : Ghosts C) (law : IsLawful C classes G)
    (size_of batch : ℕ → ℕ) (me n : ℕ) (me_lt : me < n)
    (batch_ok : (cl : ℕ)
      → 0 < cl
      → cl < classes
      → (0 < batch cl) × (batch cl ≤ max_dynamic_length)) where
  abbrev K : G.Ghost → (ℕ → List ℕ) → World C → Type 0
  K = Healthy C classes G law size_of batch me n me_lt batch_ok

  -- In no list before, and in none that has lost objects.
  still_unlisted :
      (a : ℕ) (xs : List ℕ) (k : ℕ) (ys : List ℕ)
      → ys ≡ drop k xs
      → has a xs ≡ false
      → has a ys ≡ false
  still_unlisted a xs k ys e off = elim (Bool-cases (has a ys)) [
    | inr out ↦ out
    | inl on ↦
        let on' : has a (drop k xs) ≡ true = subst (λ zs. has a zs ≡ true) e on in
        absurd (cc (has-drop a k xs on', off))
  ]

  -- Everything the program had before it asked for the object.
  abbrev pub Restored : (g : G.Ghost) (objs : ℕ → List ℕ) (w w' : World C) → Type 0
  Restored g objs w w' =
      (objs' : ℕ → List ℕ) × (g' : G.Ghost) × K g' objs' w'
      × Keeps C classes G law size_of batch me n me_lt batch_ok g g' objs objs' w w'
      × NoMore C classes G g g' objs objs'

  pushed_unlisted :
      (cl dl a ptr : ℕ) (objs : ℕ → List ℕ)
      → has a (objs dl) ≡ false
      → a ≢ ptr
      → has a (update objs cl (ptr ∷ objs cl) dl) ≡ false
  pushed_unlisted cl dl a ptr objs off ne = elim (Bool-cases (dl == cl)) [
    | inr other ↦ rw other off
    | inl at ↦
        let e : dl ≡ cl = ground arith in
        let off' : has a (objs cl) ≡ false = subst (λ c. has a (objs c) ≡ false) e off in
        rw at (ground arith)
  ]

  -- What is out of the lists with the freed object on one, the program had before it asked for the object.
  IsHeld-before :
      (cl dl a ptr : ℕ) (g g' : G.Ghost) (objs objs' : ℕ → List ℕ)
      → cl < classes
      → IsHeld C classes G g' (update objs' cl (ptr ∷ objs' cl)) dl a
      → ((dl a : ℕ) → IsHeld C classes G g' objs' dl a → (a ≡ ptr) ⊎ IsHeld C classes G g objs dl a)
      → IsHeld C classes G g objs dl a
  IsHeld-before cl dl a ptr g g' objs objs' here held only_one =
      let itself : (cl == cl) ≡ true = ground arith in
      let at_cl = held.listed cl here in
      let off : has a (ptr ∷ objs' cl) ≡ false = rw itself at at_cl in
      let before : IsHeld C classes G g' objs' dl a = record {
        given = held.given;
        listed = λ c lt.
            let at_c = held.listed c lt in
            elim (Bool-cases (c == cl)) [
              | inr other ↦ rw other at at_c
              | inl at ↦
                  let e : cl ≡ c = ground arith in
                  let out : has a (objs' cl) ≡ false = ground arith in
                  subst (λ k. has a (objs' k) ≡ false) e out
            ];
      } in
      elim (only_one dl a before) [ inr had ↦ had | inl same ↦ absurd (ground arith) ]

  freed :
      (cl : ℕ) (g : G.Ghost) (objs : ℕ → List ℕ) (w : World C) (r : ℕ × World C)
      (objs' : ℕ → List ℕ) (g' : G.Ghost)
      → 0 < cl
      → cl < classes
      → K g' objs' r.1
      → Keeps C classes G law size_of batch me n me_lt batch_ok g g' objs objs' w r.1
      → IsNew C classes G law size_of batch me n me_lt batch_ok g g' objs objs' cl r.0
      → (list_of me cl r.1).length + 1 < 2 ^ 32
      → (w' : World C) × (deallocate C size_of batch classes me r.0 cl r.1 ≡ some w')
        × Restored g objs w w'
  unfolding Keeps IsNew
  freed cl g objs w (ptr, v) objs' g' used here h keeps (held, ne, new, only_one) room =
      let counts = (h.owns.lists cl here).counts in
      let (w', objs'', g'', is, h'', fewer, spares, more) =
        deallocate-Shrinks C classes G law size_of batch me n me_lt batch_ok ptr cl g' objs' v used
          here h held (omega (arith, counts)) in
      (
        w',
        is,
        (
          objs'',
          g'',
          h'',
          λ dl a had.
              let (still, same) = keeps dl a had in
              let off = λ (c : ℕ) (lt : c < classes).
                pushed_unlisted cl c a ptr objs' (still.listed c lt) (new dl a had) in
              let (given, kept) = spares dl a still.given off in
              (
                record {
                  given = given;
                  listed =
                      λ c lt. let (k, e) = fewer c in still_unlisted a _ k (objs'' c) e (off c lt);
                },
                kept ∙ same,
              ),
          λ dl a after. IsHeld-before cl dl a ptr g g' objs objs' here (more dl a after) only_one,
        ),
      )

  -- For a thread whose lists are in order, over a central cache with the laws, and with batches
  -- from 1 to kMaxDynamicFreeListLength, and an object that Allocate gave, with the size of a
  -- class other than 0, below 2^32, and that is not what the handler for a lack of memory gives:
  -- Deallocate of it in the cache that Allocate left always returns, if the list has room for it
  -- on 32 bits. The lists are in order, and the objects that are given and in no list of the
  -- thread are exactly those of before Allocate, not written to: the freed object is on a list or
  -- has gone back to the central cache.
  pub deallocate-allocate :
      (oom : ℕ → ℕ) (cl : ℕ) (g : G.Ghost) (objs : ℕ → List ℕ) (w : World C) (r : ℕ × World C)
      → 0 < cl
      → cl < classes
      → K g objs w
      → size_of cl < 2 ^ 32
      → allocate C size_of batch classes me oom (size_of cl) cl w ≡ some r
      → r.0 ≢ oom (size_of cl % 2 ^ 32)
      → (list_of me cl r.1).length + 1 < 2 ^ 32
      → (w' : World C) × (deallocate C size_of batch classes me r.0 cl r.1 ≡ some w')
        × Restored g objs w w'
  unfolding Given
  deallocate-allocate oom cl g objs w r used here h size_lt ran some_object room =
      let (r', is, given) =
        allocate-Given C classes G law size_of batch me n me_lt batch_ok oom cl g objs w used here h
          size_lt in
      let e : r' ≡ r = some-injective r' r (sym is ∙ ran) in
      let (objs', g', h', keeps, result) =
        subst (Given C classes G law size_of batch me n me_lt batch_ok oom cl g objs w) e given in
      elim result [
        | inl (failed, others) ↦ absurd (some_object failed)
        | inr new ↦ freed cl g objs w r objs' g' used here h' keeps new room
      ]
