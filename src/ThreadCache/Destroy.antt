-- ===== src/ThreadCache/Destroy.antt =====
-- ~ThreadCache of src/src/thread_cache.cc.
use conan_tcmalloc.Base.{
  ℕ, zero, suc, ◌+◌, ◌*◌, ◌≤◌, ◌<◌, ◌≡◌, ◌∙◌, ap, subst, refl, true, Option, some, List, [], ◌∷◌,
  ltb, ◌==◌, arith, length, drop, drop-all, if◌then◌else◌, Bool-cases, inl, inr,
}
use conan_tcmalloc.PageMap.{update}
use conan_tcmalloc.PageHeap.Tally.{tally, tally-same, tally_zero}
use conan_tcmalloc.LinkedList.{◌>>=◌}
use conan_tcmalloc.ThreadCache.Cache.{
  Central, World, list_of, release_to_central_cache, max_dynamic_length,
}
use conan_tcmalloc.ThreadCache.Invariant.{Ghosts, IsLawful, IsHeld, Spares}
use conan_tcmalloc.ThreadCache.Health.{
  Healthy, Shrinks, drop_here, release-Healthy, Fewer-trans, Spares-trans,
}

module _ (C : Central) (size_of batch : ℕ → ℕ) (classes me : ℕ) where
  -- The body of the loop.
  abbrev pub empty_list : ℕ → World C → Option (World C)
  empty_list cl w =
      if ltb 0 (list_of me cl w).length
      then release_to_central_cache C size_of batch me cl (list_of me cl w).length w
      else some w

  -- for (cl = 0; cl < num_size_classes(); ++cl), with the rounds left.
  unfoldable pub empty_loop : (rounds cl : ℕ) → World C → Option (World C)
  unfolding release_to_central_cache
  empty_loop zero cl w = some w
  empty_loop (suc rounds) cl w = do w' ← empty_list cl w; empty_loop rounds (cl + 1) w'

  unfoldable pub destroy : World C → Option (World C)
  unfolding empty_loop
  destroy w = empty_loop classes 0 w

length_zero : (xs : List ℕ) → length xs ≡ 0 → xs ≡ []
length_zero [] e = refl
length_zero (x ∷ xs) e = absurd (omega arith)

module _ (C : Central) (classes : ℕ) (G : Ghosts C) (law : IsLawful C classes G)
    (size_of batch : ℕ → ℕ) (me n : ℕ) (me_lt : me < n)
    (batch_ok : (cl : ℕ)
      → 0 < cl
      → cl < classes
      → (0 < batch cl) × (batch cl ≤ max_dynamic_length)) where
  abbrev H : G.Ghost → (ℕ → List ℕ) → World C → Type 0
  H = Healthy C classes G law size_of batch me n me_lt batch_ok

  abbrev Ends : G.Ghost → (ℕ → List ℕ) → World C → Option (World C) → Type 0
  Ends = Shrinks C classes G law size_of batch me n me_lt batch_ok

  -- A list is emptied.
  emptied :
      (cl : ℕ) (g : G.Ghost) (objs : ℕ → List ℕ) (w : World C)
      → cl < classes
      → H g objs w
      → (e : Ends g objs w (empty_list C size_of batch classes me cl w)) × (e.1 cl ≡ [])
  emptied cl g objs w here h =
      let counts = (h.owns.lists cl here).counts in
      let len = (list_of me cl w).length in
      elim (Bool-cases (ltb 0 len)) [
        | inr none_there ↦ rw none_there (
          (w, objs, g, refl, h, λ dl. (0, refl), λ dl a mine off. (mine, refl), λ dl a held. held),
          length_zero (objs cl) (ground (arith, counts)),
        )
        | inl some_there ↦
            let used : 0 < cl = elim (Bool-cases (cl == 0)) [
              | inr other ↦ ground arith
              | inl at ↦
                  let e : 0 ≡ cl = ground arith in
                  let nothing : objs cl ≡ [] = subst (λ c. objs c ≡ []) e h.unused in
                  absurd (ground (arith, counts, ap length nothing))
            ] in
            let (w', g', is, h', spares, no_more) =
              release-Healthy C classes G law size_of batch me n me_lt batch_ok cl len g objs w used
                here h in
            let itself : (cl == cl) ≡ true = ground arith in
            rw some_there (
              (
                w',
                update objs cl (drop len (objs cl)),
                g',
                is,
                h',
                drop_here C classes G law size_of batch me n me_lt batch_ok cl len objs,
                spares,
                no_more,
              ),
              rw itself (drop-all len (objs cl) (omega (arith, counts))),
            )
      ]

  empty_loop-Shrinks :
      (rounds cl : ℕ) (g : G.Ghost) (objs : ℕ → List ℕ) (w : World C)
      → cl + rounds ≤ classes
      → H g objs w
      → (e : Ends g objs w (empty_loop C size_of batch classes me rounds cl w)) × ((c : ℕ)
          → cl ≤ c
          → c < cl + rounds
          → e.1 c ≡ [])
  unfolding empty_loop
  empty_loop-Shrinks zero cl g objs w le h = (
    (w, objs, g, refl, h, λ dl. (0, refl), λ dl a mine off. (mine, refl), λ dl a held. held),
    λ c low high. absurd (omega arith),
  )
  empty_loop-Shrinks (suc rounds) cl g objs w le h =
      let ((w₁, objs₁, g₁, is₁, h₁, f₁, s₁, more₁), gone) = emptied cl g objs w (omega arith) h in
      let ((w₂, objs₂, g₂, is₂, h₂, f₂, s₂, more₂), others) =
        empty_loop-Shrinks rounds (cl + 1) g₁ objs₁ w₁ (omega arith) h₁ in
      (
        (
          w₂,
          objs₂,
          g₂,
          rw is₁ is₂,
          h₂,
          Fewer-trans C classes G law size_of batch me n me_lt batch_ok objs objs₁ objs₂ f₁ f₂,
          Spares-trans C classes G law size_of batch me n me_lt batch_ok g g₁ g₂ objs objs₁ w w₁ w₂
              f₁ s₁ s₂,
          λ dl a held. more₁ dl a (more₂ dl a held),
        ),
        λ c low high. elim (Bool-cases (c == cl)) [
          | inr other ↦ others c (ground arith) (omega arith)
          | inl at ↦
              let (k, e) = f₂ c in
              let same : c ≡ cl = ground arith in
              e ∙ ap (drop k) (ap objs₁ same ∙ gone) ∙ drop-all k [] (omega arith)
        ],
      )

  -- For a thread whose lists are in order, over a central cache with the laws, and with batches
  -- from 1 to kMaxDynamicFreeListLength, ~ThreadCache always returns; every list of the thread is
  -- then empty and its size_ is 0, the central cache is in order, and exactly the objects that
  -- were given and in no list are given still, and not written to: those of the lists have all
  -- gone back.
  pub destroy-Spares :
      (g : G.Ghost) (objs : ℕ → List ℕ) (w : World C)
      → H g objs w
      → (w' : World C) × (g' : G.Ghost) × (destroy C size_of batch classes me w ≡ some w')
        × ((cl : ℕ) → cl < classes → (list_of me cl w').length ≡ 0)
        × ((w'.caches me).size ≡ 0)
        × G.Valid g' w'.central w'.memory
        × Spares C classes G g g' objs w w'
        × ((dl a : ℕ) → G.given g' dl a ≡ true → IsHeld C classes G g objs dl a)
  unfolding destroy
  destroy-Spares g objs w h =
      let ((w', objs', g', is, h', fewer, spares, more), gone) =
        empty_loop-Shrinks classes 0 g objs w (omega arith) h in
      let bytes : tally (λ cl. length (objs' cl) * size_of cl) classes ≡ 0 =
        tally-same (λ c. 0) (λ cl. length (objs' cl) * size_of cl) classes
          (λ c lt. rw (gone c (omega arith) (omega arith)) (omega arith))
        ∙ tally_zero classes in
      (
        w',
        g',
        is,
        λ cl lt. (h'.owns.lists cl lt).counts ∙ ap length (gone cl (omega arith) (omega arith)),
        omega (arith, bytes, h'.sized),
        h'.owns.valid,
        spares,
        λ dl a given. more dl a (record {
          given = given;
          listed = λ c lt. rw (gone c (omega arith) (omega arith)) refl;
        }),
      )
