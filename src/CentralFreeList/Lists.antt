-- ===== src/CentralFreeList/Lists.antt =====
-- ReleaseToSpans of an object that a thread has, and ReleaseListToSpans of a chain of them
-- (src/src/central_freelist.cc).
use conan_tcmalloc.Base.{
  ℕ, zero, suc, ◌<◌, ◌≡◌, ◌∙◌, refl, true, false, some, List, [], ◌∷◌, ◌==◌, arith, has, Distinct,
  length,
}
use conan_tcmalloc.LinkedList.Segments.{Segment, Segment-frame}
use conan_tcmalloc.LinkedList.Laws.{sll_next-some}
use conan_tcmalloc.CentralFreeList.{Pages, Store}
use conan_tcmalloc.CentralFreeList.Release.{release_to_spans, release_list_to_spans}
use conan_tcmalloc.CentralFreeList.Invariant.{Places, is_given, IsPageHeap, IsValid}
use conan_tcmalloc.CentralFreeList.Places.{given-loose}
use conan_tcmalloc.CentralFreeList.Released.{TookBack, release_here}

module _ (P : Pages) (law : IsPageHeap P) (size_of batch pages : ℕ → ℕ) (classes : ℕ) where
  pub release-TookBack :
      (cl a : ℕ) (at : Places) (s : Store P)
      → cl < classes
      → IsValid P law size_of batch pages classes at s
      → is_given cl (at a) ≡ true
      → (at' : Places) × (s' : Store P) × (release_to_spans P size_of batch classes cl a s
          ≡ some s')
        × TookBack P law size_of batch pages classes (a ∷ []) at at' s s'
  release-TookBack cl a at s lt v mine =
      let (p, on, inside) = v.origin cl a lt (given-loose cl (at a) mine) in
      release_here P law size_of batch pages classes cl a p lt at s v mine on inside

  nothing_TookBack :
      (at : Places) (s : Store P)
      → IsValid P law size_of batch pages classes at s
      → TookBack P law size_of batch pages classes [] at at s s
  nothing_TookBack at s v = record { valid = v; given = λ dl b. refl; memory = λ dl b h. refl }

  TookBack-cons :
      (a : ℕ) (xs : List ℕ) (at₀ at₁ at₂ : Places) (s₀ s₁ s₂ : Store P)
      → TookBack P law size_of batch pages classes (a ∷ []) at₀ at₁ s₀ s₁
      → TookBack P law size_of batch pages classes xs at₁ at₂ s₁ s₂
      → TookBack P law size_of batch pages classes (a ∷ xs) at₀ at₂ s₀ s₂
  TookBack-cons a xs at₀ at₁ at₂ s₀ s₁ s₂ t u = record {
    valid = u.valid;
    given = λ dl b. ground (arith, u.given dl b, t.given dl b);
    memory = λ dl b h.
        let before : is_given dl (at₁ b) ≡ true = ground (arith, u.given dl b, h) in
        u.memory dl b h ∙ t.memory dl b before;
  }

  -- ReleaseListToSpans of a chain of objects that threads have always returns; the objects are no
  -- longer with a thread, and nothing else that a thread has is touched.
  pub release_list-TookBack :
      (fuel cl start : ℕ) (xs : List ℕ) (at : Places) (s : Store P)
      → cl < classes
      → IsValid P law size_of batch pages classes at s
      → Segment s.memory start xs 0
      → Distinct xs
      → ((a : ℕ) → has a xs ≡ true → is_given cl (at a) ≡ true)
      → length xs < fuel
      → (at' : Places) × (s' : Store P) × (release_list_to_spans P size_of batch classes fuel cl
            start s
          ≡ some s')
        × TookBack P law size_of batch pages classes xs at at' s s'
  unfolding release_list_to_spans
  release_list-TookBack zero cl start xs at s lt v chain d mine enough = absurd (omega arith)
  release_list-TookBack (suc fuel) cl start [] at s lt v chain d mine enough =
      (at, s, rw chain refl, nothing_TookBack at s v)
  release_list-TookBack (suc fuel) cl start (x ∷ xs) at s lt v (here, ne, chain) (off, d) mine
        enough =
      let (at₁, s₁, is₁, t) = release-TookBack cl x at s lt v (mine x (ground arith)) in
      let still : (a : ℕ) → has a xs ≡ true → is_given cl (at₁ a) ≡ true =
        λ a h. let m = mine a (ground arith) in ground (arith, t.given cl a, h, off, m) in
      let rest =
        Segment-frame s.memory s₁.memory (s.memory x) 0 xs (λ a h. t.memory cl a (still a h))
          chain in
      let (at₂, s₂, is₂, u) =
        release_list-TookBack fuel cl (s.memory x) xs at₁ s₁ lt t.valid rest d still
          (omega arith) in
      let more : (x == 0) ≡ false = ground arith in
      (
        at₂,
        s₂,
        rw (here, more, sll_next-some x s.memory ne, is₁) is₂,
        TookBack-cons x xs at at₁ at₂ s s₁ s₂ t u,
      )
