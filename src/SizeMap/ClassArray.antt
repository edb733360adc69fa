-- ===== src/SizeMap/ClassArray.antt =====
-- The loop of SizeMap::Init of src/src/common.cc that fills class_array_, and SizeClass of
-- src/src/common.h.
use conan_tcmalloc.Base.{
  ℕ, zero, suc, ◌+◌, ◌-◌, ◌*◌, ◌%◌, ◌≤◌, ◌<◌, ◌≡◌, refl, true, false, Option, none, some, arith,
  leb, ltb, ◌==◌, Bool-cases, inl, inr, subst,
}
use conan_tcmalloc.PageMap.{update}
use conan_tcmalloc.SizeMap.{alignment, max_size, class_index}
use conan_tcmalloc.SizeMap.Index.{rounded}
use conan_tcmalloc.SizeMap.Classes.{Classes}

-- for (s = next_size; s <= max_size_in_class; s += kAlignment), on fuel.
unfoldable pub fill_loop : ℕ → (s max_size_in_class c : ℕ) → (ℕ → ℕ) → Option (ℕ → ℕ)
fill_loop zero s m c a = none
fill_loop (suc fuel) s m c a = elim (leb s m) [
  | true ↦ fill_loop fuel (s + alignment) m c (update a (class_index s) c)
  | false ↦ some a
]

-- for (c = 1; c < num_size_classes; c++), with the rounds left.
unfoldable pub fill_classes : (rounds c next_size : ℕ) → (ℕ → ℕ) → (ℕ → ℕ) → Option (ℕ → ℕ)
fill_classes zero c next_size class_to_size a = some a
fill_classes (suc rounds) c next_size class_to_size a =
    elim (fill_loop (class_to_size c + 2) next_size (class_to_size c) c a) [
      | none ↦ none
      | some b ↦ fill_classes rounds (c + 1) (class_to_size c + alignment) class_to_size b
    ]

unfoldable pub class_array : Classes → Option (ℕ → ℕ)
class_array c = fill_classes (c.sc - 1) 1 0 c.class_to_size (λ i. 0)

unfoldable pub size_class : (ℕ → ℕ) → ℕ → ℕ
size_class a size = a (class_index size)

-- The class `c`, one of those below `n`, has room for the size, and the class before it has not.
pub record IsBest (class_to_size : ℕ → ℕ) (n size c : ℕ) : Type 0 where
  pub some_class : 0 < c
  pub known : c < n
  pub room : size ≤ class_to_size c
  pub least : 1 < c → class_to_size (c - 1) < size

-- The sizes of the classes rise up to kMaxSize, and rounding for the index leaves them as they are.
pub record AreSizes (class_to_size : ℕ → ℕ) (n : ℕ) : Type 0 where
  pub rises : (i : ℕ) → 0 < i → i + 1 < n → class_to_size i < class_to_size (i + 1)
  pub whole : (i : ℕ) → 0 < i → i < n → rounded (class_to_size i) ≡ class_to_size i
  pub small : (i : ℕ) → 0 < i → i < n → class_to_size i ≤ max_size

rounded_eights : (s : ℕ) → rounded s ≡ s → s % 8 ≡ 0
rounded_eights s h = ground arith

-- Sizes between two multiples of 8 have one index.
class_index_eights :
    (size s : ℕ)
    → s % 8 ≡ 0
    → s < size + 8
    → size ≤ s
    → s ≤ max_size
    → class_index size ≡ class_index s
unfolding class_index
class_index_eights size s d lo hi m = ground arith

-- A size with the index of one beyond a rounded bound is beyond it too.
class_index_beyond :
    (size s bound : ℕ)
    → class_index size ≡ class_index s
    → size ≤ s
    → s ≤ max_size
    → rounded bound ≡ bound
    → bound < s
    → bound < size
unfolding class_index
class_index_beyond size s bound e le m r lt = ground arith

module _ (class_to_size : ℕ → ℕ) (n : ℕ) (a : AreSizes class_to_size n) where
  -- The entries of the sizes that lie a step of 8 or more below `s` are right.
  abbrev Below : (c s : ℕ) → (ℕ → ℕ) → Type 0
  Below c s array =
      (size : ℕ) → size + 8 ≤ s → IsBest class_to_size c size (array (class_index size))

  Below-update :
      (c s : ℕ) (array : ℕ → ℕ)
      → 0 < c
      → c < n
      → s % 8 ≡ 0
      → s ≤ class_to_size c
      → (1 < c → class_to_size (c - 1) < s)
      → Below (c + 1) s array
      → Below (c + 1) (s + 8) (update array (class_index s) c)
  Below-update c s array pos lt d le over below size h =
      let small = a.small c pos lt in
      elim (Bool-cases (class_index size == class_index s)) [
        | inl same ↦
            rw (same, update)
              (record {
                some_class = pos;
                known = omega arith;
                room = omega arith;
                least = λ more.
                    class_index_beyond size s (class_to_size (c - 1)) (ground arith) (omega arith)
                      (omega arith) (a.whole (c - 1) (omega arith) (omega arith)) (over more);
              })
        | inr other ↦
            rw (other, update)
              (elim (Bool-cases (ltb s (size + 8))) [
                | inl near ↦
                    let e =
                      class_index_eights size s d (ground arith) (omega arith) (omega arith) in
                    absurd (ground (arith, e))
                | inr far ↦ below size (ground arith)
              ])
      ]

  fill_loop-Below :
      (fuel c s : ℕ) (array : ℕ → ℕ)
      → 0 < c
      → c < n
      → s % 8 ≡ 0
      → s ≤ class_to_size c + 8
      → class_to_size c + 8 < s + 8 * fuel
      → (1 < c → class_to_size (c - 1) < s)
      → Below (c + 1) s array
      → (b : ℕ → ℕ) × (fill_loop fuel s (class_to_size c) c array ≡ some b)
        × Below (c + 1) (class_to_size c + 8) b
  unfolding fill_loop
  fill_loop-Below zero c s array pos lt d le f over below = absurd (omega arith)
  fill_loop-Below (suc fuel) c s array pos lt d le f over below =
      elim (Bool-cases (leb s (class_to_size c))) [
        | inl more ↦
            let (b, runs, right) =
              fill_loop-Below fuel c (s + 8) (update array (class_index s) c) pos lt (omega arith)
                (ground arith) (omega arith) (λ h. omega (arith, over h))
                (Below-update c s array pos lt d (ground arith) over below) in
            (b, rw (more, fill_loop) runs, right)
        | inr done ↦
            let e = rounded_eights (class_to_size c) (a.whole c pos lt) in
            (array, rw (done, fill_loop) refl, λ size h. below size (ground (arith, e)))
      ]

  fill_classes-Below :
      (rounds c next_size : ℕ) (array : ℕ → ℕ)
      → 0 < c
      → c + rounds ≡ n
      → next_size % 8 ≡ 0
      → (1 < c → next_size ≡ class_to_size (c - 1) + 8)
      → (c ≡ 1 → next_size ≡ 0)
      → Below c next_size array
      → (b : ℕ → ℕ) × (fill_classes rounds c next_size class_to_size array ≡ some b)
        × ((size : ℕ)
            → 1 < n
            → size ≤ class_to_size (n - 1)
            → IsBest class_to_size n size (b (class_index size)))
  unfolding fill_classes
  fill_classes-Below zero c next_size array pos e d after start below =
      let same : c ≡ n = omega arith in
      (
        array,
        refl,
        subst
            (λ k.
              (size : ℕ)
              → 1 < k
              → size ≤ class_to_size (k - 1)
              → IsBest class_to_size k size (array (class_index size)))
            same (λ size more h. below size (omega (arith, after more))),
      )
  fill_classes-Below (suc rounds) c next_size array pos e d after start below =
      let wider : Below (c + 1) next_size array = λ size h.
        let x = below size h in
        record {
          some_class = x.some_class;
          known = omega (arith, x.known);
          room = x.room;
          least = x.least;
        } in
      let near : next_size ≤ class_to_size c + 8 = elim (Bool-cases (c == 1)) [
        | inl first ↦ omega (arith, start (ground arith))
        | inr later ↦
            let more : 1 < c = ground arith in
            let up : class_to_size (c - 1) < class_to_size (c - 1 + 1) =
              a.rises (c - 1) (omega arith) (omega arith) in
            let back : c - 1 + 1 ≡ c = omega arith in
            let up' = subst (λ k. class_to_size (c - 1) < class_to_size k) back up in
            omega (arith, after more, up')
      ] in
      let (b, runs, right) =
        fill_loop-Below (class_to_size c + 2) c next_size array pos (omega arith) d near
          (omega arith) (λ h. omega (arith, after h)) wider in
      let eights = rounded_eights (class_to_size c) (a.whole c pos (omega arith)) in
      let back : c + 1 - 1 ≡ c = omega arith in
      let (b', runs', right') =
        fill_classes-Below rounds (c + 1) (class_to_size c + 8) b (omega arith) (omega arith)
          (omega arith) (λ h. rw back refl) (λ h. absurd (omega arith)) right in
      (b', rw (runs, fill_classes) runs', right')

pub class_array-IsBest :
    (c : Classes)
    → 1 < c.sc
    → AreSizes c.class_to_size c.sc
    → (b : ℕ → ℕ) × (class_array c ≡ some b)
      × ((size : ℕ)
          → size ≤ c.class_to_size (c.sc - 1)
          → IsBest c.class_to_size c.sc size (size_class b size))
unfolding class_array size_class
class_array-IsBest c more a =
    let (b, runs, right) =
      fill_classes-Below c.class_to_size c.sc a (c.sc - 1) 1 0 (λ i. 0) (omega arith) (omega arith)
        refl (λ h. absurd (omega arith)) (λ h. refl) (λ size h. absurd (omega arith)) in
    (b, runs, λ size h. right size more h)
