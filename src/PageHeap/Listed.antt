-- ===== src/PageHeap/Listed.antt =====
-- The free lists of src/src/page_heap.cc and the spans agree: what CheckList and CheckSet look for, and
-- that no free span is missing. A span may be off its list for a time: it is then `held`.
pub mod Moves
use conan_tcmalloc.Base.{
  ℕ, zero, suc, ◌+◌, ◌-◌, ◌<◌, ◌≡◌, ◌≢◌, refl, Bool, true, false, ◌||◌, Option, none, some, List,
  [], ◌∷◌, ltb, ◌==◌, if◌then◌else◌, arith, has, Bool-cases, inl, inr,
}
use conan_tcmalloc.PageMap.{update}
use conan_tcmalloc.PageHeap.State.{
  Location, in_use, on_normal_freelist, on_returned_freelist, Span, FreeLists, max_pages,
}
use conan_tcmalloc.PageHeap.FreeLists.{is_normal, is_returned, insert_set, remove, best_fit_less}

-- The list for a span of this location and length.
abbrev pub home : Span → FreeLists → List ℕ
home s l =
    if ltb max_pages s.length
    then (if is_returned s.location then l.large_returned else l.large_normal)
    else (if is_normal s.location then l.normal (s.length - 1) else l.returned (s.length - 1))

-- What a pointer on a list is.
abbrev pub OnList : (ℕ → Bool) → (ℕ → Option Span) → Location → ℕ → (Span → Type 0) → Type 0
OnList held spans loc p Fits =
    (s : Span) × (spans p ≡ some s) × (held p ≡ false) × (s.location ≡ loc) × Fits s

pub record Listed (held : ℕ → Bool) (spans : ℕ → Option Span) (l : FreeLists) : Type 0 where
  pub listed :
      (p : ℕ) (s : Span)
      → spans p ≡ some s
      → held p ≡ false
      → s.location ≢ in_use
      → has p (home s l) ≡ true
  pub normal :
      (i p : ℕ)
      → has p (l.normal i) ≡ true
      → OnList held spans on_normal_freelist p (λ s. (s.length ≡ i + 1) × (i < max_pages))
  pub returned :
      (i p : ℕ)
      → has p (l.returned i) ≡ true
      → OnList held spans on_returned_freelist p (λ s. (s.length ≡ i + 1) × (i < max_pages))
  pub large_normal :
      (p : ℕ)
      → has p l.large_normal ≡ true
      → OnList held spans on_normal_freelist p (λ s. max_pages < s.length)
  pub large_returned :
      (p : ℕ)
      → has p l.large_returned ≡ true
      → OnList held spans on_returned_freelist p (λ s. max_pages < s.length)

pub has-remove :
    (p q : ℕ) (xs : List ℕ) → has q (remove p xs) ≡ (if q == p then false else has q xs)
unfolding remove
has-remove p q [] = ground arith
has-remove p q (x ∷ xs) = ground (arith, has-remove p q xs)

pub has-insert_set :
    (spans : ℕ → Option Span) (p q : ℕ) (s : Span) (xs : List ℕ)
    → has q (insert_set spans p s xs) ≡ ((q == p) || has q xs)
unfolding insert_set
has-insert_set spans p q s [] = refl
has-insert_set spans p q s (x ∷ xs) = ground (arith, has-insert_set spans p q s xs)
