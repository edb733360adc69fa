-- ===== src/PageMap.antt =====
-- src/src/pagemap.h: the maps from page numbers to pointers, as flat array and as radix trees.
-- A stored pointer is an `Option V`, with `none` for nullptr. The allocator is the function pointer
-- that the constructor takes: its i-th call gives memory exactly if `grants i`.
pub mod One
pub mod Two
pub mod Three
use mathlib.Core.Path.{fun_ext}
use conan_tcmalloc.Base.{
  ℕ, ◌+◌, ◌≤◌, ◌<◌, ◌≡◌, Bool, true, Option, none, some, arith, ltb, leb, ◌==◌, if◌then◌else◌,
  Bool-cases, inl, inr,
}

abbrev pub update {ℓ} : {A : Type ℓ} → (ℕ → A) → ℕ → A → ℕ → A
update f i v j = if j == i then v else f j

-- The result of a search upwards from `k`: the value at the least key that holds one, if any does.
pub data IsFirst {V : Type 0} (f : ℕ → Option V) (k : ℕ) : Option V → Type 0 where
  found :
      {v : V} (j : ℕ)
      → k ≤ j
      → f j ≡ some v
      → ((i : ℕ) → k ≤ i → i < j → f i ≡ none)
      → IsFirst f k (some v)
  absent : ((i : ℕ) → k ≤ i → f i ≡ none) → IsFirst f k none

pub IsFirst-skip :
    {V : Type 0} {f : ℕ → Option V} {r : Option V} (k j : ℕ)
    → k ≤ j
    → ((i : ℕ) → k ≤ i → i < j → f i ≡ none)
    → IsFirst f j r
    → IsFirst f k r
IsFirst-skip k j h empty (found i le e below) = found i (omega arith) e (λ i' p q.
    elim (Bool-cases (ltb i' j)) [
      | inl lt ↦ empty i' p (ground arith)
      | inr ge ↦ below i' (ground arith) q
    ])
IsFirst-skip k j h empty (absent above) = absent (λ i p. elim (Bool-cases (ltb i j)) [
  | inl lt ↦ empty i p (ground arith)
  | inr ge ↦ above i (ground arith)
])

pub update-update {ℓ} :
    {A : Type ℓ} (f : ℕ → A) (p : ℕ) (v w : A) → update (update f p v) p w ≡ update f p w
update-update f p v w = fun_ext λ q. ground arith
