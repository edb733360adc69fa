-- ===== src/PageHeap/Tally.antt =====
-- Sums over the Span objects of a PageHeap (src/src/page_heap.h): the pages of the spans on normal lists,
-- and those of all spans.
use conan_tcmalloc.Base.{
  ℕ, zero, suc, ◌+◌, ◌*◌, ◌≤◌, ◌<◌, ◌≡◌, ◌≢◌, refl, Bool, false, Option, none, some, ◌==◌, ltb,
  if◌then◌else◌, arith, Bool-cases, inl, inr, ltb→lt, not_ltb→le, subst, sym,
}
use conan_tcmalloc.PageMap.{update}
use conan_tcmalloc.PageHeap.State.{Span, bytes}
use conan_tcmalloc.PageHeap.FreeLists.{is_normal}

unfoldable pub tally : (ℕ → ℕ) → ℕ → ℕ
tally w zero = 0
tally w (suc n) = tally w n + w n

pub tally-same : (w w' : ℕ → ℕ) (n : ℕ) → ((q : ℕ) → q < n → w' q ≡ w q) → tally w' n ≡ tally w n
unfolding tally
tally-same w w' zero h = refl
tally-same w w' (suc n) h =
    omega (arith, tally-same w w' n (λ q lt. h q (omega arith)), h n (omega arith))

-- A change at one place.
pub tally-at :
    (w w' : ℕ → ℕ) (p n : ℕ)
    → p < n
    → ((q : ℕ) → q ≢ p → w' q ≡ w q)
    → tally w' n + w p ≡ tally w n + w' p
unfolding tally
tally-at w w' p zero lt h = absurd (omega arith)
tally-at w w' p (suc n) lt h = elim (Bool-cases (n == p)) [
  | inl last ↦
      let e : n ≡ p = ground arith in
      let same = tally-same w w' n (λ q l. h q (ground arith)) in
      subst (λ k. tally w' n + w' n + w k ≡ tally w n + w n + w' k) e (omega arith)
  | inr other ↦
      let t = tally-at w w' p n (ground arith) h in let e = h n (ground arith) in omega arith
]

pub le-tally : (w : ℕ → ℕ) (p n : ℕ) → p < n → w p ≤ tally w n
unfolding tally
le-tally w p zero lt = absurd (omega arith)
le-tally w p (suc n) lt = elim (Bool-cases (n == p)) [
  | inl last ↦ let e : n ≡ p = ground arith in subst (λ k. w k ≤ tally w n + w n) e (omega arith)
  | inr other ↦ omega (arith, le-tally w p n (ground arith))
]

-- A sum that is not 0 has a part that is not 0.
pub tally_pos : (w : ℕ → ℕ) (n : ℕ) → 0 < tally w n → (p : ℕ) × (0 < w p)
unfolding tally
tally_pos w zero h = absurd (omega arith)
tally_pos w (suc n) h = elim (Bool-cases (ltb 0 (w n))) [
  | inl here ↦ (n, ltb→lt 0 (w n) here)
  | inr none_here ↦ tally_pos w n (omega (arith, not_ltb→le 0 (w n) none_here))
]

abbrev pub pages_if_normal : (ℕ → Option Span) → ℕ → ℕ
pages_if_normal spans p = elim (spans p) [
  | none ↦ 0
  | some s ↦ if is_normal s.location then s.length else 0
]

-- What a span counts for among the pages on normal lists.
abbrev pub normal_pages : (ℕ → Bool) → (ℕ → Option Span) → ℕ → ℕ
normal_pages held spans p =
    if held p
    then 0
    else elim (spans p) [ none ↦ 0 | some s ↦ if is_normal s.location then s.length else 0 ]

abbrev pub pages_of : (ℕ → Option Span) → ℕ → ℕ
pages_of spans p = elim (spans p) [ none ↦ 0 | some s ↦ s.length ]

pub pages_of-update_ne :
    (spans : ℕ → Option Span) (p q : ℕ) (o : Option Span)
    → q ≢ p
    → pages_of (update spans p o) q ≡ pages_of spans q
pages_of-update_ne spans p q o ne =
    let other : (q == p) ≡ false = ground arith in rw (other, pages_of)

-- One span changes, or is made or deleted.
pub pages_of-tally :
    (spans : ℕ → Option Span) (p n : ℕ) (o : Option Span)
    → p < n
    → tally (pages_of (update spans p o)) n + pages_of spans p
      ≡ tally (pages_of spans) n + pages_of (update spans p o) p
pages_of-tally spans p n o lt =
    tally-at (pages_of spans) (pages_of (update spans p o)) p n lt
      (λ q ne. pages_of-update_ne spans p q o ne)

-- The bytes on normal lists, over all objects that were handed out.
abbrev pub Counts : (ℕ → ℕ) → (next free : ℕ) → Type 0
Counts w next free = (n : ℕ) → next ≤ n → bytes (tally w n) ≡ free

-- All spans lie in memory from the system.
abbrev pub Owns : (ℕ → ℕ) → (next system : ℕ) → Type 0
Owns w next system = (n : ℕ) → next ≤ n → tally w n * 8192 ≤ system

module _ {w w' : ℕ → ℕ} {next next' : ℕ} (le : next ≤ next') (same : (q : ℕ) → w' q ≡ w q) where
  pub Counts-same : {free : ℕ} → Counts w next free → Counts w' next' free
  Counts-same c n h = rw (tally-same w w' n (λ q lt. same q)) (c n (omega arith))

  pub Owns-same : {system : ℕ} → Owns w next system → Owns w' next' system
  Owns-same c n h = omega (arith, tally-same w w' n (λ q lt. same q), c n (omega arith))

pub tally_zero : (n : ℕ) → tally (λ p. 0) n ≡ 0
unfolding tally
tally_zero zero = refl
tally_zero (suc n) = omega (arith, tally_zero n)

-- Beyond the last number that was handed out there is nothing to add.
pub tally_beyond :
    (w : ℕ → ℕ) (m n : ℕ) → m ≤ n → ((q : ℕ) → m ≤ q → w q ≡ 0) → tally w n ≡ tally w m
unfolding tally
tally_beyond w m zero le h = let e : m ≡ 0 = omega arith in subst (λ k. 0 ≡ tally w k) (sym e) refl
tally_beyond w m (suc n) le h = elim (Bool-cases (ltb n m)) [
  | inl at ↦
      let e : suc n ≡ m = omega (arith, ltb→lt n m at) in
      subst (λ k. tally w n + w n ≡ tally w k) e refl
  | inr more ↦ let b = not_ltb→le n m more in omega (arith, tally_beyond w m n b h, h n b)
]

pub Counts-beyond :
    (w : ℕ → ℕ) (next : ℕ) {free : ℕ}
    → ((q : ℕ) → next ≤ q → w q ≡ 0)
    → bytes (tally w next) ≡ free
    → Counts w next free
Counts-beyond w next h e n k = rw (tally_beyond w next n k h) e

pub Owns-beyond :
    (w : ℕ → ℕ) (next : ℕ) {system : ℕ}
    → ((q : ℕ) → next ≤ q → w q ≡ 0)
    → tally w next * 8192 ≤ system
    → Owns w next system
Owns-beyond w next h e n k = omega (arith, tally_beyond w next n k h)
