-- ===== src/LinkedList/Segments.antt =====
-- What a chain of objects in memory stands for.
use conan_tcmalloc.Base.{
  ℕ, ◌≡◌, ◌≢◌, ap, refl, true, false, List, [], ◌∷◌, ◌++◌, ◌==◌, ◌||◌, arith, has, Distinct,
}
use conan_tcmalloc.PageMap.{update}
use conan_tcmalloc.LinkedList.{Memory}

-- From `p` the words lead through the objects, one after the other, to `q`.
abbrev pub Segment : Memory → ℕ → List ℕ → ℕ → Type 0
Segment m p [] q = p ≡ q
Segment m p (x ∷ xs) q = (p ≡ x) × (x ≢ 0) × Segment m (m x) xs q

-- The list of objects that a head stands for: each object is on it once.
pub record Holds (m : Memory) (head : ℕ) (xs : List ℕ) : Type 0 where
  pub chain : Segment m head xs 0
  pub distinct : Distinct xs

pub Segment-update :
    (m : Memory) (p q a v : ℕ) (xs : List ℕ)
    → has a xs ≡ false
    → Segment m p xs q
    → Segment (update m a v) p xs q
Segment-update m p q a v [] off s = s
Segment-update m p q a v (x ∷ xs) off (at, ne, s) =
    let other : (x == a) ≡ false = ground arith in
    (at, ne, rw other (Segment-update m (m x) q a v xs (ground arith) s))

-- No object is at nullptr.
pub Segment-has_zero : (m : Memory) (p q : ℕ) (xs : List ℕ) → Segment m p xs q → has 0 xs ≡ false
Segment-has_zero m p q [] s = refl
Segment-has_zero m p q (x ∷ xs) (at, ne, s) = ground (arith, Segment-has_zero m (m x) q xs s)

pub has-append : (a : ℕ) (xs ys : List ℕ) → has a (xs ++ ys) ≡ (has a xs || has a ys)
has-append a [] ys = refl
has-append a (x ∷ xs) ys = ground (arith, has-append a xs ys)

-- Lists that share no object.
abbrev pub Disjoint : List ℕ → List ℕ → Type 0
Disjoint xs ys = (a : ℕ) → has a xs ≡ true → has a ys ≡ false

pub Distinct-append :
    (xs ys : List ℕ) → Distinct xs → Distinct ys → Disjoint xs ys → Distinct (xs ++ ys)
Distinct-append [] ys dx dy apart = dy
Distinct-append (x ∷ xs) ys (new, dx) dy apart = (
  ground (arith, has-append x xs ys, apart x),
  Distinct-append xs ys dx dy (λ a h. apart a (ground arith)),
)

pub Segment-append :
    (m : Memory) (p q r : ℕ) (xs ys : List ℕ)
    → Segment m p xs q
    → Segment m q ys r
    → Segment m p (xs ++ ys) r
Segment-append m p q r [] ys s t = rw s t
Segment-append m p q r (x ∷ xs) ys (at, ne, s) t = (at, ne, Segment-append m (m x) q r xs ys s t)

-- The words of the objects are all that counts.
pub Segment-frame :
    (m m' : Memory) (p q : ℕ) (xs : List ℕ)
    → ((a : ℕ) → has a xs ≡ true → m' a ≡ m a)
    → Segment m p xs q
    → Segment m' p xs q
Segment-frame m m' p q [] same s = s
Segment-frame m m' p q (x ∷ xs) same (at, ne, s) = (
  at,
  ne,
  rw (same x (ground arith)) (Segment-frame m m' (m x) q xs (λ a h. same a (ground arith)) s),
)

pub append_nil : (xs : List ℕ) → xs ++ [] ≡ xs
append_nil [] = refl
append_nil (x ∷ xs) = ap (λ ys. x ∷ ys) (append_nil xs)
