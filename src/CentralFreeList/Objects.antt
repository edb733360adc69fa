-- ===== src/CentralFreeList/Objects.antt =====
-- The objects that Populate cuts from a span, and the walk along a list of FetchFromOneSpans
-- (src/src/central_freelist.cc).
use conan_tcmalloc.Base.{
  ℕ, zero, suc, ◌+◌, ◌*◌, ◌≤◌, ◌<◌, ◌≡◌, ◌≢◌, ◌∙◌, ap, subst, refl, true, false, ◌||◌, some, List,
  [], ◌∷◌, leb, ltb, ◌==◌, arith, has, Distinct, length, Bool-cases, inl, inr, word, ◌⊎◌,
}
use conan_tcmalloc.PageMap.{update}
use conan_tcmalloc.LinkedList.{Memory, advance}
use conan_tcmalloc.LinkedList.Segments.{Segment}
use conan_tcmalloc.LinkedList.Laws.{sll_next-some}
use conan_tcmalloc.LinkedList.Ranges.{Cut, walk-Cut}
use conan_tcmalloc.PageHeap.FreeLists.{remove}
use conan_tcmalloc.PageHeap.Listed.{has-remove}
use conan_tcmalloc.CentralFreeList.{Tail, objects_field, first_word, write_tail, walk, cut_objects}

-- `k` objects of a size, one after the other.
unfoldable pub grid : (k ptr size : ℕ) → List ℕ
grid zero ptr size = []
grid (suc k) ptr size = ptr ∷ grid k (ptr + size) size

pub length-grid : (k ptr size : ℕ) → length (grid k ptr size) ≡ k
unfolding grid
length-grid zero ptr size = refl
length-grid (suc k) ptr size = ap suc (length-grid k (ptr + size) size)

-- An object of the grid lies in it with all of its bytes.
pub has-grid :
    (k ptr size a : ℕ) → has a (grid k ptr size) ≡ true → (ptr ≤ a) × (a + size ≤ ptr + k * size)
unfolding grid
has-grid zero ptr size a h = cc
has-grid (suc k) ptr size a h = elim (Bool-cases (a == ptr)) [
  | inl at ↦
      let e : suc k * size ≡ size + k * size = grind arith in (ground arith, ground (arith, e))
  | inr other ↦
      let r = has-grid k (ptr + size) size a (ground arith) in
      let e : suc k * size ≡ size + k * size = grind arith in
      (omega (arith, r.0), omega (arith, r.1, e))
]

pub Distinct-grid : (k ptr size : ℕ) → 0 < size → Distinct (grid k ptr size)
unfolding grid
Distinct-grid zero ptr size pos = tt
Distinct-grid (suc k) ptr size pos = (
  elim (Bool-cases (has ptr (grid k (ptr + size) size))) [
    | inl on ↦ absurd (omega (arith, (has-grid k (ptr + size) size ptr on).0))
    | inr off ↦ off
  ],
  Distinct-grid k (ptr + size) size pos,
)

-- Where a tail points.
abbrev pub read_tail : Tail → ℕ × Memory → ℕ
read_tail objects_field (o, m) = o
read_tail (first_word a) (o, m) = m a

abbrev Untouched : Tail → ℕ → Type 0
Untouched objects_field a = Unit {0}
Untouched (first_word b) a = a ≢ b

-- The tail lies before the next object.
abbrev pub IsBehind : ℕ → Tail → Type 0
IsBehind ptr objects_field = Unit {0}
IsBehind ptr (first_word a) = a < ptr

abbrev FieldKept : Tail → (o o' : ℕ) → Type 0
FieldKept objects_field o o' = Unit {0}
FieldKept (first_word a) o o' = o' ≡ o

-- What the loop of Populate leaves: a chain through the grid, and nothing else is written.
pub record WasCut (k ptr size : ℕ) (tail : Tail) (f f' : ℕ × Memory) : Type 0 where
  pub chain : Segment f'.1 (read_tail tail f') (grid k ptr size) 0
  pub frame : (a : ℕ) → has a (grid k ptr size) ≡ false → Untouched tail a → f'.1 a ≡ f.1 a
  pub field : FieldKept tail f.0 f'.0

ends-WasCut :
    (ptr size : ℕ) (tail : Tail) (f : ℕ × Memory) → WasCut 0 ptr size tail f (write_tail tail 0 f)
unfolding grid
ends-WasCut ptr size objects_field (o, m) = record {
  chain = refl;
  frame = λ a off other. refl;
  field = tt;
}
ends-WasCut ptr size (first_word b) (o, m) = record {
  chain = ground arith;
  frame = λ a off other. ground arith;
  field = refl;
}

on-WasCut :
    (k ptr size : ℕ) (tail : Tail) (f f' : ℕ × Memory)
    → 0 < ptr
    → 0 < size
    → IsBehind ptr tail
    → WasCut k (ptr + size) size (first_word ptr) (write_tail tail ptr f) f'
    → WasCut (suc k) ptr size tail f f'
unfolding grid
on-WasCut k ptr size objects_field (o, m) (o', m') pos some_size b w = record {
  chain = (w.field, (λ e. omega arith), w.chain);
  frame = λ a off other. w.frame a (ground arith) (λ e. ground arith);
  field = tt;
}
on-WasCut k ptr size (first_word c) (o, m) (o', m') pos some_size b w =
    let off : has c (grid k (ptr + size) size) ≡ false =
      elim (Bool-cases (has c (grid k (ptr + size) size))) [
        | inl on ↦ absurd (omega (arith, (has-grid k (ptr + size) size c on).0))
        | inr off ↦ off
      ] in
    let here : m' c ≡ ptr = w.frame c off (λ e. omega arith) ∙ ground arith in
    record {
      chain = (here, (λ e. omega arith), w.chain);
      frame = λ a away other.
          let same : m' a ≡ update m c ptr a = w.frame a (ground arith) (λ e. ground arith) in
          ground (arith, same);
      field = w.field;
    }

-- The loop of Populate ends, for a span below 2^64 that has room for the objects and for no more:
-- the objects are linked in the order of their addresses, from the field of the span on, and the
-- last one has nullptr; no other word is written, and the field is not read.
pub cut_objects-WasCut :
    (fuel k ptr limit size num : ℕ) (tail : Tail) (f : ℕ × Memory)
    → 0 < ptr
    → 0 < size
    → ptr + k * size ≤ limit
    → limit < ptr + k * size + size
    → limit < word
    → k < fuel
    → IsBehind ptr tail
    → (f' : ℕ × Memory) × (cut_objects fuel tail ptr limit size num f ≡ some (num + k, f'))
      × WasCut k ptr size tail f f'
unfolding cut_objects
cut_objects-WasCut zero k ptr limit size num tail f pos some_size fits full small enough b =
    absurd (omega arith)
cut_objects-WasCut (suc fuel) zero ptr limit size num tail f pos some_size fits full small enough
      b =
    let stop : (leb word (ptr + size) || ltb limit (ptr + size)) ≡ true = ground arith in
    let none_more : num + 0 ≡ num = omega arith in
    (write_tail tail 0 f, rw (stop, none_more) refl, ends-WasCut ptr size tail f)
cut_objects-WasCut (suc fuel) (suc k) ptr limit size num tail f pos some_size fits full small enough
      b =
    let e : suc k * size ≡ size + k * size = grind arith in
    let more : (leb word (ptr + size) || ltb limit (ptr + size)) ≡ false = ground (arith, e) in
    let (f', is, w) =
      cut_objects-WasCut fuel k (ptr + size) limit size (num + 1) (first_word ptr)
        (write_tail tail ptr f) (omega arith) some_size (omega (arith, e)) (omega (arith, e)) small
        (omega arith) (omega arith) in
    let count : num + 1 + k ≡ num + suc k = omega arith in
    (f', rw (more, is, count) refl, on-WasCut k ptr size tail f f' pos some_size b w)

-- The walk stops after its rounds, or at the end of the list.
walk-advance :
    (rounds result p x : ℕ) (xs : List ℕ) (m : Memory)
    → Segment m p (x ∷ xs) 0
    → (k : ℕ) × (t : ℕ) × (k ≤ length xs)
      × (k ≤ rounds)
      × (advance k p m ≡ some t)
      × (walk rounds result p m ≡ some (result + suc k, t, m t))
      × ((k ≡ length xs) ⊎ (k ≡ rounds))
unfolding walk advance
walk-advance zero result p x xs m (at, ne, s) =
    let one : result + 1 ≡ result + suc 0 = omega arith in
    (0, p, omega arith, omega arith, refl, rw (at, sll_next-some x m ne, one) refl, inr refl)
walk-advance (suc rounds) result p x [] m (at, ne, s) =
    let end : (m x == 0) ≡ true = ground arith in
    let one : result + 1 ≡ result + suc 0 = omega arith in
    (0, p, omega arith, omega arith, refl, rw (at, sll_next-some x m ne, end, one) refl, inl refl)
walk-advance (suc rounds) result p x (y ∷ ys) m (at, ne, (next, ne', s)) =
    let on : (m x == 0) ≡ false = ground arith in
    let (k, t, le, lr, a, w, stop) = walk-advance rounds (result + 1) (m x) y ys m (next, ne', s) in
    let count : result + 1 + suc k ≡ result + suc (suc k) = omega arith in
    (
      suc k,
      t,
      omega arith,
      omega arith,
      rw (at, sll_next-some x m ne) a,
      rw (at, sll_next-some x m ne, on, w, count) refl,
      elim stop [ inl e ↦ inl (ap suc e) | inr e ↦ inr (ap suc e) ],
    )

-- For a list of objects the loop of FetchFromOneSpans returns: it stops at the last object, or
-- once it has as many as it may take, gives how many objects it has passed and the last of them,
-- and what follows that one.
pub walk-Walked :
    (rounds p x : ℕ) (xs : List ℕ) (m : Memory)
    → Segment m p (x ∷ xs) 0
    → Distinct (x ∷ xs)
    → (k : ℕ) × (t : ℕ) × (k ≤ length xs)
      × (k ≤ rounds)
      × Cut m p k (x ∷ xs) t
      × (walk rounds 0 p m ≡ some (suc k, t, m t))
      × ((k ≡ length xs) ⊎ (k ≡ rounds))
walk-Walked rounds p x xs m s d =
    let (k, t, le, lr, a, w, stop) = walk-advance rounds 0 p x xs m s in
    let (t', c) = walk-Cut k p x xs m s d le in
    let same : t' ≡ t = cc (a, c.reached) in
    let count : 0 + suc k ≡ suc k = omega arith in
    (k, t, le, lr, subst (Cut m p k (x ∷ xs)) same c, rw count at w, stop)

length-remove : (x : ℕ) (ys : List ℕ) → length (remove x ys) ≤ length ys
unfolding remove
length-remove x [] = omega arith
length-remove x (y ∷ ys) = ground (arith, length-remove x ys)

length-remove_mem : (x : ℕ) (ys : List ℕ) → has x ys ≡ true → length (remove x ys) < length ys
unfolding remove
length-remove_mem x [] h = cc
length-remove_mem x (y ∷ ys) h = ground (arith, length-remove x ys, length-remove_mem x ys)

-- Different objects of a list are no more than it has.
pub length-within :
    (xs ys : List ℕ)
    → Distinct xs
    → ((a : ℕ) → has a xs ≡ true → has a ys ≡ true)
    → length xs ≤ length ys
length-within [] ys d sub = omega arith
length-within (x ∷ xs) ys (off, d) sub =
    let on : has x ys ≡ true = sub x (ground arith) in
    let rest =
      length-within xs (remove x ys) d
        (λ a h. let there = sub a (ground arith) in ground (arith, has-remove x a ys)) in
    omega (arith, rest, length-remove_mem x ys on)
