-- ===== src/LinkedList/Laws.antt =====
-- SLL_Push, SLL_Pop, SLL_TryPop and SLL_Size of src/src/linked_list.h against a list of objects.
use conan_tcmalloc.Base.{
  ℕ, zero, suc, ◌+◌, ◌^◌, ◌<◌, ◌≡◌, ◌≢◌, ◌∙◌, ap, refl, true, false, some, none, List, [], ◌∷◌,
  ◌==◌, arith, has, length, int_of, int_of-small,
}
use conan_tcmalloc.PageMap.{update}
use conan_tcmalloc.LinkedList.{
  Memory, sll_next, sll_set_next, sll_push, sll_pop, sll_try_pop, size_loop, sll_size,
}
use conan_tcmalloc.LinkedList.Segments.{Segment, Holds, Segment-update}

pub sll_next-some : (t : ℕ) (m : Memory) → t ≢ 0 → sll_next t m ≡ some (m t)
unfolding sll_next
sll_next-some t m ne = let e : (t == 0) ≡ false = ground arith in rw e

pub sll_set_next-some : (t n : ℕ) (m : Memory) → t ≢ 0 → sll_set_next t n m ≡ some (update m t n)
unfolding sll_set_next
sll_set_next-some t n m ne = let e : (t == 0) ≡ false = ground arith in rw e

-- SLL_Push of an object that is not nullptr and not on the list puts it in front, and writes to
-- that object only.
pub push-Holds :
    (head x : ℕ) (xs : List ℕ) (m : Memory)
    → Holds m head xs
    → x ≢ 0
    → has x xs ≡ false
    → (m' : Memory) × (sll_push head x m ≡ some (x, m'))
      × Holds m' x (x ∷ xs)
      × ((a : ℕ) → a ≢ x → m' a ≡ m a)
unfolding sll_push
push-Holds head x xs m h ne off =
    let here : (x == x) ≡ true = ground arith in
    (
      update m x head,
      rw (sll_set_next-some x head m ne) refl,
      record {
        chain = (refl, ne, rw here (Segment-update m head 0 x head xs off h.chain));
        distinct = (off, h.distinct);
      },
      λ a other. ground arith,
    )

pub head-Holds :
    (head x : ℕ) (xs : List ℕ) (m : Memory)
    → Holds m head (x ∷ xs)
    → (head ≡ x) × (x ≢ 0) × Holds m (m x) xs
head-Holds head x xs m h =
    let (at, ne, s) = h.chain in
    let (off, d) = h.distinct in (at, ne, record { chain = s; distinct = d })

-- What SLL_Pop and SLL_TryPop do to the list of `xs`: they take the first object and leave the others.
-- Without an object the first is a fault, and the second says so.
abbrev pub Popped : Memory → ℕ → List ℕ → Type 0
Popped m head [] = (sll_pop head m ≡ none) × (sll_try_pop head m ≡ some (false, 0, 0))
Popped m head (x ∷ xs) =
    (sll_pop head m ≡ some (x, m x)) × (sll_try_pop head m ≡ some (true, x, m x)) × Holds m (m x) xs

-- Of a list with an object SLL_Pop and SLL_TryPop take the first and leave the others; of an empty
-- list the first is a fault, and the second says that there is none.
pub pop-Popped : (head : ℕ) (xs : List ℕ) (m : Memory) → Holds m head xs → Popped m head xs
unfolding sll_pop sll_try_pop sll_next
pop-Popped head [] m h =
    let done : head ≡ 0 = h.chain in
    let e : (head == 0) ≡ true = ground arith in (rw e refl, rw (e, done) refl)
pop-Popped head (x ∷ xs) m h =
    let (at, ne, rest) = head-Holds head x xs m h in
    let e : (x == 0) ≡ false = ground arith in (rw (at, e) refl, rw (at, e) refl, rest)

size_loop-Segment :
    (fuel head count : ℕ) (xs : List ℕ) (m : Memory)
    → Segment m head xs 0
    → length xs < fuel
    → size_loop fuel head count m ≡ some (count + length xs)
unfolding size_loop
size_loop-Segment zero head count xs m s enough = absurd (omega arith)
size_loop-Segment (suc fuel) head count [] m s enough =
    let done : (head == 0) ≡ true = ground arith in rw done (ap some (omega arith))
size_loop-Segment (suc fuel) head count (x ∷ xs) m (at, ne, s) enough =
    let more : (head == 0) ≡ false = ground arith in
    rw (more, at, size_loop-Segment fuel (m x) (count + 1) xs m s (omega arith))
      (ap some (omega arith))

-- SLL_Size
pub size-Holds :
    (fuel head : ℕ) (xs : List ℕ) (m : Memory)
    → Holds m head xs
    → length xs < fuel
    → length xs < 2 ^ 31
    → sll_size fuel head m ≡ some (length xs)
unfolding sll_size
size-Holds fuel head xs m h enough small =
    rw (size_loop-Segment fuel head 0 xs m h.chain enough, sll_size)
      (ap some (ap int_of (omega arith) ∙ int_of-small (length xs) small))
