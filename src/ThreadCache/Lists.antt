-- ===== src/ThreadCache/Lists.antt =====
-- A ThreadCache::FreeList (src/src/thread_cache.h) keeps a list of objects and its length.
use conan_tcmalloc.Base.{
  ℕ, ◌+◌, ◌-◌, ◌%◌, ◌^◌, ◌≤◌, ◌<◌, ◌≡◌, ◌≢◌, sym, refl, true, false, some, List, [], ◌∷◌, ◌++◌,
  arith, has, length, drop, length-drop, length-append,
}
use conan_tcmalloc.LinkedList.{Memory, Range}
use conan_tcmalloc.LinkedList.Segments.{Holds, Disjoint}
use conan_tcmalloc.LinkedList.Laws.{push-Holds, pop-Popped}
use conan_tcmalloc.LinkedList.Ranges.{IsLast, Popped, pop_range-Popped, push_range-Holds}
use conan_tcmalloc.ThreadCache.FreeList.{
  FreeList, shorten, push, try_pop, push_range, pop_range, add32, sub32,
}

-- The list stands for the objects `xs`.
pub record Represents (m : Memory) (f : FreeList) (xs : List ℕ) : Type 0 where
  pub holds : Holds m f.list xs
  pub counts : f.length ≡ length xs
  pub low : f.lowater ≤ length xs
  pub small : length xs < 2 ^ 32

-- What is not about the objects.
abbrev pub SameLimits : FreeList → FreeList → Type 0
SameLimits f g =
    (g.max_length ≡ f.max_length) × (g.length_overages ≡ f.length_overages) × (g.size ≡ f.size)

-- Push of an object that is not on the list.
pub push-Represents :
    (x : ℕ) (xs : List ℕ) (f : FreeList) (m : Memory)
    → Represents m f xs
    → x ≢ 0
    → has x xs ≡ false
    → length xs + 1 < 2 ^ 32
    → (f' : FreeList) × (m' : Memory) × (push x f m ≡ some (length xs + 1, f', m'))
      × Represents m' f' (x ∷ xs)
      × SameLimits f f'
      × ((a : ℕ) → a ≢ x → m' a ≡ m a)
unfolding push add32
push-Represents x xs f m r ne off room =
    let (m', pushed, h, frame) = push-Holds f.list x xs m r.holds ne off in
    let len : (f.length + 1) % 2 ^ 32 ≡ length xs + 1 = omega (arith, r.counts) in
    (
      record f { list = x; length = length xs + 1 },
      m',
      rw (pushed, len) refl,
      record { holds = h; counts = omega arith; low = omega (arith, r.low); small = omega arith },
      (refl, refl, refl),
      frame,
    )

-- The list after `n` objects were taken off.
shorten-Represents :
    (n head : ℕ) (f : FreeList) (m m' : Memory) (xs ys : List ℕ)
    → Represents m f xs
    → Holds m' head ys
    → n ≤ length xs
    → length ys ≡ length xs - n
    → Represents m' (record (shorten n f) { list = head }) ys
unfolding shorten sub32
shorten-Represents n head f m m' xs ys r h le len =
    let same : (f.length + 2 ^ 32 - n) % 2 ^ 32 ≡ length ys = omega (arith, r.counts, r.small) in
    rw same (record {
      holds = h;
      counts = refl;
      low = ground (arith, r.low);
      small = omega (arith, r.small);
    })

-- TryPop takes the first object, if there is one.
abbrev pub Taken : Memory → FreeList → List ℕ → Type 0
Taken m f [] = try_pop f m ≡ some (false, 0, f)
Taken m f (x ∷ xs) =
    (f' : FreeList) × (try_pop f m ≡ some (true, x, f')) × Represents m f' xs × SameLimits f f'

pub try_pop-Taken : (xs : List ℕ) (f : FreeList) (m : Memory) → Represents m f xs → Taken m f xs
unfolding try_pop shorten sub32
try_pop-Taken [] f m r = let (popped, tried) = pop-Popped f.list [] m r.holds in rw tried refl
try_pop-Taken (x ∷ xs) f m r =
    let (popped, tried, h) = pop-Popped f.list (x ∷ xs) m r.holds in
    (
      record (shorten 1 f) { list = m x },
      rw tried refl,
      shorten-Represents 1 (m x) f m m (x ∷ xs) xs r h (omega arith) (omega arith),
      (refl, refl, refl),
    )

-- PopRange of no more objects than there are.
pub pop_range-Represents :
    (n : ℕ) (xs : List ℕ) (f : FreeList) (m : Memory)
    → Represents m f xs
    → n ≤ length xs
    → (r : Range) × (f' : FreeList) × (pop_range n f m ≡ some (r, f'))
      × Popped m xs n r
      × Represents r.memory f' (drop n xs)
      × SameLimits f f'
unfolding pop_range shorten
pop_range-Represents n xs f m r le =
    let (p, is, popped) = pop_range-Popped f.list n xs m r.holds le in
    (
      p,
      record (shorten n f) { list = p.head },
      rw is refl,
      popped,
      shorten-Represents n p.head f m p.memory xs (drop n xs) r popped.others le (length-drop n xs),
      (refl, refl, refl),
    )

-- PushRange of other objects.
pub push_range-Represents :
    (n start end : ℕ) (xs ys : List ℕ) (f : FreeList) (m : Memory)
    → Represents m f ys
    → Holds m start xs
    → IsLast end xs
    → n ≡ length xs
    → Disjoint xs ys
    → n + length ys < 2 ^ 32
    → (f' : FreeList) × (m' : Memory) × (push_range n start end f m ≡ some (f', m'))
      × Represents m' f' (xs ++ ys)
      × SameLimits f f'
      × ((a : ℕ) → a ≢ end → m' a ≡ m a)
unfolding push_range add32
push_range-Represents n start end xs ys f m r h last count apart room =
    let (m', pushed, g, frame) = push_range-Holds f.list start end xs ys m h last r.holds apart in
    let len : (f.length + n) % 2 ^ 32 ≡ length xs + length ys = omega (arith, r.counts) in
    (
      record f { list = start; length = length xs + length ys },
      m',
      rw (pushed, len) refl,
      record {
        holds = g;
        counts = sym (length-append xs ys);
        low = omega (arith, r.low, length-append xs ys);
        small = omega (arith, length-append xs ys);
      },
      (refl, refl, refl),
      frame,
    )
