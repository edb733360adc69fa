-- ===== src/ThreadCache/FreeList.antt =====
-- ThreadCache::FreeList of src/src/thread_cache.h on 64-bit hardware: the fields have 32 bits. A fault of
-- the list operations is `none`.
use conan_tcmalloc.Base.{
  ℕ, ◌+◌, ◌-◌, ◌%◌, ◌^◌, Bool, true, false, Option, some, ltb, ◌==◌, if◌then◌else◌,
}
use conan_tcmalloc.LinkedList.{
  Memory, Range, ◌>>=◌, sll_push, sll_pop, sll_try_pop, sll_push_range, sll_pop_range,
}

pub record FreeList : Type 0 where
  pub list : ℕ
  pub length : ℕ
  pub lowater : ℕ
  pub max_length : ℕ
  pub length_overages : ℕ
  pub size : ℕ

-- 32-bit sums and differences; the number subtracted is below 2 ^ 32.
unfoldable pub add32 : ℕ → ℕ → ℕ
add32 a b = (a + b) % 2 ^ 32

unfoldable pub sub32 : ℕ → ℕ → ℕ
sub32 a b = (a + 2 ^ 32 - b) % 2 ^ 32

-- Init: the size has 32 bits.
unfoldable pub init : ℕ → FreeList
init size = record {
  list = 0;
  length = 0;
  lowater = 0;
  max_length = 1;
  length_overages = 0;
  size = size % 2 ^ 32;
}

unfoldable pub empty : FreeList → Bool
empty f = f.list == 0

unfoldable pub set_max_length : ℕ → FreeList → FreeList
set_max_length new_max f = record f { max_length = new_max % 2 ^ 32 }

unfoldable pub set_length_overages : ℕ → FreeList → FreeList
set_length_overages new_count f = record f { length_overages = new_count % 2 ^ 32 }

unfoldable pub clear_lowwatermark : FreeList → FreeList
clear_lowwatermark f = record f { lowater = f.length }

-- The list is `n` objects shorter.
unfoldable pub shorten : ℕ → FreeList → FreeList
unfolding sub32
shorten n f =
    let len = sub32 f.length n in
    record f { length = len; lowater = if ltb len f.lowater then len else f.lowater }

-- The new length, list and memory.
unfoldable pub push : ℕ → FreeList → Memory → Option (ℕ × FreeList × Memory)
unfolding sll_push add32
push ptr f m = do
  (head, m') ← sll_push f.list ptr m
  some (add32 f.length 1, record f { list = head; length = add32 f.length 1 }, m')

-- The object and the list.
unfoldable pub pop : FreeList → Memory → Option (ℕ × FreeList)
unfolding sll_pop shorten
pop f m = do (object, head) ← sll_pop f.list m; some (object, record (shorten 1 f) { list = head })

-- Whether there is an object, the object, and the list.
unfoldable pub try_pop : FreeList → Memory → Option (Bool × ℕ × FreeList)
unfolding sll_try_pop shorten
try_pop f m = do
  (found, object, head) ← sll_try_pop f.list m
  some (if found then (true, object, record (shorten 1 f) { list = head }) else (false, 0, f))

-- `n` is an `int` that is not negative.
unfoldable pub push_range : (n start end : ℕ) → FreeList → Memory → Option (FreeList × Memory)
unfolding sll_push_range add32
push_range n start end f m = do
  (head, m') ← sll_push_range f.list start end m
  some (record f { list = head; length = add32 f.length n }, m')

-- The range and the list.
unfoldable pub pop_range : ℕ → FreeList → Memory → Option (Range × FreeList)
unfolding sll_pop_range shorten
pop_range n f m = do r ← sll_pop_range f.list n m; some (r, record (shorten n f) { list = r.head })
