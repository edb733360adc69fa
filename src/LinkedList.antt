-- ===== src/LinkedList.antt =====
-- The singly linked lists of free objects of src/src/linked_list.h: the first word of an object holds the
-- address of the next one, and 0 is nullptr. A read or write at nullptr is a fault, `none`.
pub mod Segments
pub mod Laws
pub mod Ranges
mod Examples
use conan_tcmalloc.Base.{
  ℕ, zero, suc, ◌+◌, ◌-◌, ◌%◌, ◌^◌, Bool, true, false, Option, none, some, ◌==◌, if◌then◌else◌,
  int_of,
}
use conan_tcmalloc.PageMap.{update}

-- The word at each address.
abbrev pub Memory : Type 0
Memory = ℕ → ℕ

module _ {A B : Type 0} where
  infixl 5 ◌>>=◌
  abbrev pub ◌>>=◌ : Option A → (A → Option B) → Option B
  m >>= f = elim m [ none ↦ none | some a ↦ f a ]

unfoldable pub sll_next : ℕ → Memory → Option ℕ
sll_next t m = if t == 0 then none else some (m t)

unfoldable pub sll_set_next : ℕ → ℕ → Memory → Option Memory
sll_set_next t n m = if t == 0 then none else some (update m t n)

-- The new head and memory.
unfoldable pub sll_push : (list element : ℕ) → Memory → Option (ℕ × Memory)
unfolding sll_set_next
sll_push list element m = do m' ← sll_set_next element list m; some (element, m')

-- The object taken off and the new head.
unfoldable pub sll_pop : ℕ → Memory → Option (ℕ × ℕ)
unfolding sll_next
sll_pop list m = do next ← sll_next list m; some (list, next)

-- Whether there is an object, the object, and the new head. The object is 0 where there is none.
unfoldable pub sll_try_pop : ℕ → Memory → Option (Bool × ℕ × ℕ)
unfolding sll_next
sll_try_pop list m =
    if list == 0
    then some (false, 0, list)
    else (do next ← sll_next list m; some (true, list, next))

-- for (i = 1; i < N; ++i) tmp = SLL_Next(tmp), with the rounds left.
unfoldable pub advance : ℕ → ℕ → Memory → Option ℕ
unfolding sll_next
advance zero tmp m = some tmp
advance (suc rounds) tmp m = sll_next tmp m >>= λ next. advance rounds next m

-- What SLL_PopRange gives: the first and the last object of the range, the new head and memory.
pub record Range : Type 0 where
  pub start : ℕ
  pub end : ℕ
  pub head : ℕ
  pub memory : Memory

-- N is an `int` that is not negative.
unfoldable pub sll_pop_range : (head n : ℕ) → Memory → Option Range
unfolding advance sll_next sll_set_next
sll_pop_range head n m =
    if n == 0 then some (record { start = 0; end = 0; head = head; memory = m }) else (do
      tmp ← advance (n - 1) head m
      next ← sll_next tmp m
      m' ← sll_set_next tmp 0 m
      some (record { start = head; end = tmp; head = next; memory = m' }))

-- The new head and memory.
unfoldable pub sll_push_range : (head start end : ℕ) → Memory → Option (ℕ × Memory)
unfolding sll_set_next
sll_push_range head start end m =
    if start == 0 then some (head, m) else (do m' ← sll_set_next end head m; some (start, m'))

-- The loop of SLL_Size on fuel: `none` is a list that does not end.
unfoldable pub size_loop : ℕ → (head count : ℕ) → Memory → Option ℕ
size_loop zero head count m = none
size_loop (suc fuel) head count m =
    let rest = size_loop fuel (m head) (count + 1) m in if head == 0 then some count else rest

-- The count is an `int`, widened to a size_t.
unfoldable pub sll_size : ℕ → ℕ → Memory → Option ℕ
unfolding size_loop int_of
sll_size fuel head m = do count ← size_loop fuel head 0 m; some (int_of count)
