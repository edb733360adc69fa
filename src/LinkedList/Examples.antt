-- ===== src/LinkedList/Examples.antt =====
-- The theorems on lists of objects at a list of three.
use conan_tcmalloc.Base.{ℕ, ◌≡◌, ◌≢◌, refl, true, some, [], ◌∷◌, ◌==◌, if◌then◌else◌, arith}
use conan_tcmalloc.LinkedList.{Memory, Range, sll_push, sll_try_pop, sll_pop_range, sll_push_range}
use conan_tcmalloc.LinkedList.Segments.{Holds}
use conan_tcmalloc.LinkedList.Laws.{Popped, push-Holds, pop-Popped}
use conan_tcmalloc.LinkedList.Ranges
use conan_tcmalloc.LinkedList.Ranges.{pop_range-Popped, push_range-pop_range}

-- 16 leads to 48, and 48 to 32.
abbrev three : Memory
three = λ a. if a == 16 then 48 else (if a == 48 then 32 else 0)

three-Holds : Holds three 16 (16 ∷ 48 ∷ 32 ∷ [])
three-Holds = record {
  chain = (refl, λ e. ground arith, (refl, λ e. ground arith, (refl, λ e. ground arith, refl)));
  distinct = (refl, (refl, (refl, tt)));
}

push-Holds_example :
    (m' : Memory) × (sll_push 16 64 three ≡ some (64, m'))
    × Holds m' 64 (64 ∷ 16 ∷ 48 ∷ 32 ∷ [])
    × ((a : ℕ) → a ≢ 64 → m' a ≡ three a)
push-Holds_example = push-Holds 16 64 (16 ∷ 48 ∷ 32 ∷ []) three three-Holds (λ e. ground arith) refl

pop-Popped_example : Popped three 16 (16 ∷ 48 ∷ 32 ∷ [])
pop-Popped_example = pop-Popped 16 (16 ∷ 48 ∷ 32 ∷ []) three three-Holds

pop_range-Popped_example :
    (r : Range) × (sll_pop_range 16 2 three ≡ some r) × Ranges.Popped three (16 ∷ 48 ∷ 32 ∷ []) 2 r
pop_range-Popped_example = pop_range-Popped 16 2 (16 ∷ 48 ∷ 32 ∷ []) three three-Holds (omega arith)

push_range-pop_range_example :
    (r : Range) × (head' : ℕ) × (m' : Memory) × (sll_pop_range 16 2 three ≡ some r)
    × (sll_push_range r.head r.start r.end r.memory ≡ some (head', m'))
    × Holds m' head' (16 ∷ 48 ∷ 32 ∷ [])
push_range-pop_range_example =
    push_range-pop_range 16 2 (16 ∷ 48 ∷ 32 ∷ []) three three-Holds (omega arith)

popped_two : sll_try_pop 16 three ≡ some (true, 16, 48)
unfolding sll_try_pop
popped_two = refl
