-- ===== src/CentralFreeList.antt =====
-- CentralFreeList of src/src/central_freelist.h and src/src/central_freelist.cc: the objects of each size
-- class, cut from spans. The page heap is a parameter. A span is a number, 0 is nullptr, and a use of
-- nullptr is `none`. The locks that are dropped on the way are not modelled: an operation runs as a whole.
pub mod Release
pub mod Fetch
pub mod Objects
pub mod Invariant
pub mod Places
pub mod Step
pub mod Released
pub mod Lists
pub mod Slots
pub mod Shrunk
pub mod Inserted
pub mod Local
pub mod Fetched
pub mod Populated
pub mod Removed
pub mod Contract
pub mod Examples
use conan_tcmalloc.Base.{
  ℕ, zero, suc, ◌+◌, ◌-◌, ◌*◌, ◌/◌, ◌%◌, ◌^◌, Bool, true, false, not, ◌&&◌, ◌||◌, Option, none,
  some, List, [], ◌∷◌, ltb, leb, ◌==◌, if◌then◌else◌, min, max, word, sub64,
}
use conan_tcmalloc.PageMap.{update}
use conan_tcmalloc.LinkedList.{Memory, ◌>>=◌, sll_next, sll_set_next, sll_push_range}
use conan_tcmalloc.PageHeap.FreeLists.{remove}

-- Static::pageheap(), and the fields of a Span that it sets.
pub record Pages : Type 1 where
  pub State : Type 0
  pub get_descriptor : ℕ → State → ℕ
  pub span_start : ℕ → State → ℕ
  pub span_length : ℕ → State → ℕ
  pub span_sizeclass : ℕ → State → ℕ
  pub new_with_size_class : (n sizeclass : ℕ) → State → ℕ × State
  pub delete : ℕ → State → State
  pub set_cached_size_class : (page cl : ℕ) → State → State

pub record TcEntry : Type 0 where
  pub head : ℕ
  pub tail : ℕ

-- The list headers `empty_` and `nonempty_` are the lists of their spans.
pub record CentralFreeList : Type 0 where
  pub size_class : ℕ
  pub empty : List ℕ
  pub nonempty : List ℕ
  pub num_spans : ℕ
  pub counter : ℕ
  pub tc_slots : ℕ → TcEntry
  pub used_slots : ℕ
  pub cache_size : ℕ
  pub max_cache_size : ℕ

-- Static::central_cache(), the fields `objects` and `refcount` of the spans, and what they lie in.
pub record Store (P : Pages) : Type 0 where
  pub lists : ℕ → CentralFreeList
  pub objects : ℕ → ℕ
  pub refcount : ℕ → ℕ
  pub race_counter : ℕ
  pub heap : P.State
  pub memory : Memory

abbrev pub max_num_transfer_entries : ℕ
max_num_transfer_entries = 64

-- Init of class `cl`, of the sizes and batches of a positive product below 2 ^ 31.
unfoldable pub init : (bytes objs_to_move cl : ℕ) → CentralFreeList
init bytes objs_to_move cl =
    let most =
      if ltb 0 cl
      then min max_num_transfer_entries (max 1 (1024 * 1024 / (bytes * objs_to_move)))
      else max_num_transfer_entries in
    record {
      size_class = cl;
      empty = [];
      nonempty = [];
      num_spans = 0;
      counter = 0;
      tc_slots = λ i. record { head = 0; tail = 0 };
      used_slots = 0;
      cache_size = if ltb 0 cl then min 16 most else 16;
      max_cache_size = most;
    }

-- What FetchFromOneSpans gives, and the store.
pub record CentralRange (P : Pages) : Type 0 where
  pub count : ℕ
  pub start : ℕ
  pub end : ℕ
  pub store : Store P

abbrev pub with_central : {P : Pages} → ℕ → CentralFreeList → Store P → Store P
with_central cl l s = record s { lists = update s.lists cl l }

-- DLL_Remove, of a span on one of the two lists.
abbrev pub unlink : ℕ → CentralFreeList → CentralFreeList
unlink p l = record l { empty = remove p l.empty; nonempty = remove p l.nonempty }

abbrev pub prepend_nonempty : ℕ → CentralFreeList → CentralFreeList
prepend_nonempty p l = record l { nonempty = p ∷ l.nonempty }

abbrev pub prepend_empty : ℕ → CentralFreeList → CentralFreeList
prepend_empty p l = record l { empty = p ∷ l.empty }

-- do { prev = curr; curr = *curr } while (++result < N && curr != nullptr), with the rounds left after
-- the first: how many objects, the last one and the one after it.
unfoldable pub walk : ℕ → (result curr : ℕ) → Memory → Option (ℕ × ℕ × ℕ)
unfolding sll_next
walk zero result curr m = do next ← sll_next curr m; some (result + 1, curr, next)
walk (suc rounds) result curr m = do
  next ← sll_next curr m
  let on = walk rounds (result + 1) next m
  if next == 0 then some (result + 1, curr, next) else on

-- What the last `tail` of Populate points to: the field of the span, or an object.
pub data Tail : Type 0 where
  objects_field : Tail
  first_word : ℕ → Tail

-- *tail = ptr, for the field and the memory.
abbrev pub write_tail : Tail → ℕ → ℕ × Memory → ℕ × Memory
write_tail objects_field v (objects, m) = (v, m)
write_tail (first_word a) v (objects, m) = (objects, update m a v)

-- The loop of Populate on fuel, with the last write after it: how many objects, the field and the memory.
unfoldable pub cut_objects :
    ℕ → (tail : Tail) → (ptr limit size num : ℕ) → ℕ × Memory → Option (ℕ × (ℕ × Memory))
cut_objects zero tail ptr limit size num f = none
cut_objects (suc fuel) tail ptr limit size num f =
    let rest =
      cut_objects fuel (first_word ptr) (ptr + size) limit size (num + 1) (write_tail tail ptr f) in
    if leb word (ptr + size) || ltb limit (ptr + size)
    then some (num, write_tail tail 0 f)
    else rest
