-- ===== src/PageHeap/State.antt =====
-- The state of a PageHeap (src/src/page_heap.h, src/src/span.h), with 48-bit addresses and pages of 2 ^ 13
-- bytes. A Span object is a number, 0 is nullptr, and `spans` holds the objects that are allocated.
-- Objects of Spans come from a PageHeapAllocator, which hands out what was deleted last, or the next
-- number. Calls of the system are numbered by `calls`, and what they answer is a `System`.
use conan_tcmalloc.Base.{
  ℕ, ◌*◌, ◌%◌, ◌^◌, ◌<◌, Bool, false, Option, none, List, [], word, arith, if◌then◌else◌, zero, suc,
  sub64, ◌+◌, ◌/◌, ◌==◌,
}
use conan_tcmalloc.PackedCache.{PackedCache, clear}
use conan_tcmalloc.PageMap.Two.{PageMap2, empty}

abbrev pub page_shift : ℕ
page_shift = 13

-- kMaxPages: spans of up to so many pages have a list for each length.
abbrev pub max_pages : ℕ
max_pages = 128

-- kAddressBits - kPageShift.
abbrev pub page_bits : ℕ
page_bits = 35

pub data Location : Type 0 where
  in_use on_normal_freelist on_returned_freelist : Location

pub record Span : Type 0 where
  pub start : ℕ
  pub length : ℕ
  pub refcount : ℕ
  pub sizeclass : ℕ
  pub location : Location
  pub sample : Bool

pub record Stats : Type 0 where
  pub system_bytes : ℕ
  pub free_bytes : ℕ
  pub unmapped_bytes : ℕ
  pub committed_bytes : ℕ
  pub scavenge_count : ℕ
  pub commit_count : ℕ
  pub total_commit_bytes : ℕ
  pub decommit_count : ℕ
  pub total_decommit_bytes : ℕ
  pub reserve_count : ℕ
  pub total_reserve_bytes : ℕ

-- `normal i` and `returned i` are the circular lists of the spans of i + 1 pages, front first. The
-- sets of large spans are listed in their order.
pub record FreeLists : Type 0 where
  pub normal : ℕ → List ℕ
  pub returned : ℕ → List ℕ
  pub large_normal : List ℕ
  pub large_returned : List ℕ

pub record Directory : Type 0 where
  pub spans : ℕ → Option Span
  pub next_span : ℕ
  pub deleted : List ℕ
  pub pagemap : PageMap2 ℕ

-- `scavenge_counter` is the bit pattern of an int64_t. `grown_by` is that of the LockingContext of the
-- operation that runs, and `growth_stacks` has the sizes of the stack traces pushed so far.
pub record PageHeap : Type 0 where
  pub directory : Directory
  pub open directory use *
  pub lists : FreeLists
  pub open lists use *
  pub stats : Stats
  pub cache : PackedCache
  pub smallest_span_size : ℕ
  pub scavenge_counter : ℕ
  pub release_index : ℕ
  pub aggressive_decommit : Bool
  pub calls : ℕ
  pub grown_by : ℕ
  pub growth_stacks : List ℕ

-- What the operating system and the process's settings answer to the call of the given number.
-- `alloc` gives the address and the actual size; `wait` is the rounded product of the pages released
-- and 1000 / tcmalloc_release_rate, and `releasing` says that the rate is above 1e-6.
pub record System : Type 0 where
  pub alloc : ℕ → ℕ → Option (ℕ × ℕ)
  pub release : ℕ → ℕ → ℕ → Bool
  pub taken : ℕ → ℕ
  pub grants : ℕ → Bool
  pub heap_limit_mb : ℕ
  pub releasing : Bool
  pub wait : ℕ → ℕ

-- `fault` is a use of a null or deleted Span, or of a page that the map has no leaf for.
pub data Run (A : Type 0) : Type 0 where
  ok : A → PageHeap → Run A
  fault : Run A
  out_of_fuel : Run A

abbrev pub M : Type 0 → Type 0
M A = PageHeap → Run A

abbrev pub pure : {A : Type 0} → A → M A
pure a h = ok a h

module _ {A B : Type 0} where
  abbrev pub and_then : Run A → (A → M B) → Run B
  and_then (ok a h) k = k a h
  and_then fault k = fault
  and_then out_of_fuel k = out_of_fuel

  infixl 5 ◌>>=◌ ◌>>◌
  abbrev pub ◌>>=◌ : M A → (A → M B) → M B
  m >>= k = λ h. and_then (m h) k

  abbrev pub ◌>>◌ : M A → M B → M B
  m >> n = m >>= λ _. n

abbrev pub heap : M PageHeap
heap h = ok h h

abbrev pub put : PageHeap → M (Unit {0})
put h' h = ok tt h'

-- `n << kPageShift` on 64 bits.
unfoldable pub bytes : ℕ → ℕ
bytes n = (n * 2 ^ page_shift) % word

pub bytes-lt : (n : ℕ) → bytes n < word
unfolding bytes
bytes-lt n = omega arith

-- The constructor, after its check.
abbrev pub new_heap : ℕ → PageHeap
new_heap size = record {
  directory = record { spans = λ p. none; next_span = 1; deleted = []; pagemap = empty };
  lists = record { normal = λ i. []; returned = λ i. []; large_normal = []; large_returned = [] };
  stats = record {
    system_bytes = 0;
    free_bytes = 0;
    unmapped_bytes = 0;
    committed_bytes = 0;
    scavenge_count = 0;
    commit_count = 0;
    total_commit_bytes = 0;
    decommit_count = 0;
    total_decommit_bytes = 0;
    reserve_count = 0;
    total_reserve_bytes = 0;
  };
  cache = clear;
  smallest_span_size = size;
  scavenge_counter = 0;
  release_index = max_pages;
  aggressive_decommit = false;
  calls = 0;
  grown_by = 0;
  growth_stacks = [];
}

-- & of two words, on their last bits.
unfoldable pub bits_and : ℕ → ℕ → ℕ → ℕ
bits_and zero a b = 0
bits_and (suc bits) a b = 2 * bits_and bits (a / 2) (b / 2) + a % 2 * (b % 2)

-- The constructor. CHECK_CONDITION ends the process where the size is not a power of two.
unfoldable pub init : ℕ → Run PageHeap
unfolding bits_and
init size =
    if bits_and 64 size (sub64 size 1) == 0 then ok (new_heap size) (new_heap size) else fault
