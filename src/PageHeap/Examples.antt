-- ===== src/PageHeap/Examples.antt =====
-- Tests of the page heap on a small system, and the theorems at a heap with one free span.
mod Allocating
mod Checking
use conan_tcmalloc.Base.{
  ℕ, ◌+◌, ◌*◌, ◌/◌, ◌^◌, ◌≤◌, ◌<◌, ◌≡◌, ◌≢◌, refl, true, false, Option, none, some, [], ◌∷◌, arith,
  ◌==◌, if◌then◌else◌, ◌⊎◌,
}
use conan_tcmalloc.PageMap.{update}
use conan_tcmalloc.PageMap.Two.{PageMap2, get, leaf_length, root_length}
use conan_tcmalloc.PageHeap.State.{System, PageHeap, Span, in_use, on_normal_freelist, max_pages}
use conan_tcmalloc.PageHeap.Spans.{span, carve, split}
use conan_tcmalloc.PageHeap.Merge.{release_span, merge_into_free_list}
use conan_tcmalloc.PageHeap.Geometry.Stock.{Stock, Stock-update}
use conan_tcmalloc.PageHeap.Geometry.Tiling.{Tiling, Filled, Tiling-relabel}
use mathlib.Core.Path.{subst₂}
use conan_tcmalloc.PackedCache.{clear}
use conan_tcmalloc.PageHeap.Listed.{Listed}
use conan_tcmalloc.PageHeap.Invariant.{IsValid, Answered, Returns, none_held}
use conan_tcmalloc.PageHeap.Invariant.Kept.{KeepsFree}
use conan_tcmalloc.PageHeap.Invariant.Freed.{
  Freed, IsReleased, release_span_rule, merge_into_free_list_rule,
}
use conan_tcmalloc.PageHeap.State.{bytes}
use conan_tcmalloc.PageHeap.Tally.{tally, normal_pages, pages_of, Counts-beyond, Owns-beyond}
use conan_tcmalloc.PageHeap.Invariant.Coalesce.{only}
use conan_tcmalloc.PageHeap.Invariant.Coalesce.{Floating}
use conan_tcmalloc.PageHeap.Invariant.Cuts.{split_rule}
use conan_tcmalloc.PageHeap.Invariant.Rounds.{Rounds, release_round_rule}
use conan_tcmalloc.PageHeap.Release.{release_round}
use conan_tcmalloc.PageHeap.State.{page_bits}
use conan_tcmalloc.PageHeap.Invariant.Carved.{carve_rule}

-- The system gives what is asked, from page 1024 on, a million pages apart.
abbrev sys : System
sys = record {
  alloc = λ i n. some ((1024 + 2 ^ 20 * i) * 2 ^ 13, n);
  release = λ i a n. true;
  taken = λ i. 0;
  grants = λ i. true;
  heap_limit_mb = 0;
  releasing = true;
  wait = λ n. 1000 * n;
}

abbrev free_span : Span
free_span = record {
  start = 1024;
  length = 100;
  refcount = 0;
  sizeclass = 0;
  location = on_normal_freelist;
  sample = false;
}

abbrev one_map : PageMap2 ℕ
one_map = record {
  root = λ i.
      if i == 0
      then some (λ k. if k == 1024 then some 1 else (if k == 1123 then some 1 else none))
      else none;
  calls = 1;
}

abbrev one_spans : ℕ → Option Span
one_spans p = if p == 1 then some free_span else none

-- One free span of 100 pages at page 1024.
abbrev one_free : PageHeap
one_free = record {
  directory = record { spans = one_spans; next_span = 2; deleted = []; pagemap = one_map };
  lists = record {
    normal = λ i. if i == 99 then 1 ∷ [] else [];
    returned = λ i. [];
    large_normal = [];
    large_returned = [];
  };
  stats = record {
    system_bytes = 819200;
    free_bytes = 819200;
    unmapped_bytes = 0;
    committed_bytes = 819200;
    scavenge_count = 0;
    commit_count = 1;
    total_commit_bytes = 819200;
    decommit_count = 0;
    total_decommit_bytes = 0;
    reserve_count = 1;
    total_reserve_bytes = 819200;
  };
  cache = clear;
  smallest_span_size = 1;
  scavenge_counter = 0;
  release_index = max_pages;
  aggressive_decommit = false;
  calls = 1;
  grown_by = 0;
  growth_stacks = [];
}

one-Stock : Stock one_free.directory
one-Stock = record {
  null = refl;
  born = omega arith;
  unborn = λ p h. ground arith;
  distinct = tt;
  dead = λ p h. cc;
  dead_born = λ p h. cc;
}

one_leaf : (k : ℕ) → k < 2 ^ 18 → k / 2 ^ 18 ≡ 0
one_leaf k h = omega arith

one-Filled : Filled one_map 1 free_span
unfolding get leaf_length root_length
one-Filled = record {
  start_pos = omega arith;
  length_pos = omega arith;
  first = refl;
  last = refl;
  ready = λ k a b. record { bound = omega arith; leaf = ground (arith, one_leaf k (omega arith)) };
}

one-Tiling : Tiling one_spans one_map
unfolding get leaf_length root_length
one-Tiling = record {
  filled = λ p s h. subst₂ (Filled one_map) (ground arith) (ground arith) one-Filled;
  apart = λ p q s t n a b. ground arith;
  covered = λ k q h. (1, free_span, refl, ground arith);
}

one-Listed : Listed none_held one_spans one_free.lists
one-Listed = record {
  listed = λ p s a b c. ground arith;
  normal = λ i p h. (free_span, ground arith, refl, refl, ground arith);
  returned = λ i p h. cc;
  large_normal = λ p h. cc;
  large_returned = λ p h. cc;
}

one_spans-normal_pages : (q : ℕ) → 2 ≤ q → normal_pages none_held one_spans q ≡ 0
one_spans-normal_pages q le =
    let other : (q == 1) ≡ false = ground arith in rw (other, normal_pages)

one_spans-pages_of : (q : ℕ) → 2 ≤ q → pages_of one_spans q ≡ 0
one_spans-pages_of q le = let other : (q == 1) ≡ false = ground arith in rw (other, pages_of)

one-IsValid : IsValid one_free
unfolding tally bytes
one-IsValid = record {
  geometry = record { stock = one-Stock; tiling = one-Tiling };
  listed = one-Listed;
  balanced = refl;
  counted = Counts-beyond (normal_pages none_held one_spans) 2 one_spans-normal_pages refl;
  owned = Owns-beyond (pages_of one_spans) 2 one_spans-pages_of (omega arith);
  limited = omega arith;
}

carve_rule_example :
    Returns
      (λ q h.
        (q ≡ 1)
        × (h.spans 1 ≡ some (record free_span { location = in_use; length = 3 }))
        × IsValid h)
      (carve 1 3 one_free)
carve_rule_example = carve_rule one-IsValid 1 3 free_span refl (λ e. cc) (omega arith) (omega arith)

release_span_rule_example :
    Returns (IsReleased sys 1 free_span one-IsValid refl refl) (release_span sys 1 one_free)
release_span_rule_example = release_span_rule sys 1 free_span one-IsValid refl refl

-- The span is in use.
abbrev used_span : Span
used_span = record free_span { location = in_use }

abbrev one_used : PageHeap
one_used = record one_free {
  directory = record (one_free.directory) { spans = update one_spans 1 (some used_span) };
  lists = record (one_free.lists) { normal = λ i. [] };
  stats = record (one_free.stats) { free_bytes = 0 };
}

one_used-IsValid : IsValid one_used
unfolding tally bytes
one_used-IsValid = record {
  geometry = record {
    stock = Stock-update one_free.directory 1 free_span used_span refl one-Stock;
    tiling = Tiling-relabel 1 free_span used_span one-Tiling refl refl refl;
  };
  listed = record {
    listed = λ p s a b c. ground arith;
    normal = λ i p h. cc;
    returned = λ i p h. cc;
    large_normal = λ p h. cc;
    large_returned = λ p h. cc;
  };
  balanced = refl;
  counted =
      Counts-beyond (normal_pages none_held (update one_spans 1 (some used_span))) 2
        (λ q le. let other : (q == 1) ≡ false = ground arith in rw (other, normal_pages)) refl;
  owned =
      Owns-beyond (pages_of (update one_spans 1 (some used_span))) 2
        (λ q le. let other : (q == 1) ≡ false = ground arith in rw (other, pages_of)) (omega arith);
  limited = omega arith;
}

split_rule_example :
    Returns
      (λ q h.
        (h.spans 1 ≡ some (record used_span { length = 3 }))
        × (h.spans q ≡ some (span 1027 97))
        × ((r : ℕ) → r ≢ 1 → r ≢ q → h.spans r ≡ one_used.spans r)
        × IsValid h)
      (split 1 3 one_used)
split_rule_example = split_rule one_used-IsValid 1 3 used_span refl refl (omega arith) (omega arith)

-- The free span is on no list.
abbrev one_off : PageHeap
one_off = record one_free {
  lists = record (one_free.lists) { normal = λ i. [] };
  stats = record (one_free.stats) { free_bytes = 0 };
}

one-Floating : Floating 1 free_span one_off
unfolding tally bytes
one-Floating = record {
  is = refl;
  free = λ e. cc;
  inv = record {
    geometry = record { stock = one-Stock; tiling = one-Tiling };
    listed = record {
      listed = λ p s a b c. ground arith;
      normal = λ i p h. cc;
      returned = λ i p h. cc;
      large_normal = λ p h. cc;
      large_returned = λ p h. cc;
    };
    balanced = refl;
    counted =
        Counts-beyond (normal_pages (only 1) one_spans) 2
          (λ q le. let other : (q == 1) ≡ false = ground arith in rw (other, normal_pages)) refl;
    owned = Owns-beyond (pages_of one_spans) 2 one_spans-pages_of (omega arith);
    limited = omega arith;
  };
}

merge_into_free_list_rule_example :
    Returns (λ r h. Freed 1 free_span h × KeepsFree one_off h) (merge_into_free_list sys 1 one_off)
merge_into_free_list_rule_example = merge_into_free_list_rule sys 1 free_span one-Floating

release_round_rule_example : Returns (Rounds sys one_free 0) (release_round sys 129 50 0 one_free)
release_round_rule_example = release_round_rule sys 50 129 0 one-IsValid
