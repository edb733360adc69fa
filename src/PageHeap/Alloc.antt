-- ===== src/PageHeap/Alloc.antt =====
-- RoundUpSize, AllocLarge, SearchFreeAndLargeLists, GrowHeap, NewLocked, NewWithSizeClass and
-- NewAligned of src/src/page_heap.cc. The mask with ~(s - 1) rounds down to a multiple of s, and the one
-- with s - 1 is the remainder, since s is a power of two.
use conan_tcmalloc.Base.{
  ℕ, zero, suc, ◌+◌, ◌-◌, ◌*◌, ◌/◌, ◌%◌, ◌^◌, Bool, true, false, ◌&&◌, ◌||◌, not, Option, none,
  some, ◌∷◌, word, ltb, leb, ◌==◌, if◌then◌else◌, add64, is_some,
}
use conan_tcmalloc.PackedCache
use conan_tcmalloc.PackedCache.{invalidate, try_get}
use conan_tcmalloc.PageMap.Two.{PageMap2, ensure, preallocate}
use conan_tcmalloc.PageHeap.State.{
  Span, PageHeap, System, ok, fault, out_of_fuel, M, ◌>>=◌, ◌>>◌, pure, heap, put, max_pages,
  page_shift, page_bits, bytes,
}
use conan_tcmalloc.PageHeap.FreeLists.{load, upper_bound}
use conan_tcmalloc.PageHeap.Spans.{new_span, record_span, register_size_class, split, carve}
use conan_tcmalloc.PageHeap.Release.{head?, release_at_least_n_pages, ensure_limit, delete_locked}

unfoldable pub round_up_size : ℕ → ℕ → ℕ
round_up_size size n =
    let sum = add64 (add64 n size) (word - 1) in
    let rounded = sum - sum % size in
    if ltb rounded n then (word - 1) - (word - 1) % size else rounded

-- The smallest of the two sets' candidates, a normal span where both have one length.
unfoldable pub best_fit : (ℕ → Option Span) → Option ℕ → Option ℕ → Option ℕ
best_fit spans best_normal none = best_normal
best_fit spans none (some c) = some c
best_fit spans (some b) (some c) = elim (spans b) [
  | none ↦ some b
  | some s ↦ elim (spans c) [
    | none ↦ some b
    | some t ↦ if ltb t.length s.length then some c else some b
  ]
]

abbrev pub same_pointer : Option ℕ → Option ℕ → Bool
same_pointer none none = true
same_pointer none (some q) = false
same_pointer (some p) none = false
same_pointer (some p) (some q) = p == q

abbrev pub carve_option : Option ℕ → ℕ → M (Option ℕ)
carve_option none n = pure none
carve_option (some p) n = do q ← carve p n; pure (some q)

unfoldable pub alloc_large : System → ℕ → ℕ → M (Option ℕ)
unfolding upper_bound best_fit carve ensure_limit
alloc_large sys zero n = λ _. out_of_fuel
alloc_large sys (suc fuel) n = do
  h ← heap
  let best_normal = upper_bound h.spans n h.large_normal
  let best = best_fit h.spans best_normal (upper_bound h.spans n h.large_returned)
  if same_pointer best best_normal then carve_option best n else do
    room ← ensure_limit sys fuel n false
    if room then carve_option best n else do
      made ← ensure_limit sys fuel n true
      if made then alloc_large sys fuel n else pure none

-- for (s = n; s <= kMaxPages; s++), with the rounds left.
unfoldable pub search_lists : System → ℕ → ℕ → (n s : ℕ) → M (Option ℕ)
unfolding carve ensure_limit alloc_large
search_lists sys fuel zero n s = alloc_large sys fuel n
search_lists sys fuel (suc rounds) n s = do
  h ← heap
  elim (head? (h.normal (s - 1))) [
    | some p ↦ carve_option (some p) n
    | none ↦ elim (head? (h.returned (s - 1))) [
      | none ↦ search_lists sys fuel rounds n (s + 1)
      | some q ↦ ensure_limit sys fuel n true >>= λ room h'.
          if room && is_some (head? (h'.returned (s - 1)))
          then carve_option (head? (h'.returned (s - 1))) n h'
          else search_lists sys fuel rounds n (s + 1) h'
    ]
  ]

unfoldable pub search_free_and_large_lists : System → ℕ → ℕ → M (Option ℕ)
unfolding search_lists
search_free_and_large_lists sys fuel n = search_lists sys fuel (max_pages + 1 - n) n n

abbrev pub max_valid_pages : ℕ
max_valid_pages = (word - 1) / 2 ^ page_shift

-- EnsureLimit, and TCMalloc_SystemAlloc if it holds.
unfoldable pub ask_system : System → ℕ → ℕ → M (Option (ℕ × ℕ))
unfolding ensure_limit
ask_system sys fuel ask = do
  room ← ensure_limit sys fuel ask true
  if room
      then (λ h. ok (sys.alloc h.calls (bytes ask)) (record h { calls = h.calls + 1 }))
      else pure none

abbrev pub big_allocation_threshold : ℕ
big_allocation_threshold = 128 * 2 ^ 20

abbrev pub set_pagemap : PageMap2 ℕ → M (Unit {0})
set_pagemap m h = ok tt (record h { directory = record (h.directory) { pagemap = m } })

unfoldable pub count_growth : ℕ → PageHeap → PageHeap
count_growth ask h = record h {
  grown_by = add64 h.grown_by (bytes ask);
  stats = record (h.stats) {
    reserve_count = add64 h.stats.reserve_count 1;
    commit_count = add64 h.stats.commit_count 1;
    system_bytes = add64 h.stats.system_bytes (bytes ask);
    committed_bytes = add64 h.stats.committed_bytes (bytes ask);
    total_commit_bytes = add64 h.stats.total_commit_bytes (bytes ask);
    total_reserve_bytes = add64 h.stats.total_reserve_bytes (bytes ask);
  };
}

-- The new memory, of `ask` pages from page `p`, becomes a span that is in use and is then deleted.
unfoldable pub add_memory : System → ℕ → ℕ → ℕ → M Bool
unfolding count_growth preallocate ensure new_span record_span delete_locked
add_memory sys fuel p ask = do
  h ← heap
  put (count_growth ask h)
  h' ← heap
  (if ltb h.stats.system_bytes big_allocation_threshold
        && leb big_allocation_threshold h'.stats.system_bytes
      then elim (preallocate page_bits sys.grants h'.pagemap) [
        | none ↦ λ _. out_of_fuel
        | some m ↦ set_pagemap m
      ]
      else pure tt)
  h'' ← heap
  elim (ensure page_bits sys.grants (p - 1) (ask + 2) h''.pagemap) [
    | none ↦ λ _. out_of_fuel
    | some (done, m) ↦ do
      set_pagemap m
      if done
          then (do q ← new_span p ask; record_span q; delete_locked sys fuel q; pure true)
          else pure false
  ]

unfoldable pub grow_heap : System → ℕ → ℕ → M Bool
unfolding ask_system add_memory
grow_heap sys fuel n = if ltb max_valid_pages n then pure false else do
  let ask = if ltb max_pages n then n else max_pages
  first ← ask_system sys fuel ask
  got ← (if not (is_some first) && ltb n ask then ask_system sys fuel n else pure first)
  elim got [
    | none ↦ pure false
    | some (address, actual_size) ↦
        add_memory sys fuel (address / 2 ^ page_shift) (actual_size / 2 ^ page_shift)
  ]

abbrev pub forced_coalesce_interval : ℕ
forced_coalesce_interval = 128 * 1024 * 1024

-- Much is free, and this growth passes a multiple of 128 MB.
unfoldable pub must_coalesce : ℕ → PageHeap → Bool
must_coalesce n h =
    not (h.stats.free_bytes == 0)
    && (not (h.stats.unmapped_bytes == 0)
        && (leb (h.stats.system_bytes / 4) (add64 h.stats.free_bytes h.stats.unmapped_bytes)
            && not (
                h.stats.system_bytes / forced_coalesce_interval
                == add64 h.stats.system_bytes (bytes n) / forced_coalesce_interval)))

-- Grow the heap and try again.
unfoldable pub grow_and_search : System → ℕ → ℕ → M (Option ℕ)
unfolding grow_heap search_free_and_large_lists
grow_and_search sys fuel n = do
  grown ← grow_heap sys fuel n
  if grown then search_free_and_large_lists sys fuel n else pure none

unfoldable pub new_locked : System → ℕ → ℕ → M (Option ℕ)
unfolding round_up_size search_free_and_large_lists must_coalesce grow_and_search
    release_at_least_n_pages
new_locked sys fuel n h =
    let m = round_up_size h.smallest_span_size n in
    (do
      result ← search_free_and_large_lists sys fuel m
      if is_some result then pure result else do
        h' ← heap
        again ←
            (if must_coalesce m h'
              then release_at_least_n_pages sys fuel 0x7fffffff
                >> search_free_and_large_lists sys fuel m
              else pure none)
        if is_some again then pure again else grow_and_search sys fuel m)
      h

-- HandleUnlock: a growth of the heap is recorded with a stack trace.
unfoldable pub handle_unlock : M (Unit {0})
handle_unlock h =
    ok tt (if h.grown_by == 0 then h else record h { growth_stacks = h.grown_by ∷ h.growth_stacks })

abbrev pub locking_context : M (Unit {0})
locking_context h = ok tt (record h { grown_by = 0 })

-- InvalidateCachedSizeClass (src/src/page_heap.h).
unfoldable pub invalidate_cached_size_class : ℕ → M (Unit {0})
unfolding invalidate
invalidate_cached_size_class p h = ok tt (record h { cache = invalidate h.cache p })

-- SetCachedSizeClass (src/src/page_heap.h).
unfoldable pub set_cached_size_class : ℕ → ℕ → M (Unit {0})
unfolding PackedCache.put
set_cached_size_class p cl h = ok tt (record h { cache = PackedCache.put h.cache p cl })

-- GetSizeClassOrZero (src/src/page_heap.h).
unfoldable pub get_size_class_or_zero : ℕ → PageHeap → ℕ
unfolding try_get
get_size_class_or_zero p h = elim (try_get h.cache p) [ none ↦ 0 | some cl ↦ cl ]

abbrev pub invalidate_start : ℕ → M (Unit {0})
invalidate_start p = do s ← load p; invalidate_cached_size_class s.start

unfoldable pub new_with_size_class : System → ℕ → ℕ → ℕ → M (Option ℕ)
unfolding new_locked register_size_class handle_unlock load invalidate_cached_size_class
new_with_size_class sys fuel n sizeclass = do
  locking_context
  result ← new_locked sys fuel n
  elim result [
    | none ↦ pure tt
    | some p ↦ do
      invalidate_start p
      if sizeclass == 0 then pure tt else register_size_class p sizeclass
  ]
  handle_unlock
  pure result

-- while ((((span->start+skip) << kPageShift) & (align_bytes - 1)) != 0) skip++, on fuel.
unfoldable pub skip_loop : ℕ → (start align skip : ℕ) → M ℕ
skip_loop zero start align skip = λ _. out_of_fuel
skip_loop (suc fuel) start align skip =
    let rest = skip_loop fuel start align (skip + 1) in
    if bytes (start + skip) % bytes align == 0 then pure skip else rest

-- The span cut down to an aligned run of n pages.
unfoldable pub trim : System → ℕ → (n align p : ℕ) → M ℕ
unfolding load skip_loop split delete_locked
trim sys fuel n align p = do
  s ← load p
  skip ← skip_loop (align + 1) s.start align 0
  q ← (if ltb 0 skip then (do rest ← split p skip; delete_locked sys fuel p; pure rest) else pure p)
  t ← load q
  if ltb n t.length then (do trailer ← split q n; delete_locked sys fuel trailer) else pure tt
  pure q

unfoldable pub new_aligned : System → ℕ → (n align : ℕ) → M (Option ℕ)
unfolding round_up_size new_locked new_with_size_class trim handle_unlock load
    invalidate_cached_size_class
new_aligned sys fuel n₀ align h =
    let n = round_up_size h.smallest_span_size n₀ in
    let alloc = add64 n align in
    (if ltb alloc n || ltb alloc align
        then (do
          r ← new_with_size_class sys fuel (word - 1) 0
          if is_some r then (λ _. fault) else pure none)
        else (do
          locking_context
          r ← new_locked sys fuel alloc
          q ← elim r [
            | none ↦ pure none
            | some p ↦ (do q ← trim sys fuel n align p; invalidate_start q; pure (some q))
          ]
          handle_unlock
          pure q))
      h
