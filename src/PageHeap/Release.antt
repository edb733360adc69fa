-- ===== src/PageHeap/Release.antt =====
-- ReleaseAtLeastNPages, EnsureLimit, IncrementalScavenge, DeleteLocked and Delete of
-- src/src/page_heap.cc.
use conan_tcmalloc.Base.{
  ℕ, zero, suc, ◌+◌, ◌*◌, ◌/◌, ◌^◌, Bool, true, false, ◌&&◌, not, Option, none, some, List, [], ◌∷◌,
  min, ltb, leb, ◌==◌, if◌then◌else◌, add64, sub64,
}
use conan_tcmalloc.PageHeap.State.{
  on_normal_freelist, PageHeap, System, ok, out_of_fuel, M, ◌>>=◌, ◌>>◌, pure, heap, put, max_pages,
  page_shift,
}
use conan_tcmalloc.PageHeap.FreeLists.{load, store, with_span}
use conan_tcmalloc.PageHeap.Merge.{merge_into_free_list, release_span}

abbrev pub head? : List ℕ → Option ℕ
head? [] = none
head? (p ∷ ps) = some p

-- `list->prev`, the span at the back.
unfoldable pub last? : List ℕ → Option ℕ
last? [] = none
last? (p ∷ ps) = elim (last? ps) [ none ↦ some p | some q ↦ some q ]

-- The span to release from the list of the index: the first large one, or the last of a list.
unfoldable pub victim : ℕ → PageHeap → Option ℕ
unfolding last?
victim i h = if i == max_pages then head? h.large_normal else last? (h.normal i)

abbrev pub set_release_index : ℕ → M (Unit {0})
set_release_index i h = ok tt (record h { release_index = i })

abbrev pub next_release_index : M (Unit {0})
next_release_index h = ok tt (record h { release_index = h.release_index + 1 })

-- The for loop, with the rounds left. The result says whether a release failed, which ends both
-- loops, and the number of pages released so far.
unfoldable pub release_round : System → ℕ → (num_pages released : ℕ) → M (Bool × ℕ)
unfolding victim release_span
release_round sys zero num_pages released = pure (false, released)
release_round sys (suc rounds) num_pages released =
    let body : M (Bool × ℕ) = (do
      h ← heap
      let i = if ltb max_pages h.release_index then 0 else h.release_index
      set_release_index i
      elim (victim i h) [
        | none ↦ next_release_index >> release_round sys rounds num_pages released
        | some p ↦ release_span sys p >>= λ len.
            if len == 0
            then pure (true, released)
            else next_release_index >> release_round sys rounds num_pages (released + len)
      ]) in
    if ltb released num_pages then body else pure (false, released)

-- The while loop on fuel.
unfoldable pub release_loop : System → ℕ → (num_pages released : ℕ) → M ℕ
unfolding release_round
release_loop sys zero num_pages released = λ _. out_of_fuel
release_loop sys (suc fuel) num_pages released =
    let body : M ℕ = (do
      r ← release_round sys (max_pages + 1) num_pages released
      if r.0 then pure r.1 else release_loop sys fuel num_pages r.1) in
    λ h. if ltb released num_pages && ltb 0 h.stats.free_bytes then body h else ok released h

unfoldable pub release_at_least_n_pages : System → ℕ → ℕ → M ℕ
unfolding release_loop
release_at_least_n_pages sys fuel num_pages = release_loop sys fuel num_pages 0

-- Lengths and counts of pages are 64-bit numbers. The limit is not negative.
unfoldable pub ensure_limit : System → ℕ → ℕ → Bool → M Bool
unfolding release_at_least_n_pages
ensure_limit sys fuel n with_release =
    let limit = (sys.heap_limit_mb * 1024 * 1024) / 2 ^ page_shift in
    if limit == 0 then pure true else (do
      h ← heap
      let taken =
          sub64 (sys.taken h.calls / 2 ^ page_shift) (h.stats.unmapped_bytes / 2 ^ page_shift)
      released ←
          (if ltb limit (add64 taken n) && with_release
            then release_at_least_n_pages sys fuel (sub64 (add64 taken n) limit)
            else pure 0)
      pure (leb (add64 (sub64 taken released) n) limit))

abbrev pub default_release_delay : ℕ
default_release_delay = 2 ^ 18

abbrev pub max_release_delay : ℕ
max_release_delay = 2 ^ 20

abbrev pub set_scavenge_counter : ℕ → M (Unit {0})
set_scavenge_counter c h = ok tt (record h { scavenge_counter = c })

-- The counter is negative if its top bit is set.
unfoldable pub incremental_scavenge : System → ℕ → ℕ → M (Unit {0})
unfolding release_at_least_n_pages
incremental_scavenge sys fuel n = do
  h ← heap
  let counter = sub64 h.scavenge_counter n
  set_scavenge_counter counter
  if ltb counter (2 ^ 63)
      then pure tt
      else (if not sys.releasing then set_scavenge_counter default_release_delay else do
        put (record h {
          scavenge_counter = counter;
          stats = record (h.stats) { scavenge_count = add64 h.stats.scavenge_count 1 };
        })
        released ← release_at_least_n_pages sys fuel 1
        set_scavenge_counter (
            if released == 0
            then default_release_delay
            else min (sys.wait released) max_release_delay))

unfoldable pub delete_locked : System → ℕ → ℕ → M (Unit {0})
unfolding load with_span merge_into_free_list incremental_scavenge
delete_locked sys fuel p = do
  s ← load p
  store p (record s { sizeclass = 0; sample = false; location = on_normal_freelist })
  merge_into_free_list sys p
  incremental_scavenge sys fuel s.length
