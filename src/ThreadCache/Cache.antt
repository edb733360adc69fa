-- ===== src/ThreadCache/Cache.antt =====
-- The operations of a ThreadCache (src/src/thread_cache.h, src/src/thread_cache.cc). The threads' caches are
-- numbered, and 0 is nullptr. The central cache and the size map are parameters: `size_of` and
-- `batch` are ByteSizeForClass and num_objects_to_move, an `int`.
use conan_tcmalloc.Base.{
  ℕ, zero, suc, ◌+◌, ◌-◌, ◌*◌, ◌%◌, ◌^◌, Bool, ◌&&◌, ◌||◌, Option, none, some, ltb, leb, ◌==◌,
  if◌then◌else◌, sub64, word,
}
use conan_tcmalloc.PageMap.{update}
use conan_tcmalloc.LinkedList.{Memory, ◌>>=◌}
use conan_tcmalloc.ThreadCache.FreeList
use conan_tcmalloc.ThreadCache.FreeList.{
  FreeList, add32, sub32, set_max_length, set_length_overages, clear_lowwatermark,
}

-- What a call of RemoveRange gives: how many objects, the first and the last.
pub record Fetched : Type 0 where
  pub count : ℕ
  pub start : ℕ
  pub end : ℕ

-- Static::central_cache(): InsertRange and RemoveRange of the list of a class; `none` is a fault.
pub record Central : Type 1 where
  pub State : Type 0
  pub insert_range : (cl start end n : ℕ) → State → Memory → Option (State × Memory)
  pub remove_range : (cl n : ℕ) → State → Memory → Option (Fetched × State × Memory)

-- `size` and `max_size` are the bit patterns of an int32_t.
pub record Cache : Type 0 where
  pub lists : ℕ → FreeList
  pub size : ℕ
  pub max_size : ℕ
  pub next : ℕ

-- `unclaimed` is the bit pattern of a ssize_t.
pub record World (C : Central) : Type 0 where
  pub caches : ℕ → Cache
  pub thread_heaps : ℕ
  pub next_steal : ℕ
  pub unclaimed : ℕ
  pub min_size : ℕ
  pub memory : Memory
  pub central : C.State

abbrev pub steal_amount : ℕ
steal_amount = 2 ^ 16

abbrev pub max_overages : ℕ
max_overages = 3

abbrev pub max_dynamic_length : ℕ
max_dynamic_length = 8192

-- The int32_t is converted to an uint64_t.
unfoldable pub extend : ℕ → ℕ
extend x = if ltb x (2 ^ 31) then x else x + (word - 2 ^ 32)

-- size_ > max_size_ of two int32_t.
unfoldable pub greater : ℕ → ℕ → Bool
greater a b = ltb ((b + 2 ^ 31) % 2 ^ 32) ((a + 2 ^ 31) % 2 ^ 32)

module _ {C : Central} (me : ℕ) where
  abbrev pub list_of : ℕ → World C → FreeList
  list_of cl w = (w.caches me).lists cl

  abbrev pub with_list : ℕ → FreeList → World C → World C
  with_list cl f w = record w {
    caches = update w.caches me (record (w.caches me) { lists = update (w.caches me).lists cl f });
  }

  abbrev pub with_size : ℕ → World C → World C
  with_size n w = record w { caches = update w.caches me (record (w.caches me) { size = n }) }

module _ (C : Central) where
  abbrev pub set_max_size : ℕ → ℕ → World C → World C
  set_max_size id n w = record w {
    caches = update w.caches id (record (w.caches id) { max_size = n });
  }

  -- The for loop, with the rounds left. A `next_` of nullptr is a fault.
  unfoldable pub steal_loop : ℕ → ℕ → World C → Option (World C)
  unfolding extend add32 sub32
  steal_loop zero me w = some w
  steal_loop (suc rounds) me w =
      let victim = if w.next_steal == 0 then w.thread_heaps else w.next_steal in
      let skipped = record w { next_steal = (w.caches victim).next } in
      let smaller = set_max_size victim (sub32 (w.caches victim).max_size steal_amount) w in
      let larger = set_max_size me (add32 (smaller.caches me).max_size steal_amount) smaller in
      let later = steal_loop rounds me skipped in
      if victim == 0
      then none
      else (if (victim == me) || leb (extend (w.caches victim).max_size) w.min_size
          then later
          else some (record larger { next_steal = (w.caches victim).next }))

  -- IncreaseCacheLimitLocked
  unfoldable pub increase_cache_limit : ℕ → World C → Option (World C)
  unfolding steal_loop add32
  increase_cache_limit me w =
      if ltb 0 w.unclaimed && ltb w.unclaimed (2 ^ 63)
      then some (
          set_max_size me (add32 (w.caches me).max_size steal_amount)
            (record w { unclaimed = sub64 w.unclaimed steal_amount }))
      else steal_loop 10 me w

  module _ (size_of batch : ℕ → ℕ) (me : ℕ) where
    -- PopRange from the list, and InsertRange in the central list.
    unfoldable pub give_back : (cl n : ℕ) → World C → Option (World C)
    unfolding FreeList.pop_range
    give_back cl n w = do
      (r, f) ← FreeList.pop_range n (list_of me cl w) w.memory
      (central, memory) ← C.insert_range cl r.start r.end n w.central r.memory
      some (record (with_list me cl f w) { memory = memory; central = central })

    -- while (N > batch_size), on fuel, and the last range.
    unfoldable pub give_back_loop : ℕ → (cl n : ℕ) → World C → Option (World C)
    unfolding give_back
    give_back_loop zero cl n w = none
    give_back_loop (suc fuel) cl n w =
        if ltb (batch cl) n
        then (do w' ← give_back cl (batch cl) w; give_back_loop fuel cl (n - batch cl) w')
        else give_back cl n w

    -- The fuel is for a batch of at least one object.
    unfoldable pub release_to_central_cache : (cl n : ℕ) → World C → Option (World C)
    unfolding give_back_loop sub32
    release_to_central_cache cl n w =
        let len = (list_of me cl w).length in
        let all = if ltb len n then len else n in
        (do
          w' ← give_back_loop (all + 1) cl all w
          some (with_size me (sub32 (w'.caches me).size ((all * size_of cl) % 2 ^ 32)) w'))
