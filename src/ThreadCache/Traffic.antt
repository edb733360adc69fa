-- ===== src/ThreadCache/Traffic.antt =====
-- ListTooLong, Scavenge, Deallocate, Allocate and FetchFromCentralCache of a ThreadCache
-- (src/src/thread_cache.h, src/src/thread_cache.cc). Lengths are below 2 ^ 31, where the casts to int change nothing.
use conan_tcmalloc.Base.{
  ℕ, zero, suc, ◌+◌, ◌-◌, ◌*◌, ◌/◌, ◌%◌, ◌^◌, min, max, ◌&&◌, Option, some, ltb, ◌==◌,
  if◌then◌else◌,
}
use conan_tcmalloc.LinkedList.{◌>>=◌, sll_next}
use conan_tcmalloc.ThreadCache.FreeList
use conan_tcmalloc.ThreadCache.FreeList.{
  FreeList, add32, sub32, set_max_length, set_length_overages, clear_lowwatermark,
}
use conan_tcmalloc.ThreadCache.Cache.{
  Central, Fetched, World, list_of, with_list, with_size, release_to_central_cache,
  increase_cache_limit, greater, max_overages, max_dynamic_length,
}

-- The limit of a list that was too long, after some of it was released.
unfoldable pub after_too_long : ℕ → FreeList → FreeList
unfolding set_max_length set_length_overages
after_too_long batch f =
    let counted = set_length_overages (f.length_overages + 1) f in
    if ltb f.max_length batch
    then set_max_length (f.max_length + 1) f
    else (if ltb batch f.max_length
        then (if ltb max_overages counted.length_overages
            then set_length_overages 0 (set_max_length (counted.max_length - batch) counted)
            else counted)
        else f)

-- The limit of a list that was not used down to its low-water mark.
unfoldable pub after_idle : ℕ → FreeList → FreeList
unfolding set_max_length
after_idle batch f =
    if ltb batch f.max_length then set_max_length (max (f.max_length - batch) batch) f else f

-- The limit of a list that was empty.
unfoldable pub after_fetch : ℕ → FreeList → FreeList
unfolding set_max_length
after_fetch batch f =
    let new_length = min (f.max_length + batch) max_dynamic_length in
    if ltb f.max_length batch
    then set_max_length (f.max_length + 1) f
    else set_max_length (new_length - new_length % batch) f

module _ (C : Central) (size_of batch : ℕ → ℕ) (classes me : ℕ) where
  -- for (cl = 0; cl < num_size_classes(); cl++), with the rounds left.
  unfoldable pub scavenge_loop : (rounds cl : ℕ) → World C → Option (World C)
  unfolding release_to_central_cache after_idle clear_lowwatermark
  scavenge_loop zero cl w = some w
  scavenge_loop (suc rounds) cl w =
      let lowmark = (list_of me cl w).lowater in
      let drop = if ltb 1 lowmark then lowmark / 2 else 1 in
      (do
        w' ←
            (if ltb 0 lowmark && ltb lowmark (2 ^ 31)
              then (do
                v ← release_to_central_cache C size_of batch me cl drop w
                some (with_list me cl (after_idle (batch cl) (list_of me cl v)) v))
              else some w)
        scavenge_loop rounds (cl + 1) (with_list me cl (clear_lowwatermark (list_of me cl w')) w'))

  unfoldable pub scavenge : World C → Option (World C)
  unfolding scavenge_loop increase_cache_limit
  scavenge w = do w' ← scavenge_loop classes 0 w; increase_cache_limit C me w'

  abbrev pub scavenge_if_large : World C → Option (World C)
  scavenge_if_large w =
      if greater (w.caches me).size (w.caches me).max_size then scavenge w else some w

  unfoldable pub list_too_long : ℕ → World C → Option (World C)
  unfolding release_to_central_cache after_too_long scavenge greater add32
  list_too_long cl w = do
    v ←
        release_to_central_cache C size_of batch me cl (batch cl)
          (with_size me (add32 (w.caches me).size (list_of me cl w).size) w)
    scavenge_if_large (with_list me cl (after_too_long (batch cl) (list_of me cl v)) v)

  unfoldable pub deallocate : (ptr cl : ℕ) → World C → Option (World C)
  unfolding FreeList.push list_too_long scavenge greater add32
  deallocate ptr cl w = do
    (length, f, memory) ← FreeList.push ptr (list_of me cl w) w.memory
    let v = record (with_list me cl f w) { memory = memory }
    if ltb f.max_length length
        then list_too_long cl v
        else scavenge_if_large (with_size me (add32 (v.caches me).size f.size) v)

  -- The objects that came: the first is returned, and the others go on the list.
  unfoldable pub take_fetched :
      (oom : ℕ → ℕ) (cl byte_size : ℕ) → FreeList → Fetched → World C → Option (ℕ × World C)
  unfolding FreeList.push_range sll_next after_fetch add32
  take_fetched oom cl byte_size f r v = if r.count == 0 then some (oom byte_size, v) else (do
    next ← sll_next r.start v.memory
    (g, memory) ← FreeList.push_range (r.count - 1) next r.end f v.memory
    let grown = with_list me cl (after_fetch (batch cl) g) v
    some (
      r.start,
      record (with_size me (add32 (v.caches me).size ((byte_size * (r.count - 1)) % 2 ^ 32))
          grown) { memory = memory },
    ))

  -- The object, or what the handler for a lack of memory gives.
  unfoldable pub fetch_from_central_cache :
      (oom : ℕ → ℕ) (cl byte_size : ℕ) → World C → Option (ℕ × World C)
  unfolding take_fetched
  fetch_from_central_cache oom cl byte_size w = do
    let f = list_of me cl w
    (r, central, memory) ← C.remove_range cl (min f.max_length (batch cl)) w.central w.memory
    take_fetched oom cl byte_size f r (record w { central = central; memory = memory })

  unfoldable pub allocate : (oom : ℕ → ℕ) (size cl : ℕ) → World C → Option (ℕ × World C)
  unfolding FreeList.try_pop fetch_from_central_cache sub32
  allocate oom size cl w = do
    (found, object, f) ← FreeList.try_pop (list_of me cl w) w.memory
    if found
        then some
            (object, with_size me (sub32 (w.caches me).size (size % 2 ^ 32)) (with_list me cl f w))
        else fetch_from_central_cache oom cl (size % 2 ^ 32) w
