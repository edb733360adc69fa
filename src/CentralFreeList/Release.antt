-- ===== src/CentralFreeList/Release.antt =====
-- InsertRange of src/src/central_freelist.cc: objects go back to their spans, or to a slot.
use conan_tcmalloc.Base.{
  ℕ, zero, suc, ◌+◌, ◌-◌, ◌*◌, ◌/◌, ◌%◌, ◌^◌, Bool, true, false, not, ◌&&◌, ◌||◌, Option, none,
  some, ltb, leb, ◌==◌, if◌then◌else◌, word, sub64,
}
use conan_tcmalloc.PageMap.{update}
use conan_tcmalloc.LinkedList.{◌>>=◌, sll_next, sll_set_next}
use conan_tcmalloc.PageHeap.State.{page_shift}
use conan_tcmalloc.CentralFreeList.{
  Pages, CentralFreeList, Store, with_central, unlink, prepend_nonempty,
}

module _ (P : Pages) (size_of batch : ℕ → ℕ) (classes : ℕ) where
  -- The span on which the last object was freed is deleted.
  abbrev pub drop_span : (cl p : ℕ) → CentralFreeList → Store P → Store P
  drop_span cl p l s =
      let capacity =
        P.span_length p s.heap * 2 ^ page_shift / size_of (P.span_sizeclass p s.heap) in
      record s {
        lists = update s.lists cl (record (unlink p l) {
          counter = sub64 l.counter capacity;
          num_spans = l.num_spans - 1;
        });
        refcount = update s.refcount p 0;
        heap = P.delete p s.heap;
      }

  -- `refcount` has 16 bits.
  unfoldable pub release_to_spans : (cl object : ℕ) → Store P → Option (Store P)
  unfolding sll_set_next
  release_to_spans cl object s =
      let p = P.get_descriptor (object / 2 ^ page_shift) s.heap in
      let l = s.lists cl in
      let moved = if s.objects p == 0 then prepend_nonempty p (unlink p l) else l in
      let counted = record moved { counter = (l.counter + 1) % word } in
      let left = (s.refcount p + 2 ^ 16 - 1) % 2 ^ 16 in
      if p == 0
      then none
      else (if left == 0 then some (drop_span cl p counted s) else (do
        memory ← sll_set_next object (s.objects p) s.memory
        some (record (with_central cl counted s) {
          refcount = update s.refcount p left;
          objects = update s.objects p object;
          memory = memory;
        })))

  -- The while loop, on fuel.
  unfoldable pub release_list_to_spans : ℕ → (cl start : ℕ) → Store P → Option (Store P)
  release_list_to_spans zero cl start s = none
  release_list_to_spans (suc fuel) cl start s =
      let more = (do
        next ← sll_next start s.memory
        s' ← release_to_spans cl start s
        release_list_to_spans fuel cl next s') in
      if start == 0 then some s else more

  -- Of central_cache()[t]. A list in a slot has a batch of objects.
  unfoldable pub shrink_cache : (t : ℕ) (force : Bool) → Store P → Option (Bool × Store P)
  shrink_cache t force s =
      let l = s.lists t in
      let smaller = record l { cache_size = l.cache_size - 1 } in
      let forced = record smaller { used_slots = l.used_slots - 1 } in
      if (l.cache_size == 0) || (not force && (l.used_slots == l.cache_size))
      then some (false, s)
      else (if l.used_slots == l.cache_size
          then (do
            s' ←
                release_list_to_spans (batch t + 1) t (l.tc_slots (l.used_slots - 1)).head
                  (with_central t forced s)
            some (true, s'))
          else some (true, with_central t smaller s))

  -- The class to evict from, and the counter after it.
  abbrev pub next_class : ℕ → ℕ × ℕ
  next_class t = if leb classes t then (t % classes, t % classes) else (t, t + 1)

  unfoldable pub evict_random_size_class :
      (locked_size_class : ℕ) (force : Bool) → Store P → Option (Bool × Store P)
  evict_random_size_class locked_size_class force s =
      let (t, race_counter) = next_class s.race_counter in
      let s' = record s { race_counter = race_counter } in
      if t == locked_size_class then some (false, s') else shrink_cache t force s'

  -- Both tries to evict: the second is forced.
  unfoldable pub evict_twice : ℕ → Store P → Option (Bool × Store P)
  evict_twice cl s = do
    (evicted, s₁) ← evict_random_size_class cl false s
    if evicted then some (true, s₁) else evict_random_size_class cl true s₁

  unfoldable pub make_cache_space : ℕ → Store P → Option (Bool × Store P)
  make_cache_space cl s =
      let l = s.lists cl in
      if ltb l.used_slots l.cache_size
      then some (true, s)
      else (if l.cache_size == l.max_cache_size then some (false, s) else (do
        (evicted, s') ← evict_twice cl s
        let l' = s'.lists cl
        some (
            if evicted && ltb l'.cache_size l'.max_cache_size
            then (true, with_central cl (record l' { cache_size = l'.cache_size + 1 }) s')
            else (false, s'))))

  -- The range goes to a slot.
  abbrev pub fill_slot : (cl start end : ℕ) → Store P → Store P
  fill_slot cl start end s =
      let l = s.lists cl in
      with_central cl
        (record l {
          tc_slots = update l.tc_slots l.used_slots (record { head = start; tail = end });
          used_slots = l.used_slots + 1;
        })
        s

  unfoldable pub insert_range : (cl start end n : ℕ) → Store P → Option (Store P)
  insert_range cl start end n s =
      if n == batch cl
      then (do
        (space, s') ← make_cache_space cl s
        if space
            then some (fill_slot cl start end s')
            else release_list_to_spans (n + 1) cl start s')
      else release_list_to_spans (n + 1) cl start s
