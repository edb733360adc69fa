-- ===== src/CentralFreeList/Fetch.antt =====
-- RemoveRange of src/src/central_freelist.cc: objects come from a slot, from the spans or from a new span.
use conan_tcmalloc.Base.{
  ℕ, zero, suc, ◌+◌, ◌-◌, ◌*◌, ◌%◌, ◌^◌, ◌&&◌, Option, none, some, [], ◌∷◌, ltb, ◌==◌,
  if◌then◌else◌, word, sub64,
}
use conan_tcmalloc.PageMap.{update}
use conan_tcmalloc.LinkedList.{◌>>=◌, sll_set_next, sll_push_range}
use conan_tcmalloc.PageHeap.State.{page_shift}
use conan_tcmalloc.CentralFreeList.{
  Pages, Store, CentralRange, objects_field, with_central, unlink, prepend_nonempty, prepend_empty,
  walk, cut_objects,
}

module _ (P : Pages) (size_of batch pages : ℕ → ℕ) where
  -- Objects of the span `p`, at least one of them.
  unfoldable pub fetch_from_span : (cl n p : ℕ) → Store P → Option (CentralRange P)
  unfolding sll_set_next
  fetch_from_span cl n p s = do
    (result, prev, curr) ← walk (n - 1) 0 (s.objects p) s.memory
    memory ← sll_set_next prev 0 s.memory
    let l = s.lists cl
    let moved = if curr == 0 then prepend_empty p (unlink p l) else l
    some (record {
      count = result;
      start = s.objects p;
      end = prev;
      store = record s {
        lists = update s.lists cl (record moved { counter = sub64 l.counter result });
        objects = update s.objects p curr;
        refcount = update s.refcount p ((s.refcount p + result) % 2 ^ 16);
        memory = memory;
      };
    })

  -- The first span with objects.
  unfoldable pub fetch_from_one_spans : (cl n : ℕ) → Store P → Option (CentralRange P)
  fetch_from_one_spans cl n s = elim ((s.lists cl).nonempty) [
    | [] ↦ some (record { count = 0; start = 0; end = 0; store = s })
    | p ∷ ps ↦ fetch_from_span cl n p s
  ]

  -- for (i = 0; i < npages; i++) SetCachedSizeClass(span->start + i), with the rounds left.
  unfoldable pub cache_pages : (rounds start i cl : ℕ) → P.State → P.State
  cache_pages zero start i cl h = h
  cache_pages (suc rounds) start i cl h =
      cache_pages rounds start (i + 1) cl (P.set_cached_size_class (start + i) cl h)

  -- The objects of a new span, and the span on its list. There is fuel for objects of one byte.
  unfoldable pub add_span : (cl p : ℕ) → Store P → Option (Store P)
  add_span cl p s =
      let heap = cache_pages (pages cl) (P.span_start p s.heap) 0 cl s.heap in
      let ptr = P.span_start p heap * 2 ^ page_shift in
      let bytes = pages cl * 2 ^ page_shift in
      (do
        (num, (objects, memory)) ←
            cut_objects (bytes + 1) objects_field ptr (ptr + bytes) (size_of cl) 0
              (s.objects p, s.memory)
        let l = s.lists cl
        some (record s {
          lists = update s.lists cl (record (prepend_nonempty p l) {
            num_spans = l.num_spans + 1;
            counter = (l.counter + num) % word;
          });
          objects = update s.objects p objects;
          refcount = update s.refcount p 0;
          heap = heap;
          memory = memory;
        }))

  unfoldable pub populate : ℕ → Store P → Option (Store P)
  populate cl s =
      let (p, heap) = P.new_with_size_class (pages cl) cl s.heap in
      let s' = record s { heap = heap } in if p == 0 then some s' else add_span cl p s'

  unfoldable pub fetch_from_one_spans_safe : (cl n : ℕ) → Store P → Option (CentralRange P)
  fetch_from_one_spans_safe cl n s = do
    r ← fetch_from_one_spans cl n s
    let again = (do s' ← populate cl r.store; fetch_from_one_spans cl n s')
    if r.count == 0 then again else some r

  -- while (result < N), on fuel; `r` is what was fetched so far.
  unfoldable pub fetch_more : ℕ → (cl n : ℕ) → CentralRange P → Option (CentralRange P)
  fetch_more zero cl n r = none
  fetch_more (suc fuel) cl n r =
      let more = (do
        t ← fetch_from_one_spans cl (n - r.count) r.store
        let rest = (do
          (start, memory) ← sll_push_range r.start t.start t.end t.store.memory
          fetch_more fuel cl n (record {
            count = r.count + t.count;
            start = start;
            end = r.end;
            store = record (t.store) { memory = memory };
          }))
        if t.count == 0 then some (record r { store = t.store }) else rest) in
      if ltb r.count n then more else some r

  -- The last slot.
  abbrev pub take_slot : (cl n : ℕ) → Store P → CentralRange P
  take_slot cl n s =
      let l = s.lists cl in
      let slot = l.used_slots - 1 in
      record {
        count = n;
        start = (l.tc_slots slot).head;
        end = (l.tc_slots slot).tail;
        store = with_central cl (record l { used_slots = slot }) s;
      }

  unfoldable pub remove_range : (cl n : ℕ) → Store P → Option (CentralRange P)
  remove_range cl n s =
      let fetched = (do
        r ← fetch_from_one_spans_safe cl n s
        if r.count == 0 then some r else fetch_more (n + 1) cl n r) in
      if (n == batch cl) && ltb 0 (s.lists cl).used_slots then some (take_slot cl n s) else fetched

  abbrev pub length : ℕ → Store P → ℕ
  length cl s = (s.lists cl).counter

  unfoldable pub tc_length : ℕ → Store P → ℕ
  tc_length cl s = (s.lists cl).used_slots * batch cl

  unfoldable pub overhead_bytes : ℕ → Store P → ℕ
  overhead_bytes cl s =
      if cl == 0 then 0 else (s.lists cl).num_spans * ((pages cl * 2 ^ page_shift) % size_of cl)
