-- ===== src/PageHeap/Merge.antt =====
-- CheckAndHandlePreMerge, MergeIntoFreeList and ReleaseSpan of src/src/page_heap.cc.
use conan_tcmalloc.Base.{
  ℕ, ◌+◌, ◌-◌, ◌%◌, Bool, true, false, ◌&&◌, Option, none, some, word, if◌then◌else◌,
}
use conan_tcmalloc.PageHeap.State.{
  Location, in_use, on_normal_freelist, on_returned_freelist, System, M, ◌>>=◌, ◌>>◌, pure, heap,
}
use conan_tcmalloc.PageHeap.FreeLists.{
  is_normal, is_returned, load, store, with_span, prepend_to_free_list, remove_from_free_list,
  decommit_span,
}
use conan_tcmalloc.PageHeap.Spans.{delete_span, set_page, get_descriptor}

abbrev pub same_location : Location → Location → Bool
same_location in_use l = elim l [ in_use ↦ true | _ ↦ false ]
same_location on_normal_freelist l = is_normal l
same_location on_returned_freelist l = is_returned l

-- Whether `other` is off its list, ready to be merged.
unfoldable pub check_pre_merge : System → ℕ → Option ℕ → M (Option ℕ)
unfolding load decommit_span remove_from_free_list
check_pre_merge sys p none = pure none
check_pre_merge sys p (some other) = do
  h ← heap
  s ← load p
  t ← load other
  go ←
      (if h.aggressive_decommit && (is_normal t.location && is_returned s.location)
        then decommit_span sys other
        else pure (same_location t.location s.location))
  if go then (do remove_from_free_list other; pure (some other)) else pure none

-- Merge preceding span into this span.
unfoldable pub merge_prev : ℕ → Option ℕ → M (Unit {0})
unfolding load with_span delete_span set_page
merge_prev p none = pure tt
merge_prev p (some prev) = do
  t ← load prev
  delete_span prev
  s ← load p
  store p (record s { start = s.start - t.length; length = s.length + t.length })
  set_page (s.start - t.length) p

-- Merge next span into this span.
unfoldable pub merge_next : ℕ → Option ℕ → M (Unit {0})
unfolding load with_span delete_span set_page
merge_next p none = pure tt
merge_next p (some next) = do
  t ← load next
  delete_span next
  s ← load p
  store p (record s { length = s.length + t.length })
  set_page (s.start + (s.length + t.length) - 1) p

-- With aggressive decommit the span goes back to the system first.
unfoldable pub decommit_first : System → ℕ → M (Unit {0})
unfolding load with_span decommit_span
decommit_first sys p = do
  h ← heap
  s ← load p
  if h.aggressive_decommit && is_normal s.location
      then (do
        done ← decommit_span sys p
        if done then store p (record s { location = on_returned_freelist }) else pure tt)
      else pure tt

-- The page before page 0 is the last one of the address space.
unfoldable pub merge_into_free_list : System → ℕ → M (Unit {0})
unfolding load decommit_first check_pre_merge merge_prev merge_next get_descriptor
    prepend_to_free_list
merge_into_free_list sys p = do
  s ← load p
  decommit_first sys p
  h ← heap
  prev ← check_pre_merge sys p (get_descriptor ((s.start + word - 1) % word) h)
  merge_prev p prev
  h ← heap
  next ← check_pre_merge sys p (get_descriptor (s.start + s.length) h)
  merge_next p next
  prepend_to_free_list p

unfoldable pub release_span : System → ℕ → M ℕ
unfolding load with_span decommit_span remove_from_free_list merge_into_free_list
release_span sys p = do
  s ← load p
  done ← decommit_span sys p
  if done
      then (do
        remove_from_free_list p
        store p (record s { location = on_returned_freelist })
        merge_into_free_list sys p
        pure s.length)
      else pure 0
