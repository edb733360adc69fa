-- ===== src/PageHeap/Spans.antt =====
-- NewSpan and DeleteSpan (src/src/span.cc), and RecordSpan, GetDescriptor, RegisterSizeClass, Split and
-- Carve (src/src/page_heap.h, src/src/page_heap.cc).
use conan_tcmalloc.Base.{
  ◌^◌, ◌%◌, ℕ, zero, suc, ◌+◌, ◌-◌, false, Option, none, some, [], ◌∷◌, ltb, if◌then◌else◌, int_of,
  int_pos,
}
use conan_tcmalloc.PageMap.{update}
use conan_tcmalloc.PageMap.Two.{get, set}
use conan_tcmalloc.PageHeap.State.{
  Location, in_use, Span, Directory, PageHeap, ok, fault, M, ◌>>=◌, ◌>>◌, pure, heap, put,
  page_bits,
}
use conan_tcmalloc.PageHeap.FreeLists.{
  is_returned, load, store, with_span, prepend_to_free_list, remove_from_free_list, commit_span,
}

-- A new Span object: all fields but the range are zero.
abbrev pub span : ℕ → ℕ → Span
span start len = record {
  start = start;
  length = len;
  refcount = 0;
  sizeclass = 0;
  location = in_use;
  sample = false;
}

-- The object that the allocator gives next, and what it has left.
abbrev pub fresh : Directory → ℕ
fresh d = elim (d.deleted) [ [] ↦ d.next_span | p ∷ ps ↦ p ]

abbrev pub allocated : Directory → Directory
allocated d = record d {
  next_span = elim (d.deleted) [ [] ↦ d.next_span + 1 | p ∷ ps ↦ d.next_span ];
  deleted = elim (d.deleted) [ [] ↦ [] | p ∷ ps ↦ ps ];
}

unfoldable pub new_span : ℕ → ℕ → M ℕ
unfolding with_span
new_span start len = do
  h ← heap
  let p = fresh h.directory
  put (record h { directory = allocated h.directory })
  store p (span start len)
  pure p

unfoldable pub delete_span : ℕ → M (Unit {0})
unfolding load with_span
delete_span p = do
  load p
  h ← heap
  put (record h {
    directory = record (h.directory) { spans = update h.spans p none; deleted = p ∷ h.deleted };
  })

unfoldable pub set_page : ℕ → ℕ → M (Unit {0})
set_page k p h = elim (set page_bits h.pagemap k (some p)) [
  | none ↦ fault
  | some m ↦ ok tt (record h { directory = record (h.directory) { pagemap = m } })
]

unfoldable pub get_descriptor : ℕ → PageHeap → Option ℕ
get_descriptor k h = get page_bits h.pagemap k

unfoldable pub record_span : ℕ → M (Unit {0})
unfolding load set_page
record_span p = do
  s ← load p
  set_page s.start p
  if ltb 1 s.length then set_page (s.start + s.length - 1) p else pure tt

-- for (i = 1; i < span->length-1; i++), with the rounds left.
unfoldable pub set_pages : ℕ → ℕ → ℕ → M (Unit {0})
unfolding set_page
set_pages zero k p = pure tt
set_pages (suc rounds) k p = do set_page k p; set_pages rounds (k + 1) p

unfoldable pub register_size_class : ℕ → ℕ → M (Unit {0})
unfolding load with_span set_pages
register_size_class p sc = do
  s ← load p
  store p (record s { sizeclass = sc % 2 ^ 8 })
  set_pages (s.length - 1 - 1) (s.start + 1) p

-- The first part keeps the Span; the result is the Span of the rest.
unfoldable pub split : ℕ → ℕ → M ℕ
unfolding load with_span new_span record_span set_page
split p n = do
  s ← load p
  leftover ← new_span (s.start + n) (int_of (s.length - n))
  record_span leftover
  set_page (s.start + n - 1) p
  store p (record s { length = n })
  pure leftover

-- The part of `carve` after the span is off its list, for a span longer than what is asked.
unfoldable pub carve_rest : ℕ → ℕ → Location → M (Unit {0})
unfolding load with_span new_span record_span set_page prepend_to_free_list
carve_rest p n old_location = do
  s ← load p
  leftover ← new_span (s.start + n) (int_of (s.length - n))
  t ← load leftover
  store leftover (record t { location = old_location })
  record_span leftover
  prepend_to_free_list leftover
  store p (record s { length = n })
  set_page (s.start + n - 1) p

unfoldable pub carve : ℕ → ℕ → M ℕ
unfolding load with_span remove_from_free_list carve_rest commit_span
carve p n = do
  s ← load p
  remove_from_free_list p
  store p (record s { location = in_use })
  if int_pos (s.length - n) then carve_rest p n s.location else pure tt
  if is_returned s.location then commit_span p else pure tt
  pure p
