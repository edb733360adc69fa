-- ===== src/PageHeap/FreeLists.antt =====
-- PrependToFreeList, RemoveFromFreeList, CommitSpan and DecommitSpan of src/src/page_heap.cc, with the
-- comparator and the list operations of src/src/span.h and src/src/span.cc.
use conan_tcmalloc.Base.{
  ℕ, ◌+◌, ◌-◌, Bool, true, false, Option, none, some, List, [], ◌∷◌, ltb, ◌==◌, if◌then◌else◌,
  add64, sub64,
}
use conan_tcmalloc.PageMap.{update}
use conan_tcmalloc.PageHeap.State.{
  Location, in_use, on_normal_freelist, on_returned_freelist, Span, Stats, FreeLists, PageHeap,
  System, ok, fault, M, ◌>>=◌, ◌>>◌, pure, heap, put, max_pages, bytes,
}

abbrev pub is_normal : Location → Bool
is_normal in_use = false
is_normal on_normal_freelist = true
is_normal on_returned_freelist = false

abbrev pub is_returned : Location → Bool
is_returned in_use = false
is_returned on_normal_freelist = false
is_returned on_returned_freelist = true

-- `span->field`, a fault at nullptr and at a deleted Span.
unfoldable pub load : ℕ → M Span
load p h = elim (h.spans p) [ none ↦ fault | some s ↦ ok s h ]

unfoldable pub with_span : ℕ → Option Span → PageHeap → PageHeap
with_span p s h = record h { directory = record (h.directory) { spans = update h.spans p s } }

abbrev pub store : ℕ → Span → M (Unit {0})
store p s h = ok tt (with_span p (some s) h)

-- SpanBestFitLess: by length, then by address. Entries of the sets are pointers; the length that an
-- entry caches is that of its span, which does not change while it is in a set.
abbrev pub best_fit_less : Span → Span → Bool
best_fit_less a b =
    if ltb a.length b.length
    then true
    else (if ltb b.length a.length then false else ltb a.start b.start)

-- std::set::insert. A pointer that holds no span is passed over.
unfoldable pub insert_set : (ℕ → Option Span) → ℕ → Span → List ℕ → List ℕ
insert_set spans p s [] = p ∷ []
insert_set spans p s (q ∷ qs) =
    let later = q ∷ insert_set spans p s qs in
    elim (spans q) [ none ↦ later | some t ↦ if best_fit_less s t then p ∷ q ∷ qs else later ]

-- DLL_Remove, and the erasure at an iterator: a pointer stands in a list at most once.
unfoldable pub remove : ℕ → List ℕ → List ℕ
remove p [] = []
remove p (q ∷ qs) = let rest = remove p qs in if q == p then rest else q ∷ rest

-- The first span that fits, std::set::upper_bound at a span that starts at 0 and has n pages.
unfoldable pub upper_bound : (ℕ → Option Span) → ℕ → List ℕ → Option ℕ
upper_bound spans n [] = none
upper_bound spans n (q ∷ qs) =
    let later = upper_bound spans n qs in
    elim (spans q) [
      | none ↦ later
      | some t ↦
          if ltb n t.length
          then some q
          else (if ltb t.length n then later else (if ltb 0 t.start then some q else later))
    ]

unfoldable pub count_in : Location → ℕ → Stats → Stats
count_in l n t =
    if is_normal l
    then record t { free_bytes = add64 t.free_bytes (bytes n) }
    else record t { unmapped_bytes = add64 t.unmapped_bytes (bytes n) }

unfoldable pub count_out : Location → ℕ → Stats → Stats
count_out l n t =
    if is_normal l
    then record t { free_bytes = sub64 t.free_bytes (bytes n) }
    else record t { unmapped_bytes = sub64 t.unmapped_bytes (bytes n) }

unfoldable pub put_in : (ℕ → Option Span) → ℕ → Span → FreeLists → FreeLists
unfolding insert_set
put_in spans p s l =
    if ltb max_pages s.length
    then (if is_returned s.location
        then record l { large_returned = insert_set spans p s l.large_returned }
        else record l { large_normal = insert_set spans p s l.large_normal })
    else (if is_normal s.location
        then record l { normal = update l.normal (s.length - 1) (p ∷ l.normal (s.length - 1)) }
        else record l {
          returned = update l.returned (s.length - 1) (p ∷ l.returned (s.length - 1));
        })

-- A span of a small length is unlinked from the list it is in, the one of its location and length.
unfoldable pub take_out : ℕ → Span → FreeLists → FreeLists
unfolding remove
take_out p s l =
    if ltb max_pages s.length
    then (if is_returned s.location
        then record l { large_returned = remove p l.large_returned }
        else record l { large_normal = remove p l.large_normal })
    else (if is_normal s.location
        then record l {
          normal = update l.normal (s.length - 1) (remove p (l.normal (s.length - 1)));
        }
        else record l {
          returned = update l.returned (s.length - 1) (remove p (l.returned (s.length - 1)));
        })

unfoldable pub prepend_to_free_list : ℕ → M (Unit {0})
unfolding load put_in count_in
prepend_to_free_list p = do
  s ← load p
  h ← heap
  put (record h {
    lists = put_in h.spans p s h.lists;
    stats = count_in s.location s.length h.stats;
  })

unfoldable pub remove_from_free_list : ℕ → M (Unit {0})
unfolding load take_out count_out
remove_from_free_list p = do
  s ← load p
  h ← heap
  put (record h { lists = take_out p s h.lists; stats = count_out s.location s.length h.stats })

-- TCMalloc_SystemCommit answers nothing.
unfoldable pub commit_span : ℕ → M (Unit {0})
unfolding load
commit_span p = do
  s ← load p
  h ← heap
  put (record h {
    stats = record (h.stats) {
      commit_count = add64 h.stats.commit_count 1;
      committed_bytes = add64 h.stats.committed_bytes (bytes s.length);
      total_commit_bytes = add64 h.stats.total_commit_bytes (bytes s.length);
    };
  })

abbrev pub decommitted : Span → Stats → Stats
decommitted s t = record t {
  decommit_count = add64 t.decommit_count 1;
  committed_bytes = sub64 t.committed_bytes (bytes s.length);
  total_decommit_bytes = add64 t.total_decommit_bytes (bytes s.length);
}

unfoldable pub decommit_span : System → ℕ → M Bool
unfolding load
decommit_span sys p = do
  s ← load p
  h ← heap
  let done = sys.release h.calls (bytes s.start) (bytes s.length)
  put (record h {
    calls = h.calls + 1;
    stats =
        if done
        then decommitted s h.stats
        else record (h.stats) { decommit_count = add64 h.stats.decommit_count 1 };
  })
  pure done
