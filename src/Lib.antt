-- ===== src/Lib.antt =====
-- tcmalloc, the allocator of gperftools: a model of the page heap, of what it stands on, and of the
-- central lists of objects and the caches of threads above it.
--
-- The page heap hands out runs of pages, called spans, to the caches above it and to large requests.
-- It finds the span of a page in a page map, and the size class of a page in a packed cache; it keeps
-- free spans on lists by length, and sets of the large ones, one kind for spans whose memory is
-- committed and one for those given back to the system. The size map computes the size classes of the
-- caches above. A thread's cache keeps a list of free objects for each class, linked through their
-- first words, and trades ranges of them with the central list of the class, which cuts spans into
-- objects and holds some ranges ready. Files, with paths from the repository's root:
--
--   PageMap.antt, PageMap/      src/src/pagemap.h: TCMalloc_PageMap1 to 3 are One to Three
--   SizeMap.antt, SizeMap/      SizeMap of src/src/common.h and src/src/common.cc: Index, Alignment,
--                               SpanSize, Sizes, Classes and ClassArray, which have the loops of Init
--   PackedCache.antt            src/src/packed-cache-inl.h
--   PageHeap/State.antt         the state: src/src/page_heap.h, src/src/span.h
--   PageHeap/FreeLists.antt     PrependToFreeList, RemoveFromFreeList, CommitSpan, DecommitSpan
--   PageHeap/Spans.antt         NewSpan, DeleteSpan, RecordSpan, Split, Carve, RegisterSizeClass
--   PageHeap/Merge.antt         CheckAndHandlePreMerge, MergeIntoFreeList, ReleaseSpan
--   PageHeap/Release.antt       ReleaseAtLeastNPages, EnsureLimit, IncrementalScavenge, DeleteLocked
--   PageHeap/Alloc.antt         the searches, GrowHeap, NewLocked, NewWithSizeClass, NewAligned
--   PageHeap/Check.antt         CheckExpensive, GetNextRange, the statistics on spans
--   PageHeap/Geometry, Listed, Tally, Invariant     the invariant and the rules of the operations:
--                               Carved, Cuts, Coalesce, Freed, Rounds, Released, Deleted, Searched,
--                               Added, Grown, New and SizeClass each have the operations they are named for
--   LinkedList.antt, LinkedList/        src/src/linked_list.h over a memory of words
--   ThreadCache/FreeList.antt   ThreadCache::FreeList of src/src/thread_cache.h
--   ThreadCache/Cache.antt      IncreaseCacheLimit and ReleaseToCentralCache of src/src/thread_cache.cc
--   ThreadCache/Traffic.antt    Allocate, Deallocate, FetchFromCentralCache, ListTooLong, Scavenge
--   ThreadCache/Invariant.antt  what a thread owns, and the laws of the central cache as an interface;
--                               Lists, Owned, Budget, Release, Health, Deallocate, Given, Taken,
--                               Filled, Allocate and RoundTrip have the proofs
--   ThreadCache/Destroy.antt    ~ThreadCache
--   CentralFreeList.antt        the state of src/src/central_freelist.h, and Init
--   CentralFreeList/Release.antt        InsertRange, MakeCacheSpace, ShrinkCache, ReleaseToSpans
--   CentralFreeList/Fetch.antt  RemoveRange, FetchFromOneSpans, Populate
--   CentralFreeList/Invariant.antt      where each object is, and the page heap as an interface; Objects,
--                               Step, Released, Lists, Slots, Shrunk, Inserted, Local, Fetched,
--                               Populated and Removed have the proofs, and Contract makes the lists the
--                               central cache of the threads
--   Base.antt, Base/            shared tests, lists, powers of two and 64-bit words
--
-- A function of the program has its name in snake case. The configuration is the one of 64-bit Linux:
-- addresses of 48 bits, pages of 2 ^ 13 bytes, 128 lists. A Span object is a number, and `spans` says
-- what is allocated under it; a use of a null or deleted Span, and a write to a page that the map has
-- no leaf for, is a `fault` of the run. Numbers are native; where the code computes on 64-bit words
-- the model has the remainder, and the `int` of Split and Carve is converted as the language does.
-- An operation runs as a whole, as it does under the lock of the heap; the `std::set` of large spans
-- is a list in the order of its comparator.
--
-- Loops: those of the page map take the root's length and one more as fuel, those of the size map a
-- number that the sizes bound: at 8 times a size too much is never left over, and sizes grow by 8.
-- The loops of ReleaseAtLeastNPages, AllocLarge and NewAligned run on fuel, and a run says so if it
-- ends for lack of it: for the first one round more than there are pages to release is enough. That of
-- ReleaseToCentralCache takes the number of objects and one more, for a batch of at least one; the
-- loops over the lists count down their bound.
--
-- Not modelled: the operating system and the process's settings (`System` is a parameter: what
-- TCMalloc_SystemAlloc, TCMalloc_SystemRelease and the flags answer), the metadata allocator beyond
-- which Span object it gives next, the ASSERTs, errno, and the locks. To the threads' caches the central
-- cache is an interface with laws (`Central`, `Ghosts`, `IsLawful`), which CentralFreeList/Contract.antt
-- has the central lists fill; to those the page heap is one (`Pages`, `IsPageHeap`), with laws that
-- the model of the page heap is not yet shown to have. A `fraction` of
-- GetNextRange is a numerator and a denominator, not a `double`. The theorems on New are for a heap
-- without a limit, whose System gives memory that is new to it. The constructor of a thread's cache and
-- the list of all caches, the checks at the end of SizeMap::Init and the sampler are not here yet;
-- profilers, stack traces, the Windows port, overrides of libc and the copies of other projects under
-- vendor are no part of this.
pub mod Base
pub mod CentralFreeList
pub mod PageMap
pub mod PageHeap
pub mod SizeMap
pub mod LinkedList
pub mod ThreadCache
pub mod PackedCache
