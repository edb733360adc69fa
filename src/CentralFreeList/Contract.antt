-- ===== src/CentralFreeList/Contract.antt =====
-- The central lists (src/src/central_freelist.h) as the central cache of the threads
-- (src/src/thread_cache.cc).
use conan_tcmalloc.Base.{
  ℕ, ◌<◌, ◌≡◌, ◌≢◌, ◌⊎◌, inl, inr, subst, refl, true, false, some, List, [], ◌==◌, arith, has,
  length, if◌then◌else◌,
}
use conan_tcmalloc.LinkedList.{Memory, ◌>>=◌}
use conan_tcmalloc.LinkedList.Ranges.{IsLast}
use conan_tcmalloc.ThreadCache.Cache.{Central, Fetched}
use conan_tcmalloc.ThreadCache.Invariant.{Chain, Gives, Ghosts, IsLawful}
use conan_tcmalloc.CentralFreeList.{Pages, Store}
use conan_tcmalloc.CentralFreeList.Release.{insert_range}
use conan_tcmalloc.CentralFreeList.Fetch.{remove_range}
use conan_tcmalloc.CentralFreeList.Invariant.{Places, is_given, IsPageHeap, IsValid}
use conan_tcmalloc.CentralFreeList.Objects.{has-grid}
use conan_tcmalloc.CentralFreeList.Places.{given-loose, span-not_given, slot-not_given}
use conan_tcmalloc.CentralFreeList.Local.{IsValid-local}
use conan_tcmalloc.CentralFreeList.Inserted.{insert_range-TookBack}
use conan_tcmalloc.CentralFreeList.Populated.{IsSized}
use conan_tcmalloc.CentralFreeList.Removed.{nothing, range, remove_range-Removes}

-- Static::central_cache(): the list of each class works on the memory of the threads.
abbrev pub central_cache : (P : Pages) → (size_of batch pages : ℕ → ℕ) → (classes : ℕ) → Central
central_cache P size_of batch pages classes = record {
  State = Store P;
  insert_range = λ cl start end n s m. (do
    s' ← insert_range P size_of batch classes cl start end n (record s { memory = m })
    some (s', s'.memory));
  remove_range = λ cl n s m. (do
    r ← remove_range P size_of batch pages cl n (record s { memory = m })
    some (record { count = r.count; start = r.start; end = r.end }, r.store, r.store.memory));
}

-- The ghost says where each object is, and the lists are in order with the memory of the threads.
abbrev pub central_ghosts :
    (P : Pages) (heap : IsPageHeap P) (size_of batch pages : ℕ → ℕ) (classes : ℕ)
    → Ghosts (central_cache P size_of batch pages classes)
central_ghosts P heap size_of batch pages classes = record {
  Ghost = Places;
  given = λ at cl a. is_given cl (at a);
  Valid = λ at s m. IsValid P heap size_of batch pages classes at (record s { memory = m });
}

module _ (P : Pages) (heap : IsPageHeap P) (size_of batch pages : ℕ → ℕ) (classes : ℕ)
    (some_class : 0 < classes) (batch_pos : (cl : ℕ) → 0 < cl → cl < classes → 0 < batch cl)
    (sized : (cl : ℕ) → 0 < cl → cl < classes → IsSized P heap size_of batch pages classes cl) where
  abbrev C : Central
  C = central_cache P size_of batch pages classes

  -- The lists are in order, with the memory of the threads.
  abbrev Valid : Places → Store P → Memory → Type 0
  Valid at s m = IsValid P heap size_of batch pages classes at (record s { memory = m })

  Valid-local :
      (at : Places) (s : Store P) (m m' : Memory)
      → Valid at s m
      → ((a : ℕ) → ((cl : ℕ) → is_given cl (at a) ≡ false) → m' a ≡ m a)
      → Valid at s m'
  Valid-local at s m m' v same =
      IsValid-local P heap size_of batch pages classes at (record s { memory = m }) s.heap m'
        (λ q live. record { live_still = live; start = refl; length = refl; sizeclass = refl })
        (λ q b on. same b (λ cl. span-not_given cl q (at b) on))
        (λ cl i b on. same b (λ dl. slot-not_given cl i dl (at b) on)) v

  Valid-not_null :
      (at : Places) (s : Store P) (m : Memory) (cl a : ℕ)
      → cl < classes
      → Valid at s m
      → is_given cl (at a) ≡ true
      → a ≢ 0
  Valid-not_null at s m cl a lt v mine =
      let (p, on, inside) = v.origin cl a lt (given-loose cl (at a) mine) in
      let x = v.span cl p lt on in
      let low = has-grid _ _ _ a inside in omega (arith, low.0, heap.start_pos s.heap p x.live)

  insert_range_lem :
      (cl start end n : ℕ) (xs : List ℕ) (at : Places) (s : Store P) (m : Memory)
      → 0 < cl
      → cl < classes
      → Valid at s m
      → Chain m start end n xs
      → ((a : ℕ) → has a xs ≡ true → is_given cl (at a) ≡ true)
      → (at' : Places) × (s' : Store P) × (m' : Memory) × (C.insert_range cl start end n s m
          ≡ some (s', m'))
        × Valid at' s' m'
        × ((dl a : ℕ) → is_given dl (at' a) ≡ (if has a xs then false else is_given dl (at a)))
        × ((dl a : ℕ) → is_given dl (at' a) ≡ true → m' a ≡ m a)
  insert_range_lem cl start end n xs at s m used lt v c mine =
      let last : (length xs ≡ 0) ⊎ IsLast end xs =
        subst (λ k. (k ≡ 0) ⊎ IsLast end xs) c.counts c.last in
      let (at', s', is, t) =
        insert_range-TookBack P heap size_of batch pages classes some_class cl start end xs at
          (record s { memory = m }) lt (batch_pos cl used lt) v c.holds last mine in
      (at', s', s'.memory, rw (c.counts, is) refl, t.valid, t.given, t.memory)

  remove_range_lem :
      (cl n : ℕ) (at : Places) (s : Store P) (m : Memory)
      → 0 < cl
      → cl < classes
      → 0 < n
      → Valid at s m
      → (at' : Places) × (r : Fetched) × (s' : Store P) × (m' : Memory) × (xs : List ℕ)
        × (C.remove_range cl n s m ≡ some (r, s', m'))
        × Valid at' s' m'
        × Gives m' n r xs
        × ((dl a : ℕ) → is_given dl (at' a) ≡ (if has a xs then cl == dl else is_given dl (at a)))
        × ((dl a : ℕ) → has a xs ≡ true → is_given dl (at a) ≡ false)
        × ((dl a : ℕ) → is_given dl (at a) ≡ true → m' a ≡ m a)
  remove_range_lem cl n at s m used lt pos v =
      let (r, is, removes) =
        remove_range-Removes P heap size_of batch pages classes cl n at (record s { memory = m }) lt
          pos (sized cl used lt) v in
      let f : Fetched = record { count = r.count; start = r.start; end = r.end } in
      let run : C.remove_range cl n s m ≡ some (f, r.store, r.store.memory) = rw is refl in
      elim removes [
        | nothing at' z u ↦ (
          at',
          f,
          r.store,
          r.store.memory,
          [],
          run,
          u.valid,
          record { chain = inl z; empty = λ e. refl; most = omega arith },
          u.given,
          λ dl a on. cc,
          u.memory,
        )
        | range xs at' x g ↦ (
          at',
          f,
          r.store,
          r.store.memory,
          xs,
          run,
          g.valid,
          record {
            chain = inr (record { holds = x.chain; last = inr x.last; counts = x.count });
            empty = λ z. absurd (omega (arith, x.some_object));
            most = x.most;
          },
          g.given,
          g.fresh,
          g.memory,
        )
      ]

  -- The central lists over a page heap with the laws keep the contract that the threads' caches
  -- rely on. InsertRange takes back any chain of objects of a class that were given; RemoveRange
  -- of at least one object gives none, or a chain of no more objects than asked for that were not
  -- given before; both always return and write to nothing that is given, and what is written to
  -- given objects does not disturb the lists. Classes other than 0 have batches of at least one
  -- and spans of 1 to 65535 objects.
  pub central_cache-IsLawful :
      IsLawful
        (central_cache P size_of batch pages classes)
        classes
        (central_ghosts P heap size_of batch pages classes)
  central_cache-IsLawful = record {
    not_null = Valid-not_null;
    local = Valid-local;
    insert = insert_range_lem;
    remove = remove_range_lem;
  }
