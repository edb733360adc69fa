-- ===== src/ThreadCache/Examples.antt =====
-- The theorems on caches of threads at one cache, over the central lists of single pages.
use conan_tcmalloc.Base.{
  true, ℕ, ◌^◌, ◌≤◌, ◌<◌, ◌≡◌, refl, some, List, [], ◌∷◌, ◌==◌, if◌then◌else◌, arith, inl, inr,
  Bool-cases,
}
use conan_tcmalloc.PageMap.{update}
use conan_tcmalloc.PageHeap.Tally.{tally}
use conan_tcmalloc.CentralFreeList.Invariant.{Places}
use conan_tcmalloc.CentralFreeList.Populated.{IsSized}
use conan_tcmalloc.CentralFreeList.Contract.{central_cache, central_ghosts, central_cache-IsLawful}
use conan_tcmalloc.CentralFreeList.Examples.{
  single_pages, single_pages-IsPageHeap, half_page, two, one_page, no_objects, nowhere,
  no_objects-IsValid, one_given, halves, one_given-IsValid,
}
use conan_tcmalloc.ThreadCache.Cache.{
  Central, World, list_of, with_list, with_size, release_to_central_cache, increase_cache_limit,
  max_dynamic_length,
}
use conan_tcmalloc.ThreadCache.Traffic.{deallocate, allocate}
use conan_tcmalloc.ThreadCache.Lists.{SameLimits}
use conan_tcmalloc.ThreadCache.Invariant.{Ghosts, IsLawful, Owns, Spares, NoMore, IsHeld, Sized}
use conan_tcmalloc.ThreadCache.Budget.{Numbered, Kept, increase_cache_limit-Kept}
use conan_tcmalloc.ThreadCache.Release.{release-Owns}
use conan_tcmalloc.ThreadCache.Health.{Healthy, Shrinks}
use conan_tcmalloc.ThreadCache.Deallocate.{deallocate-Shrinks}
use conan_tcmalloc.ThreadCache.Given.{Given}
use conan_tcmalloc.ThreadCache.Allocate.{allocate-Given}
use conan_tcmalloc.ThreadCache.RoundTrip.{Restored, deallocate-allocate}
use conan_tcmalloc.ThreadCache.Destroy.{destroy, destroy-Spares}

abbrev central : Central
central = central_cache single_pages half_page two one_page 2

abbrev ghosts : Ghosts central
ghosts = central_ghosts single_pages single_pages-IsPageHeap half_page two one_page 2

halves-IsSized :
    (cl : ℕ)
    → 0 < cl
    → cl < 2
    → IsSized single_pages single_pages-IsPageHeap half_page two one_page 2 cl
halves-IsSized cl used lt = record {
  size_pos = omega arith;
  some_object = omega arith;
  fits = omega arith;
}

lawful : IsLawful central 2 ghosts
lawful =
    central_cache-IsLawful single_pages single_pages-IsPageHeap half_page two one_page 2
      (omega arith) (λ cl used lt. omega arith) halves-IsSized

-- Cache 1 is the only one: its class 1 has objects of half a page, and none at the start.
abbrev one_cache : World central
one_cache = record {
  caches = λ id. record {
    lists = λ cl. record {
      list = 0;
      length = 0;
      lowater = 0;
      max_length = 1;
      length_overages = 0;
      size = 4096;
    };
    size = 0;
    max_size = 2 ^ 16;
    next = 0;
  };
  thread_heaps = 1;
  next_steal = 0;
  unclaimed = 2 ^ 25;
  min_size = 2 ^ 19;
  memory = λ a. 0;
  central = no_objects;
}

abbrev nothing_listed : ℕ → List ℕ
nothing_listed cl = []

two_ok : (cl : ℕ) → 0 < cl → cl < 2 → (0 < two cl) × (two cl ≤ max_dynamic_length)
two_ok cl used lt = (omega arith, omega arith)

one_lt : 1 < 2
one_lt = omega arith

-- The cache is new, and the program has some of the objects of the central lists, or none.
empty-Owns :
    (at : Places) (w : World central)
    → (w.caches ≡ one_cache.caches)
    → ghosts.Valid at w.central w.memory
    → Owns central 2 ghosts 1 at nothing_listed w
empty-Owns at w e valid = record {
  lists = λ cl lt. rw e (record {
    holds = record { chain = refl; distinct = tt };
    counts = refl;
    low = omega arith;
    small = omega arith;
  });
  apart = λ cl dl a b ne x on. cc;
  own = λ cl a lt on. cc;
  valid = valid;
}

one_cache-Numbered : Numbered 2 one_cache
one_cache-Numbered = record {
  first_pos = omega arith;
  first_lt = omega arith;
  steal_lt = omega arith;
  next_lt = λ id. omega arith;
  limit_lt = λ id. omega arith;
}

empty-Sized : Sized half_page 2 nothing_listed (one_cache.caches 1)
unfolding tally
empty-Sized = refl

one_cache-Healthy :
    Healthy central 2 ghosts lawful half_page two 1 2 one_lt two_ok nowhere nothing_listed one_cache
one_cache-Healthy = record {
  owns = empty-Owns nowhere one_cache refl no_objects-IsValid;
  sized = empty-Sized;
  sizes = λ cl lt. refl;
  limits = λ cl lt. (omega arith, omega arith);
  unused = refl;
  numbered = one_cache-Numbered;
}

increase_cache_limit-Kept_example :
    (w' : World central) × (increase_cache_limit central 1 one_cache ≡ some w')
    × Kept 1 2 one_lt one_cache w'
increase_cache_limit-Kept_example =
    increase_cache_limit-Kept 1 2 one_lt one_cache one_cache-Numbered

allocate-Given_example :
    (r : ℕ × World central) × (allocate central half_page two 2 1 (λ n. 0) 4096 1 one_cache
      ≡ some r)
    × Given central 2 ghosts lawful half_page two 1 2 one_lt two_ok
        (λ n. 0)
        1
        nowhere
        nothing_listed
        one_cache
        r
allocate-Given_example =
    allocate-Given central 2 ghosts lawful half_page two 1 2 one_lt two_ok (λ n. 0) 1 nowhere
      nothing_listed one_cache (omega arith) one_lt one_cache-Healthy (omega arith)

-- The program has the object at 8192, and the other half of the page is on the list of its span.
abbrev one_out : World central
one_out = record one_cache { central = one_given }

one_out-Healthy :
    Healthy central 2 ghosts lawful half_page two 1 2 one_lt two_ok halves nothing_listed one_out
one_out-Healthy = record {
  owns = empty-Owns halves one_out refl one_given-IsValid;
  sized = empty-Sized;
  sizes = λ cl lt. refl;
  limits = λ cl lt. (omega arith, omega arith);
  unused = refl;
  numbered = record {
    first_pos = omega arith;
    first_lt = omega arith;
    steal_lt = omega arith;
    next_lt = λ id. omega arith;
    limit_lt = λ id. omega arith;
  };
}

object_8192 : IsHeld central 2 ghosts halves nothing_listed 1 8192
object_8192 = record { given = refl; listed = λ cl lt. refl }

deallocate-Shrinks_example :
    Shrinks central 2 ghosts lawful half_page two 1 2 one_lt two_ok halves
      (update nothing_listed 1 (8192 ∷ []))
      one_out
      (deallocate central half_page two 2 1 8192 1 one_out)
deallocate-Shrinks_example =
    deallocate-Shrinks central 2 ghosts lawful half_page two 1 2 one_lt two_ok 8192 1 halves
      nothing_listed one_out (omega arith) one_lt one_out-Healthy object_8192 (omega arith)

-- Cache 1 has the object at 8192.
abbrev one_cached : World central
one_cached = record one_out {
  caches = λ id. record {
    lists = λ cl.
        if cl == 1
        then record {
          list = 8192;
          length = 1;
          lowater = 1;
          max_length = 4;
          length_overages = 0;
          size = 4096;
        }
        else (one_cache.caches 1).lists cl;
    size = 4096;
    max_size = 2 ^ 16;
    next = 0;
  };
}

abbrev one_listed : ℕ → List ℕ
one_listed cl = if cl == 1 then 8192 ∷ [] else []

one_cached-Owns : Owns central 2 ghosts 1 halves one_listed one_cached
one_cached-Owns = record {
  lists = λ cl lt. elim (Bool-cases (cl == 1)) [
    | inl at ↦ rw at (record {
      holds = record { chain = (refl, (λ e. ground arith), refl); distinct = (refl, tt) };
      counts = refl;
      low = omega arith;
      small = omega arith;
    })
    | inr other ↦ rw other (record {
      holds = record { chain = refl; distinct = tt };
      counts = refl;
      low = omega arith;
      small = omega arith;
    })
  ];
  apart = λ cl dl a b ne x on. ground arith;
  own = λ cl a lt on. ground arith;
  valid = one_given-IsValid;
}

one_cached-Sized : Sized half_page 2 one_listed (one_cached.caches 1)
unfolding tally
one_cached-Sized = refl

release-Owns_example :
    (w' : World central) × (g' : Places) × (release_to_central_cache central half_page two 1 1 1
        one_cached
      ≡ some w')
    × Owns central 2 ghosts 1 g' (update one_listed 1 []) w'
    × Spares central 2 ghosts halves g' one_listed one_cached w'
    × NoMore central 2 ghosts halves g' one_listed (update one_listed 1 [])
    × Sized half_page 2 (update one_listed 1 []) (w'.caches 1)
    × ((dl : ℕ) → SameLimits (list_of 1 dl one_cached) (list_of 1 dl w'))
    × ((k : ℕ) → Numbered k one_cached → Numbered k w')
release-Owns_example =
    release-Owns central 2 ghosts lawful half_page two 1 1 1 halves one_listed one_cached
      (omega arith) one_lt (omega arith) one_cached-Owns one_cached-Sized

one_cached-Healthy :
    Healthy central 2 ghosts lawful half_page two 1 2 one_lt two_ok halves one_listed one_cached
one_cached-Healthy = record {
  owns = one_cached-Owns;
  sized = one_cached-Sized;
  sizes = λ cl lt. ground arith;
  limits = λ cl lt. ground arith;
  unused = refl;
  numbered = record {
    first_pos = omega arith;
    first_lt = omega arith;
    steal_lt = omega arith;
    next_lt = λ id. omega arith;
    limit_lt = λ id. omega arith;
  };
}

-- Allocate takes the object off the list.
abbrev taken : ℕ × World central
taken = (
  8192,
  with_size 1 0 (
      with_list 1 1
        (record {
          list = 0;
          length = 0;
          lowater = 0;
          max_length = 4;
          length_overages = 0;
          size = 4096;
        })
        one_cached),
)

allocate_8192 : allocate central half_page two 2 1 (λ n. 0) 4096 1 one_cached ≡ some taken
unfolding allocate
allocate_8192 = refl

deallocate-allocate_example :
    (w' : World central) × (deallocate central half_page two 2 1 8192 1 (taken.1) ≡ some w')
    × Restored central 2 ghosts lawful half_page two 1 2 one_lt two_ok halves one_listed one_cached
        w'
deallocate-allocate_example =
    deallocate-allocate central 2 ghosts lawful half_page two 1 2 one_lt two_ok (λ n. 0) 1 halves
      one_listed one_cached taken (omega arith) one_lt one_cached-Healthy (omega arith)
      allocate_8192 (λ e. ground arith) (omega arith)

destroy-Spares_example :
    (w' : World central) × (g' : Places) × (destroy central half_page two 2 1 one_cached ≡ some w')
    × ((cl : ℕ) → cl < 2 → (list_of 1 cl w').length ≡ 0)
    × ((w'.caches 1).size ≡ 0)
    × ghosts.Valid g' w'.central w'.memory
    × Spares central 2 ghosts halves g' one_listed one_cached w'
    × ((dl a : ℕ) → ghosts.given g' dl a ≡ true → IsHeld central 2 ghosts halves one_listed dl a)
destroy-Spares_example =
    destroy-Spares central 2 ghosts lawful half_page two 1 2 one_lt two_ok halves one_listed
      one_cached one_cached-Healthy
