-- ===== src/ThreadCache/Invariant.antt =====
-- What a thread's cache (src/src/thread_cache.h) owns, and what it relies on of the central cache.
use conan_tcmalloc.Base.{
  ℕ, ◌*◌, ◌%◌, ◌^◌, ◌≤◌, ◌<◌, ◌≡◌, ◌≢◌, ◌⊎◌, Bool, true, false, some, List, [], ◌==◌, if◌then◌else◌,
  has, length,
}
use conan_tcmalloc.PageHeap.Tally.{tally}
use conan_tcmalloc.LinkedList.{Memory}
use conan_tcmalloc.LinkedList.Segments.{Holds, Disjoint}
use conan_tcmalloc.LinkedList.Ranges.{IsLast}
use conan_tcmalloc.ThreadCache.Lists.{Represents}
use conan_tcmalloc.ThreadCache.Cache.{Central, Fetched, Cache, World, list_of}

-- A chain of `n` objects and its last one, if there is one.
pub record Chain (m : Memory) (start end n : ℕ) (xs : List ℕ) : Type 0 where
  pub holds : Holds m start xs
  pub last : (n ≡ 0) ⊎ IsLast end xs
  pub counts : n ≡ length xs

-- What RemoveRange gives: none, or a chain of no more objects than were asked for.
pub record Gives (m : Memory) (n : ℕ) (r : Fetched) (xs : List ℕ) : Type 0 where
  pub chain : (r.count ≡ 0) ⊎ Chain m r.start r.end r.count xs
  pub empty : r.count ≡ 0 → xs ≡ []
  pub most : r.count ≤ n

-- A ghost says which objects of a class the central cache has given and not got back, and `Valid` when its
-- state is in order.
pub record Ghosts (C : Central) : Type 1 where
  pub Ghost : Type 0
  pub given : Ghost → (cl a : ℕ) → Bool
  pub Valid : Ghost → C.State → Memory → Type 0

-- What is asked of a central cache: it writes to none of the objects that it has given, takes chains of them
-- back, and relies on nothing that is in them.
pub record IsLawful (C : Central) (classes : ℕ) (G : Ghosts C) : Type 0 where
  pub not_null :
      (g : G.Ghost) (st : C.State) (m : Memory) (cl a : ℕ)
      → cl < classes
      → G.Valid g st m
      → G.given g cl a ≡ true
      → a ≢ 0
  pub local :
      (g : G.Ghost) (st : C.State) (m m' : Memory)
      → G.Valid g st m
      → ((a : ℕ) → ((cl : ℕ) → G.given g cl a ≡ false) → m' a ≡ m a)
      → G.Valid g st m'
  pub insert :
      (cl start end n : ℕ) (xs : List ℕ) (g : G.Ghost) (st : C.State) (m : Memory)
      → 0 < cl
      → cl < classes
      → G.Valid g st m
      → Chain m start end n xs
      → ((a : ℕ) → has a xs ≡ true → G.given g cl a ≡ true)
      → (g' : G.Ghost) × (st' : C.State) × (m' : Memory) × (C.insert_range cl start end n st m
          ≡ some (st', m'))
        × G.Valid g' st' m'
        × ((dl a : ℕ) → G.given g' dl a ≡ (if has a xs then false else G.given g dl a))
        × ((dl a : ℕ) → G.given g' dl a ≡ true → m' a ≡ m a)
  pub remove :
      (cl n : ℕ) (g : G.Ghost) (st : C.State) (m : Memory)
      → 0 < cl
      → cl < classes
      → 0 < n
      → G.Valid g st m
      → (g' : G.Ghost) × (r : Fetched) × (st' : C.State) × (m' : Memory) × (xs : List ℕ)
        × (C.remove_range cl n st m ≡ some (r, st', m'))
        × G.Valid g' st' m'
        × Gives m' n r xs
        × ((dl a : ℕ) → G.given g' dl a ≡ (if has a xs then cl == dl else G.given g dl a))
        × ((dl a : ℕ) → has a xs ≡ true → G.given g dl a ≡ false)
        × ((dl a : ℕ) → G.given g dl a ≡ true → m' a ≡ m a)

-- The thread's lists stand for the objects `objs`, which belong to no other list and were given by the
-- central cache.
pub record Owns (C : Central) (classes : ℕ) (G : Ghosts C) (me : ℕ) (g : G.Ghost)
    (objs : ℕ → List ℕ) (w : World C) : Type 0 where
  pub lists : (cl : ℕ) → cl < classes → Represents w.memory (list_of me cl w) (objs cl)
  pub apart : (cl dl : ℕ) → cl < classes → dl < classes → cl ≢ dl → Disjoint (objs cl) (objs dl)
  pub own : (cl a : ℕ) → cl < classes → has a (objs cl) ≡ true → G.given g cl a ≡ true
  pub valid : G.Valid g w.central w.memory

-- The objects that were given and are in no list of the thread, those that the program has among them,
-- are given still and not written to.
abbrev pub Spares :
    (C : Central) (classes : ℕ) (G : Ghosts C)
    → (g g' : G.Ghost) (objs : ℕ → List ℕ) (w w' : World C) → Type 0
Spares C classes G g g' objs w w' =
    (dl a : ℕ)
    → G.given g dl a ≡ true
    → ((c : ℕ) → c < classes → has a (objs c) ≡ false)
    → (G.given g' dl a ≡ true) × (w'.memory a ≡ w.memory a)

-- An object that the central cache has given and that is in no list of the thread: the program has it.
pub record IsHeld (C : Central) (classes : ℕ) (G : Ghosts C) (g : G.Ghost) (objs : ℕ → List ℕ)
    (cl ptr : ℕ) : Type 0 where
  pub given : G.given g cl ptr ≡ true
  pub listed : (dl : ℕ) → dl < classes → has ptr (objs dl) ≡ false

-- Nothing else is out of the lists: what was taken off them has gone back to the central cache.
abbrev pub NoMore :
    (C : Central) (classes : ℕ) (G : Ghosts C) → (g g' : G.Ghost) (objs objs' : ℕ → List ℕ) → Type 0
NoMore C classes G g g' objs objs' =
    (dl a : ℕ) → IsHeld C classes G g' objs' dl a → IsHeld C classes G g objs dl a

-- The bytes of the objects, as a 32-bit number.
abbrev pub Sized : (size_of : ℕ → ℕ) (classes : ℕ) (objs : ℕ → List ℕ) → Cache → Type 0
Sized size_of classes objs c = tally (λ cl. length (objs cl) * size_of cl) classes % 2 ^ 32 ≡ c.size
