-- ===== src/CentralFreeList/Invariant.antt =====
-- The invariant of the central lists (src/src/central_freelist.h): where each object is, and what the page
-- heap is relied on for.
use conan_tcmalloc.Base.{
  ℕ, ◌+◌, ◌*◌, ◌/◌, ◌^◌, ◌≤◌, ◌<◌, ◌≡◌, ◌≢◌, Bool, true, false, ◌&&◌, ◌||◌, List, ◌==◌, has, length,
}
use conan_tcmalloc.LinkedList.Segments.{Holds}
use conan_tcmalloc.LinkedList.Ranges.{IsLast}
use conan_tcmalloc.PageHeap.State.{page_shift}
use conan_tcmalloc.CentralFreeList.{Pages, Store}
use conan_tcmalloc.CentralFreeList.Objects.{grid}

-- An object is on the list of its span, in a slot of a transfer cache, or given to a thread.
pub data Place : Type 0 where
  elsewhere : Place
  in_span : ℕ → Place
  in_slot : (cl i : ℕ) → Place
  given : ℕ → Place

abbrev pub is_span : ℕ → Place → Bool
is_span p elsewhere = false
is_span p (in_span q) = q == p
is_span p (in_slot cl i) = false
is_span p (given cl) = false

abbrev pub is_slot : (cl i : ℕ) → Place → Bool
is_slot cl i elsewhere = false
is_slot cl i (in_span q) = false
is_slot cl i (in_slot dl j) = (dl == cl) && (j == i)
is_slot cl i (given dl) = false

abbrev pub is_given : ℕ → Place → Bool
is_given cl elsewhere = false
is_given cl (in_span q) = false
is_given cl (in_slot dl j) = false
is_given cl (given dl) = dl == cl

-- Of this class, and not on the list of a span.
abbrev pub is_loose : ℕ → Place → Bool
is_loose cl elsewhere = false
is_loose cl (in_span q) = false
is_loose cl (in_slot dl j) = dl == cl
is_loose cl (given dl) = dl == cl

abbrev pub Places : Type 0
Places = ℕ → Place

-- The span is in use after the call as it was before.
pub record Same (P : Pages) (live : P.State → ℕ → Bool) (p : ℕ) (h h' : P.State) : Type 0 where
  pub live_still : live h' p ≡ true
  pub start : P.span_start p h' ≡ P.span_start p h
  pub length : P.span_length p h' ≡ P.span_length p h
  pub sizeclass : P.span_sizeclass p h' ≡ P.span_sizeclass p h

-- What a new span is.
pub record IsNew (P : Pages) (live : P.State → ℕ → Bool) (n cl p : ℕ) (h h' : P.State)
    : Type 0 where
  pub before : live h p ≡ false
  pub after : live h' p ≡ true
  pub length : P.span_length p h' ≡ n
  pub sizeclass : P.span_sizeclass p h' ≡ cl

-- The page heap has spans in use that it finds from each of their pages; it gives new ones of the
-- length and class asked for, and leaves the others as they are.
pub record IsPageHeap (P : Pages) : Type 0 where
  pub live : P.State → ℕ → Bool
  pub described :
      (h : P.State) (p k : ℕ)
      → live h p ≡ true
      → P.span_start p h ≤ k
      → k < P.span_start p h + P.span_length p h
      → P.get_descriptor k h ≡ p
  pub not_null : (h : P.State) (p : ℕ) → live h p ≡ true → p ≢ 0
  pub start_pos : (h : P.State) (p : ℕ) → live h p ≡ true → 0 < P.span_start p h
  pub small :
      (h : P.State) (p : ℕ) → live h p ≡ true → P.span_start p h + P.span_length p h < 2 ^ 50
  pub new_some :
      (h : P.State) (n cl : ℕ)
      → (P.new_with_size_class n cl h).0 ≢ 0
      → IsNew P live n cl (P.new_with_size_class n cl h).0 h (P.new_with_size_class n cl h).1
  pub new_keeps :
      (h : P.State) (n cl q : ℕ)
      → live h q ≡ true
      → Same P live q h (P.new_with_size_class n cl h).1
  pub delete_keeps :
      (h : P.State) (p q : ℕ)
      → live h p ≡ true
      → live h q ≡ true
      → q ≢ p
      → Same P live q h (P.delete p h)
  pub cached_keeps :
      (h : P.State) (page cl q : ℕ)
      → live h q ≡ true
      → Same P live q h (P.set_cached_size_class page cl h)

module _ (P : Pages) (law : IsPageHeap P) (size_of batch pages : ℕ → ℕ) where
  abbrev pub capacity : ℕ → ℕ
  capacity cl = pages cl * 2 ^ page_shift / size_of cl

  -- The objects of a span of the class.
  abbrev pub objects_of : (cl p : ℕ) → P.State → List ℕ
  objects_of cl p h = grid (capacity cl) (P.span_start p h * 2 ^ page_shift) (size_of cl)

  abbrev pub linked : (cl p : ℕ) → Store P → Bool
  linked cl p s = has p (s.lists cl).nonempty || has p (s.lists cl).empty

  -- A span of the class: its list has the objects that are there, and the others are counted.
  pub record IsSpan (at : Places) (s : Store P) (cl p : ℕ) : Type 0 where
    pub live : law.live s.heap p ≡ true
    pub length_is : P.span_length p s.heap ≡ pages cl
    pub sizeclass : P.span_sizeclass p s.heap ≡ cl
    pub size_pos : 0 < size_of cl
    pub fits : capacity cl < 2 ^ 16
    pub free : List ℕ
    pub holds : Holds s.memory (s.objects p) free
    pub places : (a : ℕ) → has a free ≡ is_span p (at a)
    pub inside : (a : ℕ) → has a free ≡ true → has a (objects_of cl p s.heap) ≡ true
    pub count : s.refcount p + length free ≡ capacity cl

  -- A slot in use: a chain of a batch of objects.
  pub record IsSlot (at : Places) (s : Store P) (cl i : ℕ) : Type 0 where
    pub objects : List ℕ
    pub holds : Holds s.memory (((s.lists cl).tc_slots i).head) objects
    pub last : IsLast (((s.lists cl).tc_slots i).tail) objects
    pub count : batch cl ≡ length objects
    pub places : (a : ℕ) → has a objects ≡ is_slot cl i (at a)

  -- An object that is not on the list of a span comes from a span of its class.
  abbrev pub Origin : Store P → (cl a : ℕ) → Type 0
  Origin s cl a = (p : ℕ) × (linked cl p s ≡ true) × (has a (objects_of cl p s.heap) ≡ true)

  pub record IsValid (classes : ℕ) (at : Places) (s : Store P) : Type 0 where
    pub span : (cl p : ℕ) → cl < classes → linked cl p s ≡ true → IsSpan at s cl p
    pub some_free : (cl p : ℕ) → cl < classes → has p (s.lists cl).nonempty ≡ true → s.objects p ≢ 0
    pub none_free : (cl p : ℕ) → cl < classes → has p (s.lists cl).empty ≡ true → s.objects p ≡ 0
    pub slot : (cl i : ℕ) → cl < classes → i < (s.lists cl).used_slots → IsSlot at s cl i
    pub used : (cl i a : ℕ) → is_slot cl i (at a) ≡ true → i < (s.lists cl).used_slots
    pub room : (cl : ℕ) → cl < classes → (s.lists cl).used_slots ≤ (s.lists cl).cache_size
    pub most : (cl : ℕ) → cl < classes → (s.lists cl).cache_size ≤ (s.lists cl).max_cache_size
    pub origin : (cl a : ℕ) → cl < classes → is_loose cl (at a) ≡ true → Origin s cl a
    pub bounded : (cl a : ℕ) → is_loose cl (at a) ≡ true → cl < classes
    pub home :
        (p a : ℕ) → is_span p (at a) ≡ true → (cl : ℕ) × (cl < classes) × (linked cl p s ≡ true)
