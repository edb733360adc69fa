-- ===== src/CentralFreeList/Examples.antt =====
-- The theorems on the central lists over a page heap that gives single pages: an object of class 1 takes half of
-- one.
use conan_tcmalloc.Base.{
  ℕ, ◌+◌, ◌≡◌, ◌≢◌, inl, inr, refl, sym, subst, Bool, true, false, ◌&&◌, ◌||◌, some, [], ◌∷◌, ltb,
  leb, ◌==◌, arith, has, if◌then◌else◌, Bool-cases, ◌≤◌, ◌⊎◌, suc,
}
use conan_tcmalloc.LinkedList.{Memory}
use conan_tcmalloc.CentralFreeList.{objects_field, cut_objects, walk, Pages, Store, init}
use conan_tcmalloc.CentralFreeList.Objects.{WasCut, cut_objects-WasCut, walk-Walked, grid}
use conan_tcmalloc.LinkedList.Ranges.{Cut}
use conan_tcmalloc.CentralFreeList.Invariant.{
  elsewhere, in_span, given, Places, is_loose, is_span, is_slot, Same, IsNew, IsPageHeap, IsSpan,
  IsValid,
}
use conan_tcmalloc.CentralFreeList.Populated.{IsSized}

-- The state is the number of pages that were given, page 1 first; nothing is used twice.
abbrev pub single_pages : Pages
single_pages = record {
  State = ℕ;
  get_descriptor = λ k h. k;
  span_start = λ p h. p;
  span_length = λ p h. 1;
  span_sizeclass = λ p h. 1;
  new_with_size_class =
      λ n cl h. if (n == 1) && ((cl == 1) && ltb h 1000) then (h + 1, h + 1) else (0, h);
  delete = λ p h. h;
  set_cached_size_class = λ page cl h. h;
}

abbrev is_live : ℕ → ℕ → Bool
is_live h p = ltb 0 p && (leb p h && leb p 1000)

stays : (h p : ℕ) → is_live h p ≡ true → Same single_pages is_live p h h
stays h p live = record { live_still = live; start = refl; length = refl; sizeclass = refl }

gives :
    (h n cl : ℕ)
    → (single_pages.new_with_size_class n cl h).0 ≢ 0
    → IsNew single_pages is_live n cl
        (single_pages.new_with_size_class n cl h).0
        h
        (single_pages.new_with_size_class n cl h).1
gives h n cl ne = elim (Bool-cases ((n == 1) && ((cl == 1) && ltb h 1000))) [
  | inr refused ↦ absurd (rw refused at ne refl)
  | inl can ↦ rw can (record {
    before = ground arith;
    after = ground arith;
    length = ground arith;
    sizeclass = ground arith;
  })
]

gives_others :
    (h n cl q : ℕ)
    → is_live h q ≡ true
    → Same single_pages is_live q h (single_pages.new_with_size_class n cl h).1
gives_others h n cl q live = elim (Bool-cases ((n == 1) && ((cl == 1) && ltb h 1000))) [
  | inr refused ↦ rw refused (stays h q live)
  | inl can ↦
      rw can (record { live_still = ground arith; start = refl; length = refl; sizeclass = refl })
]

pub single_pages-IsPageHeap : IsPageHeap single_pages
single_pages-IsPageHeap = record {
  live = is_live;
  described = λ h p k live a b. omega arith;
  not_null = λ h p live e. ground arith;
  start_pos = λ h p live. ground arith;
  small = λ h p live. ground arith;
  new_some = gives;
  new_keeps = gives_others;
  delete_keeps = λ h p q on live ne. stays h q live;
  cached_keeps = λ h page cl q live. stays h q live;
}

abbrev pub half_page : ℕ → ℕ
half_page cl = 4096

abbrev pub two : ℕ → ℕ
two cl = 2

abbrev pub one_page : ℕ → ℕ
one_page cl = 1

abbrev pub no_objects : Store single_pages
no_objects = record {
  lists = λ cl. record {
    size_class = cl;
    empty = [];
    nonempty = [];
    num_spans = 0;
    counter = 0;
    tc_slots = λ i. record { head = 0; tail = 0 };
    used_slots = 0;
    cache_size = 16;
    max_cache_size = 64;
  };
  objects = λ p. 0;
  refcount = λ p. 0;
  race_counter = 0;
  heap = 0;
  memory = λ a. 0;
}

init_1 : init 4096 2 1 ≡ no_objects.lists 1
unfolding init
init_1 = refl

abbrev pub nowhere : Places
nowhere a = elsewhere

pub no_objects-IsValid :
    IsValid single_pages single_pages-IsPageHeap half_page two one_page 2 nowhere no_objects
no_objects-IsValid = record {
  span = λ cl p lt on. cc;
  some_free = λ cl p lt on. cc;
  none_free = λ cl p lt on. cc;
  slot = λ cl i lt in_use. absurd (omega arith);
  used = λ cl i a on. cc;
  room = λ cl lt. omega arith;
  most = λ cl lt. omega arith;
  origin = λ cl a lt on. cc;
  bounded = λ cl a on. cc;
  home = λ p a on. cc;
}

halves-IsSized : IsSized single_pages single_pages-IsPageHeap half_page two one_page 2 1
halves-IsSized = record { size_pos = omega arith; some_object = omega arith; fits = omega arith }

-- Of the page 1 a thread has the first half.
abbrev pub one_given : Store single_pages
one_given = record no_objects {
  lists = λ cl.
      if cl == 1
      then record (no_objects.lists 1) { nonempty = 1 ∷ []; num_spans = 1; counter = 1 }
      else no_objects.lists cl;
  objects = λ p. 12288;
  refcount = λ p. 1;
  heap = 1;
}

abbrev pub halves : Places
halves a = if a == 8192 then given 1 else (if a == 12288 then in_span 1 else elsewhere)

halves_grid : (a : ℕ) → has a (grid 2 8192 4096) ≡ ((a == 8192) || (a == 12288))
unfolding grid
halves_grid a = ground arith

abbrev Holding : Type 0
Holding = IsSpan single_pages single_pages-IsPageHeap half_page two one_page halves one_given 1 1

one_given_span : Holding
unfolding grid single_pages-IsPageHeap
one_given_span = record {
  live = refl;
  length_is = refl;
  sizeclass = refl;
  size_pos = omega arith;
  fits = omega arith;
  free = 12288 ∷ [];
  holds = record { chain = (refl, (λ e. ground arith), refl); distinct = (refl, tt) };
  places = λ a. ground arith;
  inside = λ a h. ground arith;
  count = refl;
}

only_one : (cl p : ℕ) → has p (one_given.lists cl).nonempty ≡ true → (cl ≡ 1) × (p ≡ 1)
only_one cl p h = ground arith

none_empty : (cl p : ℕ) → has p (one_given.lists cl).empty ≡ false
none_empty cl p = ground arith

loose_half : (cl a : ℕ) → is_loose cl (halves a) ≡ true → (cl ≡ 1) × (a ≡ 8192)
loose_half cl a h = ground arith

span_half : (p a : ℕ) → is_span p (halves a) ≡ true → p ≡ 1
span_half p a h = ground arith

no_slot : (cl i a : ℕ) → is_slot cl i (halves a) ≡ false
no_slot cl i a = ground arith

pub one_given-IsValid :
    IsValid single_pages single_pages-IsPageHeap half_page two one_page 2 halves one_given
unfolding grid
one_given-IsValid = record {
  span = λ cl p lt on.
      let (a, b) = only_one cl p (ground (arith, on, none_empty cl p)) in
      subst
        (λ q.
          IsSpan single_pages single_pages-IsPageHeap half_page two one_page halves one_given cl q)
        (sym b)
        (subst
          (λ k.
            IsSpan single_pages single_pages-IsPageHeap half_page two one_page halves one_given k 1)
          (sym a) one_given_span);
  some_free = λ cl p lt on e. ground arith;
  none_free = λ cl p lt on. absurd (cc (none_empty cl p, on));
  slot = λ cl i lt in_use. absurd (ground arith);
  used = λ cl i a on. absurd (cc (no_slot cl i a, on));
  room = λ cl lt. ground arith;
  most = λ cl lt. ground arith;
  origin = λ cl a lt on. let (b, c) = loose_half cl a on in (1, ground arith, ground arith);
  bounded = λ cl a on. let (b, c) = loose_half cl a on in omega arith;
  home = λ p a on. let b = span_half p a on in (1, omega arith, ground arith);
}

-- Two objects of 8 bytes at 64 and 72.
cut_objects-WasCut_example :
    (f : ℕ × Memory) × (cut_objects 3 objects_field 64 80 8 0 (0, λ a. 0) ≡ some (2, f))
    × WasCut 2 64 8 objects_field (0, λ a. 0) f
cut_objects-WasCut_example =
    cut_objects-WasCut 3 2 64 80 8 0 objects_field (0, λ a. 0) (omega arith) (omega arith)
      (omega arith) (omega arith) (omega arith) (omega arith) tt

abbrev pair : Memory
pair a = if a == 64 then 72 else 0

walk-Walked_example :
    (k : ℕ) × (t : ℕ) × (k ≤ 1)
    × (k ≤ 5)
    × Cut pair 64 k (64 ∷ 72 ∷ []) t
    × (walk 5 0 64 pair ≡ some (suc k, t, pair t))
    × ((k ≡ 1) ⊎ (k ≡ 5))
walk-Walked_example =
    walk-Walked 5 64 64 (72 ∷ []) pair
      (refl, (λ e. ground arith), (refl, (λ e. ground arith), refl)) (refl, (refl, tt))
