-- ===== src/PageHeap/Listed/Moves.antt =====
-- What puts a span on its list, takes it off, or changes one that is on none, keeps the lists right.
use conan_tcmalloc.Base.{
  ℕ, ◌-◌, ◌<◌, ◌≡◌, ◌≢◌, Bool, true, false, Option, none, some, ◌==◌, arith, has, Bool-cases, inl,
  inr,
}
use conan_tcmalloc.PageMap.{update}
use conan_tcmalloc.PageHeap.State.{in_use, Span, FreeLists}
use conan_tcmalloc.PageHeap.FreeLists.{put_in, take_out}
use conan_tcmalloc.PageHeap.Listed.{Listed, has-remove, has-insert_set}

module _ {held : ℕ → Bool} {spans : ℕ → Option Span} {l : FreeLists} (v : Listed held spans l) where
  -- A span that is held, in use or not there is on no list.
  abbrev pub Off : ℕ → Type 0
  Off p =
      ((i : ℕ) → has p (l.normal i) ≡ false)
      × ((i : ℕ) → has p (l.returned i) ≡ false)
      × (has p l.large_normal ≡ false)
      × (has p l.large_returned ≡ false)

  pub Off-held : (p : ℕ) → held p ≡ true → Off p
  Off-held p h = (
    λ i. ground (arith, v.normal i p),
    λ i. ground (arith, v.returned i p),
    ground (arith, v.large_normal p),
    ground (arith, v.large_returned p),
  )

  pub Off-none : (p : ℕ) → spans p ≡ none → Off p
  Off-none p h = (
    λ i. ground (arith, v.normal i p),
    λ i. ground (arith, v.returned i p),
    ground (arith, v.large_normal p),
    ground (arith, v.large_returned p),
  )

  pub Off-in_use : (p : ℕ) (s : Span) → spans p ≡ some s → s.location ≡ in_use → Off p
  Off-in_use p s e h = (
    λ i. ground (arith, v.normal i p),
    λ i. ground (arith, v.returned i p),
    ground (arith, v.large_normal p),
    ground (arith, v.large_returned p),
  )

  -- A span that is on no list may change, be deleted or be made, and be held or not: if it is free
  -- afterwards, it is held.
  pub Listed-change :
      (p : ℕ) (o : Option Span) (b : Bool)
      → Off p
      → ((s : Span) → o ≡ some s → s.location ≢ in_use → b ≡ true)
      → Listed (update held p b) (update spans p o) l
  Listed-change p o b off free = record {
    listed = λ q s e h n. ground (arith, v.listed q s, free s);
    normal = λ i q h. ground (arith, v.normal i q h, off.0 i);
    returned = λ i q h. ground (arith, v.returned i q h, off.1 i);
    large_normal = λ q h. ground (arith, v.large_normal q h, off.2);
    large_returned = λ q h. ground (arith, v.large_returned q h, off.3);
  }

  pub Listed-take_out :
      (p : ℕ) (s : Span)
      → spans p ≡ some s
      → held p ≡ false
      → s.location ≢ in_use
      → Listed (update held p true) spans (take_out p s l)
  unfolding take_out
  Listed-take_out p s e h n = record {
    listed = λ q u e' h' n'. ground (
      arith,
      v.listed q u e',
      has-remove p q l.large_normal,
      has-remove p q l.large_returned,
      has-remove p q (l.normal (s.length - 1)),
      has-remove p q (l.returned (s.length - 1)),
    );
    normal = λ i q h'. ground (arith, v.normal i q, has-remove p q (l.normal (s.length - 1)));
    returned = λ i q h'. ground (arith, v.returned i q, has-remove p q (l.returned (s.length - 1)));
    large_normal = λ q h'. ground (arith, v.large_normal q, has-remove p q l.large_normal);
    large_returned = λ q h'. ground (arith, v.large_returned q, has-remove p q l.large_returned);
  }

  pub Listed-put_in :
      (p : ℕ) (s : Span)
      → spans p ≡ some s
      → held p ≡ true
      → s.location ≢ in_use
      → 0 < s.length
      → Listed (update held p false) spans (put_in spans p s l)
  unfolding put_in
  Listed-put_in p s e h n pos =
      let off = Off-held p h in
      record {
        listed = λ q u e' h' n'. ground (
          arith,
          v.listed q u e',
          has-insert_set spans p q s l.large_normal,
          has-insert_set spans p q s l.large_returned,
        );
        normal = λ i q h'. elim (Bool-cases (q == p)) [
          | inl at ↦
              (s, ground arith, ground arith, ground (arith, off.0 i), ground (arith, off.0 i))
          | inr other ↦ ground (arith, v.normal i q)
        ];
        returned = λ i q h'. elim (Bool-cases (q == p)) [
          | inl at ↦
              (s, ground arith, ground arith, ground (arith, off.1 i), ground (arith, off.1 i))
          | inr other ↦ ground (arith, v.returned i q)
        ];
        large_normal = λ q h'. elim (Bool-cases (q == p)) [
          | inl at ↦ (s, ground arith, ground arith, ground (arith, off.2), ground (arith, off.2))
          | inr other ↦ ground (arith, v.large_normal q, has-insert_set spans p q s l.large_normal)
        ];
        large_returned = λ q h'. elim (Bool-cases (q == p)) [
          | inl at ↦ (s, ground arith, ground arith, ground (arith, off.3), ground (arith, off.3))
          | inr other ↦
              ground (arith, v.large_returned q, has-insert_set spans p q s l.large_returned)
        ];
      }
