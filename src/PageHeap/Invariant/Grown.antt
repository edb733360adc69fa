-- ===== src/PageHeap/Invariant/Grown.antt =====
-- GrowHeap of src/src/page_heap.cc: memory from the system becomes a free span.
use conan_tcmalloc.Base.{
  ◌⊎◌, inl, inr, ltb→lt, ℕ, ◌+◌, ◌/◌, ◌^◌, ◌≤◌, ◌<◌, ◌≡◌, ◌∙◌, ap, refl, sym, Bool, true, false,
  ◌&&◌, not, Option, none, some, ltb, if◌then◌else◌, arith, is_some,
}
use conan_tcmalloc.PageHeap.State.{PageHeap, System, pure, page_shift, max_pages, bytes, M}
use conan_tcmalloc.PageHeap.Spans.{span}
use conan_tcmalloc.PageHeap.Alloc.{add_memory, max_valid_pages, ask_system, grow_heap}
use conan_tcmalloc.PageHeap.Invariant.{IsValid, run_if, Returns, returns, bind, mono}
use conan_tcmalloc.PageHeap.Invariant.Searched.{no_limit}
use conan_tcmalloc.PageHeap.Invariant.Kept.{FreeIn}
use conan_tcmalloc.PageHeap.Invariant.Added.{NewMemory, NoRoom, Added, add_memory_rule}

-- The heap after so many more calls of the system.
abbrev with_calls : PageHeap → ℕ → PageHeap
with_calls h c = record h { calls = c }

with_calls-IsValid : {h : PageHeap} (c : ℕ) → IsValid h → IsValid (with_calls h c)
with_calls-IsValid c v = record {
  geometry = v.geometry;
  listed = v.listed;
  balanced = v.balanced;
  counted = v.counted;
  owned = v.owned;
  limited = v.limited;
}

NewMemory-calls :
    {h : PageHeap} {p ask : ℕ} (c : ℕ) → NewMemory h p ask → NewMemory (with_calls h c) p ask
NewMemory-calls c m = record {
  start_pos = m.start_pos;
  length_pos = m.length_pos;
  fits = m.fits;
  room = m.room;
  unused = m.unused;
}

-- What TCMalloc_SystemAlloc gives in its next two calls is new memory.
abbrev pub GivesNew : System → PageHeap → Type 0
GivesNew sys h =
    (i size a n : ℕ)
    → h.calls ≤ i
    → i ≤ h.calls + 1
    → sys.alloc i size ≡ some (a, n)
    → NewMemory h (a / 2 ^ page_shift) (n / 2 ^ page_shift)

-- What a call of TCMalloc_SystemAlloc answered, the next or the one after it, that asked for at
-- least `n` pages.
abbrev pub Answer : System → PageHeap → ℕ → Option (ℕ × ℕ) → Type 0
Answer sys h n r =
    (i k : ℕ) × (h.calls ≤ i) × (i ≤ h.calls + 1) × (n ≤ k) × (r ≡ sys.alloc i (bytes k))

-- What the system gave is free, or the spans are as before: there were too many pages, or the
-- system gave nothing, or the page map has no room for what it gave.
abbrev pub Grows : System → PageHeap → ℕ → Bool → PageHeap → Type 0
Grows sys h n ok h' =
    IsValid h'
    × (((ok ≡ true)
          × ((a size : ℕ) × Answer sys h n (some (a, size))
              × FreeIn h' (span (a / 2 ^ page_shift) (size / 2 ^ page_shift))))
        ⊎ ((ok ≡ false)
            × (h'.spans ≡ h.spans)
            × ((max_valid_pages < n)
                ⊎ (Answer sys h n none
                    ⊎ ((a size : ℕ) × Answer sys h n (some (a, size))
                        × NoRoom sys h (a / 2 ^ page_shift) (size / 2 ^ page_shift))))))

module _ (sys : System) (fuel : ℕ) (enough : 1 < fuel) (unlimited : sys.heap_limit_mb ≡ 0) where
  ask_system_rule :
      (ask : ℕ) (h : PageHeap)
      → Returns
          (λ r h'. (h' ≡ with_calls h (h.calls + 1)) × (r ≡ sys.alloc h.calls (bytes ask)))
          (ask_system sys fuel ask h)
  unfolding ask_system
  ask_system_rule ask h = rw (no_limit sys fuel ask true unlimited) (returns (refl, refl))

  module _ {h : PageHeap} (v : IsValid h) (gives : GivesNew sys h) where
    -- What a call answered that was made with the heap unchanged but for the number of calls.
    abbrev Asked : ℕ → Option (ℕ × ℕ) → PageHeap → Type 0
    Asked n r h' = ((c : ℕ) × (h' ≡ with_calls h c)) × Answer sys h n r

    second_ask :
        (ask n : ℕ) (first : Option (ℕ × ℕ)) (h' : PageHeap)
        → n ≤ ask
        → h' ≡ with_calls h (h.calls + 1)
        → first ≡ sys.alloc h.calls (bytes ask)
        → Returns
            (Asked n)
            ((if not (is_some first) && ltb n ask then ask_system sys fuel n else pure first) h')
    second_ask ask n first h' le same from =
        run_if (not (is_some first) && ltb n ask) _ _ h'
          (λ e. mono (ask_system_rule n h') λ r g (is, answer). (
            (h.calls + 1 + 1, is ∙ ap (λ k. with_calls k (k.calls + 1)) same),
            (
              h.calls + 1,
              n,
              omega arith,
              omega arith,
              omega arith,
              answer ∙ ap (λ k. sys.alloc k.calls (bytes n)) same,
            ),
          ))
          (λ e. returns ((h.calls + 1, same), (h.calls, ask, omega arith, omega arith, le, from)))

    Added-Grows :
        (a size n c : ℕ) (ok : Bool) (h' : PageHeap)
        → Answer sys h n (some (a, size))
        → Added sys (with_calls h c) (a / 2 ^ page_shift) (size / 2 ^ page_shift) ok h'
        → Grows sys h n ok h'
    Added-Grows a size n c ok h' answer (w, inl (e, there)) = (w, inl (e, (a, size, answer, there)))
    Added-Grows a size n c ok h' answer (w, inr (e, same, full)) =
        (w, inr (e, same, inr (inr (a, size, answer, full))))

    got_memory :
        (n : ℕ) (got : Option (ℕ × ℕ)) (h' : PageHeap)
        → Asked n got h'
        → Returns (Grows sys h n) (
            (elim got as (λ _. M Bool) [
              | none ↦ pure false
              | some (a, size) ↦ add_memory sys fuel (a / 2 ^ page_shift) (size / 2 ^ page_shift)
            ])
              h')
    got_memory n none h' ((c, same), answer) =
        rw same (returns (with_calls-IsValid c v, inr (refl, refl, inr (inl answer))))
    got_memory n (some (a, size)) h' ((c, same), (i, k, ge, le, covers, from)) = rw same (
        mono
          (add_memory_rule (a / 2 ^ page_shift) (size / 2 ^ page_shift) (with_calls-IsValid c v)
            (NewMemory-calls c (gives i (bytes k) a size ge le (sym from))) sys fuel enough)
          λ ok h'' added. Added-Grows a size n c ok h'' (i, k, ge, le, covers, from) added)

    pub grow_heap_rule : (n : ℕ) → Returns (Grows sys h n) (grow_heap sys fuel n h)
    unfolding grow_heap
    grow_heap_rule n =
        run_if (ltb max_valid_pages n) _ _ h
          (λ e. returns (v, inr (refl, refl, inl (ltb→lt max_valid_pages n e))))
          (λ e.
            let ask = if ltb max_pages n then n else max_pages in
            let covers : n ≤ ask = ground arith in
            bind (ask_system_rule ask h) λ first h₁ (same, from).
              bind (second_ask ask n first h₁ covers same from)
                λ got h₂ asked. got_memory n got h₂ asked)
