-- ===== src/PageHeap/Invariant/New.antt =====
-- RoundUpSize, NewLocked and NewWithSizeClass of src/src/page_heap.cc, without a limit on the heap.
use conan_tcmalloc.Base.{
  Bool, true, ◌/◌, ◌^◌, if◌then◌else◌, ℕ, ◌-◌, ◌%◌, ◌<◌, ◌≡◌, ◌⊎◌, refl, false, Option, none, some,
  ltb, arith, word, is_some, inl, inr, Bool-cases, add64, mod_lt, not_ltb→le,
}
use conan_tcmalloc.PageHeap.State.{page_shift, pure, in_use, Span, PageHeap, System}
use conan_tcmalloc.PageHeap.Alloc.{
  max_valid_pages, search_free_and_large_lists, round_up_size, must_coalesce, grow_and_search,
  new_locked,
}
use conan_tcmalloc.PageHeap.Invariant.{IsValid, run_if, Returns, returns, bind, mono}
use conan_tcmalloc.PageHeap.Invariant.Searched.{NoFit, Allocated, search_rule}
use conan_tcmalloc.PageHeap.Invariant.Grown.{GivesNew, Answer, Grows, grow_heap_rule}
use conan_tcmalloc.PageHeap.Invariant.Added.{NoRoom}

-- RoundUpSize never rounds to 0.
pub round_up_size_pos : (size n : ℕ) → 0 < size → size < word → 0 < n → 0 < round_up_size size n
unfolding round_up_size
round_up_size_pos size n pos small more =
    let sum = add64 (add64 n size) (word - 1) in
    elim (Bool-cases (ltb (sum - sum % size) n)) [
      | inl over ↦ rw over (omega (arith, mod_lt (word - 1) size pos))
      | inr fits ↦ rw fits (omega (arith, not_ltb→le _ _ fits, more))
    ]

-- Why there are not so many pages: no free span has them, and there are more than the heap can ask
-- for, or the system gave nothing for at least as many, or gave memory that the page map has no
-- room for or that has fewer pages.
abbrev pub Unmet : System → PageHeap → ℕ → Type 0
Unmet sys h n =
    NoFit h n
    × ((max_valid_pages < n)
        ⊎ (Answer sys h n none
            ⊎ ((a size : ℕ) × Answer sys h n (some (a, size))
                × (NoRoom sys h (a / 2 ^ page_shift) (size / 2 ^ page_shift)
                    ⊎ (size / 2 ^ page_shift < n)))))

-- A span in use of exactly `n` pages, or nothing, with the reason.
abbrev pub Given : System → PageHeap → (n : ℕ) → Option ℕ → PageHeap → Type 0
Given sys h n r h' =
    IsValid h'
    × (((r ≡ none) × Unmet sys h n)
        ⊎ ((p : ℕ) × (s : Span) × (r ≡ some p)
            × (h'.spans p ≡ some s)
            × (s.location ≡ in_use)
            × (s.length ≡ n)))

found_some :
    (sys : System) (h : PageHeap) (n : ℕ) (r : Option ℕ) (h' : PageHeap)
    → is_some r ≡ true
    → Allocated h n r h'
    → Given sys h n r h'
found_some sys h n r h' e (v, inl (gone, same, no_fit)) = cc
found_some sys h n r h' e (v, inr there) = (v, inr there)

-- The search after the heap has grown.
searched :
    (sys : System) (h h₁ : PageHeap) (n : ℕ) (r : Option ℕ) (h' : PageHeap)
    → Grows sys h n true h₁
    → NoFit h n
    → Allocated h₁ n r h'
    → Given sys h n r h'
searched sys h h₁ n r h' grown before (v, inr there) = (v, inr there)
searched sys h h₁ n r h' (w, inr (e, kept, why)) before (v, inl (gone, same, after)) = cc
searched sys h h₁ n r h' (w, inl (e, (a, size, answer, (p, s, at, used, within)))) before
      (v, inl (gone, same, after)) =
    let short = after p s at used in
    (v, inl (gone, (before, inr (inr (a, size, answer, inr (omega (arith, short, within)))))))

not_grown :
    (sys : System) (h : PageHeap) (n : ℕ) (h' : PageHeap)
    → Grows sys h n false h'
    → NoFit h n
    → Given sys h n none h'
not_grown sys h n h' (w, inl (e, rest)) before = cc
not_grown sys h n h' (w, inr (e, same, inl many)) before = (w, inl (refl, (before, inl many)))
not_grown sys h n h' (w, inr (e, same, inr (inl refused))) before =
    (w, inl (refl, (before, inr (inl refused))))
not_grown sys h n h' (w, inr (e, same, inr (inr (a, size, answer, full)))) before =
    (w, inl (refl, (before, inr (inr (a, size, answer, inl full)))))

module _ (sys : System) (fuel : ℕ) (enough : 1 < fuel) (unlimited : sys.heap_limit_mb ≡ 0) where
  after_growth :
      (n : ℕ) (h : PageHeap) (grown : Bool) (h₁ : PageHeap)
      → 0 < n
      → NoFit h n
      → Grows sys h n grown h₁
      → Returns
          (Given sys h n)
          ((if grown then search_free_and_large_lists sys fuel n else pure none) h₁)
  after_growth n h true h₁ pos before (w, out) =
      mono (search_rule sys n pos fuel w unlimited (omega arith))
        λ r h' found. searched sys h h₁ n r h' (w, out) before found
  after_growth n h false h₁ pos before out = returns (not_grown sys h n h₁ out before)

  grow_and_search_rule :
      (n : ℕ) {h : PageHeap}
      → 0 < n
      → NoFit h n
      → IsValid h
      → GivesNew sys h
      → Returns (Given sys h n) (grow_and_search sys fuel n h)
  unfolding grow_and_search
  grow_and_search_rule n {h} pos before v gives =
      bind (grow_heap_rule sys fuel enough unlimited v gives n)
        λ grown h₁ out. after_growth n h grown h₁ pos before out

  missed :
      {h : PageHeap} {n : ℕ} (r : Option ℕ) (h' : PageHeap)
      → Allocated h n r h'
      → is_some r ≡ false
      → (h' ≡ h) × NoFit h n
  missed r h' (v, inl (e, same, no_fit)) gone = (same, no_fit)
  missed r h' (v, inr (p, s, e, is, used, len)) gone = cc

  module _ (n : ℕ) {h : PageHeap} (v : IsValid h) (pos : 0 < n)
      (size_pos : 0 < h.smallest_span_size) (size_lt : h.smallest_span_size < word)
      (gives : GivesNew sys h)
      (no_coalesce : must_coalesce (round_up_size h.smallest_span_size n) h ≡ false) where
    abbrev m : ℕ
    m = round_up_size h.smallest_span_size n

    m_pos : 0 < m
    m_pos = round_up_size_pos h.smallest_span_size n size_pos size_lt pos

    -- In a heap that keeps the invariant, NewLocked returns without a fault.
    pub new_locked_rule : Returns (Given sys h m) (new_locked sys fuel n h)
    unfolding new_locked
    new_locked_rule =
        bind (search_rule sys m m_pos fuel v unlimited (omega arith)) λ result h₁ found.
          run_if (is_some result) _ _ h₁ (λ e. returns (found_some sys h m result h₁ e found))
            (λ e.
              let (same, before) = missed result h₁ found e in
              bind
                (run_if {P = λ r g. (r ≡ none) × (g ≡ h)} (must_coalesce m h₁) _ _ h₁
                  (λ yes. absurd (cc (yes, no_coalesce, same))) (λ no. returns (refl, same)))
                λ again h₂ (nothing, same₂).
                  run_if (is_some again) _ _ h₂ (λ yes. cc)
                    (λ no. rw same₂ (grow_and_search_rule m m_pos before v gives)))
