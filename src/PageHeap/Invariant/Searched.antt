-- ===== src/PageHeap/Invariant/Searched.antt =====
-- AllocLarge and SearchFreeAndLargeLists of src/src/page_heap.cc, without a limit on the heap.
use conan_tcmalloc.Base.{
  false, not_ltb→le, ◌==◌, Bool-cases, ap, ℕ, zero, suc, ◌+◌, ◌-◌, ◌≤◌, ◌<◌, ◌≡◌, ◌≢◌, ◌⊎◌, refl,
  sym, subst, ◌∙◌, Bool, true, ◌&&◌, Option, none, some, List, [], ◌∷◌, ltb, if◌then◌else◌, arith,
  has, is_some, inl, inr, Option-cases, if_rule,
}
use conan_tcmalloc.PageHeap.State.{in_use, Span, PageHeap, System, pure, max_pages, Run}
use conan_tcmalloc.PageHeap.FreeLists.{upper_bound, is_normal, is_returned}
use conan_tcmalloc.PageHeap.Release.{head?, ensure_limit}
use conan_tcmalloc.PageHeap.Alloc.{
  best_fit, carve_option, same_pointer, alloc_large, search_lists, search_free_and_large_lists,
}
use conan_tcmalloc.PageHeap.Invariant.{IsValid, run_if, run_option, Returns, returns, bind}
use conan_tcmalloc.PageHeap.Invariant.Carved.{carve_rule}
use conan_tcmalloc.PageHeap.Invariant.Rounds.{has-head?}

-- A free span of at least `n` pages.
abbrev Fits : PageHeap → ℕ → ℕ → Type 0
Fits h n p = (s : Span) × (h.spans p ≡ some s) × (s.location ≢ in_use) × (n ≤ s.length)

-- No free span has `n` pages.
abbrev pub NoFit : PageHeap → ℕ → Type 0
NoFit h n = (p : ℕ) (s : Span) → h.spans p ≡ some s → s.location ≢ in_use → s.length < n

-- The result of an allocation: nothing, where no free span is long enough, and the heap is as before, or a
-- span in use of `n` pages.
abbrev pub Allocated : (h : PageHeap) (n : ℕ) → Option ℕ → PageHeap → Type 0
Allocated h n r h' =
    IsValid h'
    × ((r ≡ none) × (h' ≡ h) × NoFit h n
        ⊎ ((p : ℕ) × (s : Span) × (r ≡ some p)
            × (h'.spans p ≡ some s)
            × (s.location ≡ in_use)
            × (s.length ≡ n)))

Allocated-from :
    {h h' : PageHeap} {n : ℕ} {r : Run (Option ℕ)}
    → h' ≡ h
    → Returns (Allocated h' n) r
    → Returns (Allocated h n) r
Allocated-from {n = n} {r = r} same p = subst (λ g. Returns (Allocated g n) r) same p

-- The step of upper_bound at a span.
picked :
    (n x : ℕ) (t : Span) (later : Option ℕ)
    → let r =
        (if ltb n t.length
          then some x
          else (if ltb t.length n then later else (if ltb 0 t.start then some x else later))) in
      (r ≡ later) ⊎ ((r ≡ some x) × (n ≤ t.length))
picked n x t later = ground arith

picked-none :
    (n x : ℕ) (t : Span) (later : Option ℕ)
    → (if ltb n t.length
        then some x
        else (if ltb t.length n then later else (if ltb 0 t.start then some x else later)))
      ≡ none
    → later ≡ none
picked-none n x t later h = ground arith

-- The candidate is on the list and long enough.
abbrev Candidate : (ℕ → Option Span) → (n q : ℕ) → List ℕ → Type 0
Candidate spans n q xs = (has q xs ≡ true) × ((s : Span) × (spans q ≡ some s) × (n ≤ s.length))

later_Candidate :
    (spans : ℕ → Option Span) (n q x : ℕ) (xs : List ℕ)
    → Candidate spans n q xs
    → Candidate spans n q (x ∷ xs)
later_Candidate spans n q x xs (on, fits) = (ground arith, fits)

upper_bound-Candidate :
    (spans : ℕ → Option Span) (n q : ℕ) (xs : List ℕ)
    → upper_bound spans n xs ≡ some q
    → Candidate spans n q xs
unfolding upper_bound
upper_bound-Candidate spans n q [] h = cc
upper_bound-Candidate spans n q (x ∷ xs) h = elim (Option-cases (spans x)) [
  | inl e ↦
      later_Candidate spans n q x xs (upper_bound-Candidate spans n q xs (rw (e, upper_bound) at h))
  | inr (t, e) ↦ elim (picked n x t (upper_bound spans n xs)) [
    | inl later ↦
        let there = sym later ∙ rw (e, upper_bound) at h in
        later_Candidate spans n q x xs (upper_bound-Candidate spans n q xs there)
    | inr (here, le) ↦
        let same : x ≡ q = cc (here, (rw (e, upper_bound) at h)) in
        (ground arith, (t, ground arith, le))
  ]
]

-- Where it finds none, none is long enough.
upper_bound-none :
    (spans : ℕ → Option Span) (n : ℕ) (xs : List ℕ)
    → upper_bound spans n xs ≡ none
    → (p : ℕ) (s : Span) → has p xs ≡ true
    → spans p ≡ some s
    → 0 < s.start
    → s.length < n
unfolding upper_bound
upper_bound-none spans n [] h p s on e pos = cc
upper_bound-none spans n (x ∷ xs) h p s on e pos = elim (Bool-cases (p == x)) [
  | inl at ↦
      let here : x ≡ p = ground arith in
      let there : spans x ≡ some s = subst (λ q. spans q ≡ some s) (sym here) e in
      let none_picked = rw (there, upper_bound) at h in ground arith
  | inr other ↦
      let on' : has p xs ≡ true = ground arith in
      elim (Option-cases (spans x)) [
        | inl gone ↦ upper_bound-none spans n xs (rw (gone, upper_bound) at h) p s on' e pos
        | inr (t, is) ↦
            let skipped = rw (is, upper_bound) at h in
            upper_bound-none spans n xs (picked-none n x t (upper_bound spans n xs) skipped) p s on'
              e pos
      ]
]

best_fit-none :
    (spans : ℕ → Option Span) (b c : Option ℕ) → best_fit spans b c ≡ none → (b ≡ none) × (c ≡ none)
unfolding best_fit
best_fit-none spans none none e = (refl, refl)
best_fit-none spans (some b) none e = cc
best_fit-none spans none (some c) e = cc
best_fit-none spans (some b) (some c) e = elim (Option-cases (spans b)) [
  | inl x ↦ absurd (cc (rw (x, best_fit) at e))
  | inr (s, x) ↦ elim (Option-cases (spans c)) [ inl y ↦ ground arith | inr (t, y) ↦ ground arith ]
]

head?-none : (xs : List ℕ) (p : ℕ) → head? xs ≡ none → has p xs ≡ false
head?-none [] p e = refl
head?-none (x ∷ xs) p e = cc

-- The lists of spans of `j` pages are empty.
abbrev EmptyAt : PageHeap → ℕ → Type 0
EmptyAt h j = (head? (h.normal (j - 1)) ≡ none) × (head? (h.returned (j - 1)) ≡ none)

-- Where all lists from `n` on are empty and no large span is long enough, no free span is.
nowhere-NoFit :
    {h : PageHeap} (n : ℕ)
    → IsValid h
    → ((j : ℕ) → n ≤ j → j ≤ max_pages → EmptyAt h j)
    → upper_bound h.spans n h.large_normal ≡ none
    → upper_bound h.spans n h.large_returned ≡ none
    → NoFit h n
nowhere-NoFit {h} n v small normal returned p s e free = elim (Bool-cases (ltb s.length n)) [
  | inl short ↦ ground arith
  | inr long ↦
      let pos = (v.geometry.tiling.filled p s e).start_pos in
      let at_home = v.listed.listed p s e refl free in
      elim (Bool-cases (ltb max_pages s.length)) [
        | inl large ↦
            let there = rw large at at_home in
            elim (Bool-cases (is_returned s.location)) [
              | inl r ↦
                  let on = rw r at there in
                  upper_bound-none h.spans n h.large_returned returned p s on e pos
              | inr r ↦
                  let on = rw r at there in
                  upper_bound-none h.spans n h.large_normal normal p s on e pos
            ]
        | inr little ↦
            let there = rw little at at_home in
            let (a, b) = small s.length (not_ltb→le _ _ long) (not_ltb→le _ _ little) in
            elim (Bool-cases (is_normal s.location)) [
              | inl r ↦
                  let on = rw r at there in
                  absurd (cc (on, head?-none (h.normal (s.length - 1)) p a))
              | inr r ↦
                  let on = rw r at there in
                  absurd (cc (on, head?-none (h.returned (s.length - 1)) p b))
            ]
      ]
]

pub no_limit :
    (sys : System) (fuel n : ℕ) (b : Bool)
    → sys.heap_limit_mb ≡ 0
    → ensure_limit sys fuel n b ≡ pure true
unfolding ensure_limit
no_limit sys fuel n b e = rw e refl

no_limit_rule :
    (sys : System) (fuel n : ℕ) (b : Bool) (h : PageHeap)
    → sys.heap_limit_mb ≡ 0
    → Returns (λ room h'. (room ≡ true) × (h' ≡ h)) (ensure_limit sys fuel n b h)
no_limit_rule sys fuel n b h e = rw (no_limit sys fuel n b e) (returns (refl, refl))

module _ (sys : System) (n : ℕ) (pos : 0 < n) where
  carve_option_rule :
      {h : PageHeap} (o : Option ℕ)
      → IsValid h
      → ((p : ℕ) → o ≡ some p → Fits h n p)
      → (o ≡ none → NoFit h n)
      → Returns (Allocated h n) (carve_option o n h)
  carve_option_rule none v fits without = returns (v, inl (refl, refl, without refl))
  carve_option_rule (some p) v fits without =
      let (s, e, free, le) = fits p refl in
      bind (carve_rule v p n s e free pos le) λ q h' (same, is, w).
        returns
          (w, inr (q, record s { location = in_use; length = n }, refl, rw same is, refl, refl))

  best_fit-either :
      (spans : ℕ → Option Span) (b c : Option ℕ) (p : ℕ)
      → best_fit spans b c ≡ some p
      → (b ≡ some p) ⊎ (c ≡ some p)
  unfolding best_fit
  best_fit-either spans b none p e = inl e
  best_fit-either spans none (some c) p e = inr e
  best_fit-either spans (some b) (some c) p e = elim (Option-cases (spans b)) [
    | inl x ↦ inl (rw (x, best_fit) at e)
    | inr (s, x) ↦ elim (Option-cases (spans c)) [
      | inl y ↦ ground arith
      | inr (t, y) ↦ ground arith
    ]
  ]

  best_fit-Fits :
      {h : PageHeap}
      → IsValid h
      → (p : ℕ)
      → best_fit h.spans
          (upper_bound h.spans n h.large_normal)
          (upper_bound h.spans n h.large_returned)
        ≡ some p
      → Fits h n p
  unfolding best_fit
  best_fit-Fits {h} v p e = elim (best_fit-either h.spans _ _ p e) [
    | inl normal ↦
        let (on, (s, is, le)) = upper_bound-Candidate h.spans n p h.large_normal normal in
        let (t, et, held, loc, big) = v.listed.large_normal p on in (s, is, ground arith, le)
    | inr returned ↦
        let (on, (s, is, le)) = upper_bound-Candidate h.spans n p h.large_returned returned in
        let (t, et, held, loc, big) = v.listed.large_returned p on in (s, is, ground arith, le)
  ]

  -- AllocLarge
  pub alloc_large_rule :
      (fuel : ℕ) {h : PageHeap}
      → IsValid h
      → sys.heap_limit_mb ≡ 0
      → 0 < fuel
      → ((j : ℕ) → n ≤ j → j ≤ max_pages → EmptyAt h j)
      → Returns (Allocated h n) (alloc_large sys fuel n h)
  unfolding alloc_large
  alloc_large_rule zero v unlimited more small = absurd (omega arith)
  alloc_large_rule (suc fuel) {h} v unlimited more small =
      let best_normal = upper_bound h.spans n h.large_normal in
      let best = best_fit h.spans best_normal (upper_bound h.spans n h.large_returned) in
      let without : best ≡ none → NoFit h n =
        λ e. let (a, b) = best_fit-none h.spans best_normal _ e in nowhere-NoFit n v small a b in
      run_if (same_pointer best best_normal) _ _ h
        (λ e. carve_option_rule best v (best_fit-Fits v) without)
        (λ e.
          rw (no_limit sys fuel n false unlimited)
            (carve_option_rule best v (best_fit-Fits v) without))

  front-Fits :
      {h : PageHeap} (s p : ℕ)
      → IsValid h
      → 0 < s
      → n ≤ s
      → (head? (h.normal (s - 1)) ≡ some p) ⊎ (head? (h.returned (s - 1)) ≡ some p)
      → Fits h n p
  front-Fits {h} s p v p0 le (inl e) =
      let (t, is, held, loc, (len, small)) = v.listed.normal (s - 1) p (has-head? _ p e) in
      (t, is, cc, omega arith)
  front-Fits {h} s p v p0 le (inr e) =
      let (t, is, held, loc, (len, small)) = v.listed.returned (s - 1) p (has-head? _ p e) in
      (t, is, cc, omega arith)

  search_lists_rule :
      (fuel rounds s : ℕ) {h : PageHeap}
      → IsValid h
      → sys.heap_limit_mb ≡ 0
      → 0 < fuel
      → n ≤ s
      → max_pages < s + rounds
      → ((j : ℕ) → n ≤ j → j < s → EmptyAt h j)
      → Returns (Allocated h n) (search_lists sys fuel rounds n s h)
  unfolding search_lists
  search_lists_rule fuel zero s v unlimited more le last before =
      alloc_large_rule fuel v unlimited more (λ j lo hi. before j lo (omega arith))
  search_lists_rule fuel (suc rounds) s {h} v unlimited more le last before =
      run_option (head? (h.normal (s - 1))) _ _ h
        (λ e.
          run_option (head? (h.returned (s - 1))) _ _ h
            (λ e'.
              search_lists_rule fuel rounds (s + 1) v unlimited more (omega arith) (omega arith)
                (λ j lo hi. elim (Bool-cases (j == s)) [
                  | inl at ↦ let here : s ≡ j = ground arith in subst (EmptyAt h) here (e, e')
                  | inr other ↦ before j lo (ground arith)
                ]))
            (λ q e'. bind (no_limit_rule sys fuel n true h unlimited) λ room h' (can, same).
              let w = subst IsValid (sym same) v in
              Allocated-from same (
                if_rule (Returns (Allocated h' n)) (room && is_some (head? (h'.returned (s - 1))))
                  (λ there.
                    carve_option_rule (head? (h'.returned (s - 1))) w
                      (λ p found. front-Fits s p w (omega arith) le (inr found))
                      (λ missing. absurd (ground (arith, missing, there))))
                  (λ gone.
                    let still : head? (h'.returned (s - 1)) ≡ some q =
                      ap (λ g. head? (g.returned (s - 1))) same ∙ e' in
                    absurd (cc (rw (can, still) at gone))))))
        (λ p e.
          carve_option_rule (some p) v
            (λ q same. front-Fits s q v (omega arith) le (inl (e ∙ same))) (λ missing. cc))

  -- In a heap that keeps the invariant and has no limit SearchFreeAndLargeLists returns without a
  -- fault and keeps the invariant; either no free span has the pages asked for, it gives nothing
  -- and the heap is as before, or it gives a span in use of exactly the pages asked for, which are
  -- not 0.
  pub search_rule :
      (fuel : ℕ) {h : PageHeap}
      → IsValid h
      → sys.heap_limit_mb ≡ 0
      → 0 < fuel
      → Returns (Allocated h n) (search_free_and_large_lists sys fuel n h)
  unfolding search_free_and_large_lists
  search_rule fuel v unlimited more =
      search_lists_rule fuel (max_pages + 1 - n) n v unlimited more (omega arith) (omega arith)
        (λ j lo hi. absurd (omega arith))
