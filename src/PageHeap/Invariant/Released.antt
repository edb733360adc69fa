-- ===== src/PageHeap/Invariant/Released.antt =====
-- ReleaseAtLeastNPages of src/src/page_heap.cc as a whole: its while loop ends.
use conan_tcmalloc.Base.{
  ℕ, zero, suc, ◌+◌, ◌-◌, ◌≤◌, ◌<◌, ◌≡◌, ◌≢◌, ◌⊎◌, refl, Bool, true, false, ◌&&◌, none, List, [],
  ◌∷◌, ltb, ◌==◌, if◌then◌else◌, arith, has, Bool-cases, Option-cases, inl, inr, subst, if_rule,
  not_ltb→le,
}
use conan_tcmalloc.PageHeap.State.{Span, PageHeap, FreeLists, System, pure, max_pages, bytes, ◌>>◌}
use conan_tcmalloc.PageHeap.FreeLists.{is_normal}
use conan_tcmalloc.PageHeap.Listed.{home}
use conan_tcmalloc.PageHeap.Tally.{tally, tally_pos, normal_pages}
use conan_tcmalloc.PageHeap.Release.{
  head?, last?, victim, release_round, release_loop, release_at_least_n_pages, next_release_index,
}
use conan_tcmalloc.PageHeap.Invariant.{IsValid, none_held, Answered, Returns, returns, bind, mono}
use conan_tcmalloc.PageHeap.Invariant.Kept.{KeepsFree}
use conan_tcmalloc.PageHeap.Invariant.Rounds.{
  Rounds, Released, release_victim, with_index-IsValid, release_round_rule,
}

head?-has : (xs : List ℕ) (p : ℕ) → has p xs ≡ true → head? xs ≢ none
head?-has [] p h e = cc
head?-has (x ∷ xs) p h e = cc

last?-has : (xs : List ℕ) (p : ℕ) → has p xs ≡ true → last? xs ≢ none
unfolding last?
last?-has [] p h e = cc
last?-has (x ∷ xs) p h e = ground (arith)

-- Some list has a span to release.
abbrev HasVictim : PageHeap → Type 0
HasVictim h = (j : ℕ) × (j ≤ max_pages) × (victim j h ≢ none)

home-normal :
    (s : Span) (l : FreeLists)
    → is_normal s.location ≡ true
    → home s l ≡ (if ltb max_pages s.length then l.large_normal else l.normal (s.length - 1))
home-normal s l n = ground arith

normal-HasVictim :
    {h : PageHeap} → IsValid h → (p : ℕ) → 0 < normal_pages none_held h.spans p → HasVictim h
unfolding victim
normal-HasVictim {h} v p pos = elim (Option-cases (h.spans p)) [
  | inl e ↦
      let nothing : normal_pages none_held h.spans p ≡ 0 = rw (e, normal_pages) refl in
      absurd (omega (arith, pos, nothing))
  | inr (s, e) ↦ elim (Bool-cases (is_normal s.location)) [
    | inr other ↦
        let nothing : normal_pages none_held h.spans p ≡ 0 = rw (e, other, normal_pages) refl in
        absurd (omega (arith, pos, nothing))
    | inl n ↦
        let at_home = rw (home-normal s h.lists n) at (v.listed.listed p s e refl (λ x. cc)) in
        elim (Bool-cases (ltb max_pages s.length)) [
          | inl large ↦ (max_pages, omega arith, head?-has h.large_normal p (rw large at at_home))
          | inr small ↦ (
            s.length - 1,
            omega (arith, not_ltb→le max_pages s.length small),
            let below : (s.length - 1 == max_pages) ≡ false =
                  ground (arith, not_ltb→le max_pages s.length small) in
                rw below (last?-has (h.normal (s.length - 1)) p (rw small at at_home)),
          )
        ]
  ]
]

-- Where bytes are free there is a span to release.
free-HasVictim : {h : PageHeap} → IsValid h → 0 < h.stats.free_bytes → HasVictim h
unfolding bytes
free-HasVictim {h} v pos =
    let n = tally (normal_pages none_held h.spans) h.next_span in
    let count = v.counted h.next_span (omega arith) in
    let some_pages : 0 < n = omega (arith, count, pos) in
    let (p, counts) = tally_pos (normal_pages none_held h.spans) h.next_span some_pages in
    normal-HasVictim v p counts

-- The index of the list that is next.
abbrev next_list : ℕ → ℕ
next_list i = if ltb max_pages i then 0 else i

-- The lists from `i` up to that of `j`, around the end.
abbrev distance : (i j : ℕ) → ℕ
distance i j = if ltb j i then j + 129 - i else j - i

distance-lt :
    (i j : ℕ)
    → i ≤ max_pages
    → j ≤ max_pages
    → i ≢ j
    → distance (next_list (i + 1)) j < distance i j
distance-lt i j a b n = ground arith

distance-near : (i j : ℕ) → i ≤ max_pages → j ≤ max_pages → distance i j < max_pages + 1
distance-near i j a b = ground arith

next_list-le : (i : ℕ) → next_list i ≤ max_pages
next_list-le i = ground arith

victim-index : (j i : ℕ) (h : PageHeap) → victim j (record h { release_index = i }) ≡ victim j h
unfolding victim
victim-index j i h = refl

module _ (sys : System) (num_pages : ℕ) where
  abbrev Progress : PageHeap → ℕ → Bool × ℕ → PageHeap → Type 0
  Progress h released r h' =
      Rounds sys h released r h' × ((released < r.1) ⊎ ((r.0 ≡ true) × Answered sys false))

  after_step :
      (h₀ : PageHeap) (rounds released len : ℕ) {h : PageHeap}
      → IsValid h
      → Released sys len
      → KeepsFree h₀ h
      → Returns (Progress h₀ released) (
          (if len == 0
              then pure (true, released)
              else next_release_index >> release_round sys rounds num_pages (released + len))
            h)
  after_step h₀ rounds released len {h} v out kept = elim out [
    | inl some_released ↦
        let more : (len == 0) ≡ false = ground arith in
        let w = with_index-IsValid (h.release_index + 1) v in
        rw more (
          mono (release_round_rule sys num_pages rounds (released + len) w)
            λ r h' (w, le, end, more_kept).
              ((w, omega arith, end, λ u k. more_kept u (kept u k)), inl (omega arith)))
    | inr (nothing, refused) ↦
        let stop : (len == 0) ≡ true = ground arith in
        rw stop (returns ((v, omega arith, inr refused, kept), inr (refl, refused)))
  ]

  -- The loop over all lists releases a page if there is one, unless a release fails.
  round_step :
      (rounds released j : ℕ) {h : PageHeap}
      → IsValid h
      → released < num_pages
      → j ≤ max_pages
      → victim j h ≢ none
      → distance (next_list h.release_index) j < rounds
      → Returns (Progress h released) (release_round sys rounds num_pages released h)
  unfolding release_round
  round_step zero released j v more le there d = absurd (omega arith)
  round_step (suc rounds) released j {h} v more le there d =
      let i = next_list h.release_index in
      let go : ltb released num_pages ≡ true = ground arith in
      elim (Option-cases (victim i h)) [
        | inl e ↦
            let other : i ≢ j = λ x. there (subst (λ k. victim k h ≡ none) x e) in
            let nearer = distance-lt i j (next_list-le h.release_index) le other in
            rw (go, e, release_round)
              (round_step rounds released j (with_index-IsValid (i + 1) v) more le
                (rw victim-index there) (omega (arith, d, nearer)))
        | inr (p, e) ↦
            rw (go, e, release_round)
              (bind (release_victim sys i p v e)
                λ len h' (w, out, kept). after_step h rounds released len w out kept)
      ]

  -- How ReleaseAtLeastNPages ends: enough pages are released, no byte is free, or a release failed.
  abbrev pub Ends : ℕ → PageHeap → Type 0
  Ends r h' = (num_pages ≤ r) ⊎ (h'.stats.free_bytes ≡ 0) ⊎ Answered sys false

  abbrev pub Ended : PageHeap → ℕ → PageHeap → Type 0
  Ended h r h' = IsValid h' × Ends r h' × KeepsFree h h'

  -- What follows the for loop in the while loop.
  after_rounds :
      (h₀ : PageHeap) (fuel released : ℕ) (r : Bool × ℕ) {h : PageHeap}
      → Progress h₀ released r h
      → (released < r.1 → Returns (Ended h) (release_loop sys fuel num_pages r.1 h))
      → Returns (Ended h₀) ((if r.0 then pure r.1 else release_loop sys fuel num_pages r.1) h)
  after_rounds h₀ fuel released (true, n) ((v, le, inl e, kept), progress) next = cc
  after_rounds h₀ fuel released (true, n) ((v, le, inr refused, kept), progress) next =
      returns (v, inr (inr refused), kept)
  after_rounds h₀ fuel released (false, n) ((v, le, end, kept), inl more) next =
      mono (next more) λ r h' (w, ends, more_kept). (w, ends, λ u k. more_kept u (kept u k))
  after_rounds h₀ fuel released (false, n) (w, inr (e, refused)) next = cc

  stopped :
      (released : ℕ) (h : PageHeap)
      → (ltb released num_pages && ltb 0 h.stats.free_bytes) ≡ false
      → Ends released h
  stopped released h e = elim (Bool-cases (ltb released num_pages)) [
    | inl more ↦ inr (inl (ground arith))
    | inr done ↦ inl (not_ltb→le _ _ done)
  ]

  release_loop_rule :
      (fuel released : ℕ) {h : PageHeap}
      → IsValid h
      → num_pages < fuel + released
      → 0 < fuel
      → Returns (Ended h) (release_loop sys fuel num_pages released h)
  unfolding release_loop
  release_loop_rule zero released v enough pos = absurd (omega arith)
  release_loop_rule (suc fuel) released {h} v enough pos =
      let go = ltb released num_pages && ltb 0 h.stats.free_bytes in
      if_rule (Returns (Ended h)) go
        (λ e.
          let bytes_left : 0 < h.stats.free_bytes = ground arith in
          let more : released < num_pages = ground arith in
          let (j, le, there) = free-HasVictim v bytes_left in
          let near =
            distance-near (next_list h.release_index) j (next_list-le h.release_index) le in
          bind (round_step (max_pages + 1) released j v more le there near) λ r h' p.
            after_rounds h fuel released r p
              λ lt. release_loop_rule fuel r.1 p.0.0 (omega arith) (omega arith))
        (λ e. returns (v, stopped released h e, λ u k. k))

  -- In a heap that keeps the invariant ReleaseAtLeastNPages always returns, if its loop has more
  -- rounds than pages are asked for, and the heap keeps the invariant: at least so many pages are
  -- released, or no byte is free, or TCMalloc_SystemRelease failed in some call.
  pub release_at_least_rule :
      (fuel : ℕ) {h : PageHeap}
      → IsValid h
      → num_pages < fuel
      → Returns (Ended h) (release_at_least_n_pages sys fuel num_pages h)
  unfolding release_at_least_n_pages
  release_at_least_rule fuel v enough = release_loop_rule fuel 0 v (omega arith) (omega arith)
