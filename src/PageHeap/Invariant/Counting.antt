-- ===== src/PageHeap/Invariant/Counting.antt =====
-- How the sums over the spans change with one of them.
use conan_tcmalloc.Base.{
  ℕ, ◌+◌, ◌-◌, ◌^◌, ◌≤◌, ◌<◌, ◌≡◌, ◌≢◌, Bool, true, false, Option, none, some, ◌==◌, arith, add64,
  sub64, subst, sym, Option-cases, Bool-cases, inl, inr,
}
use conan_tcmalloc.PageMap.{update}
use conan_tcmalloc.PageHeap.State.{in_use, Span, FreeLists, PageHeap, Stats, bytes}
use conan_tcmalloc.PageHeap.FreeLists.{count_in, count_out}
use conan_tcmalloc.PageHeap.Tally.{
  tally-at, le-tally, normal_pages, pages_of, pages_of-update_ne, pages_of-tally, Counts, Owns,
}
use conan_tcmalloc.PageHeap.Geometry.Stock.{lt-next_span}
use conan_tcmalloc.PageHeap.Listed.{Listed}
use conan_tcmalloc.PageHeap.Listed.Moves.{Off}
use conan_tcmalloc.PageHeap.Invariant.{Inv}

pub le_refl : {n : ℕ} → n ≤ n
le_refl = omega arith

new_pages :
    (held : ℕ → Bool) (spans : ℕ → Option Span) (p : ℕ) (o : Option Span) (b : Bool)
    → ((s : Span) → o ≡ some s → s.location ≢ in_use → b ≡ true)
    → normal_pages (update held p b) (update spans p o) p ≡ 0
new_pages held spans p none b free = ground arith
new_pages held spans p (some s) b free = ground (arith, free s)

module _ {held : ℕ → Bool} {spans : ℕ → Option Span} {l : FreeLists} (v : Listed held spans l)
    (p : ℕ) (off : Off v p) where
  -- A span on no list counts for nothing.
  normal_pages-Off : normal_pages held spans p ≡ 0
  normal_pages-Off = elim (Option-cases (spans p)) [
    | inl none_there ↦ ground arith
    | inr (s, e) ↦ ground (arith, v.listed p s, off.0 (s.length - 1))
  ]

  -- It may change, be deleted or be made, and be held or not: if it is free afterwards, it is held.
  pub normal_pages-change :
      (o : Option Span) (b : Bool)
      → ((s : Span) → o ≡ some s → s.location ≢ in_use → b ≡ true)
      → (q : ℕ) → normal_pages (update held p b) (update spans p o) q ≡ normal_pages held spans q
  normal_pages-change o b free q = elim (Bool-cases (q == p)) [
    | inr other ↦ ground arith
    | inl at ↦
        let e : q ≡ p = ground arith in
        let same : (p == p) ≡ true = ground arith in
        subst (λ x. normal_pages (update held p b) (update spans p o) x ≡ normal_pages held spans x)
          (sym e) (rw normal_pages-Off (new_pages held spans p o b free))
  ]

-- A span that was held goes on its list.
pub Counts-in :
    (held : ℕ → Bool) (spans : ℕ → Option Span) {next : ℕ} (t : Stats) (p : ℕ) (s : Span)
    → spans p ≡ some s
    → held p ≡ true
    → p < next
    → Counts (normal_pages held spans) next t.free_bytes
    → Counts
        (normal_pages (update held p false) spans)
        next
        (count_in s.location s.length t).free_bytes
unfolding count_in add64 bytes
Counts-in held spans t p s e off lt c n k = ground (
  arith,
  tally-at (normal_pages held spans) (normal_pages (update held p false) spans) p n (omega arith)
      (λ q ne. ground arith),
  c n k,
)

module _ {held : ℕ → Bool} {owed : ℕ} {h : PageHeap} (v : Inv held owed h) (p : ℕ) (s : Span)
    (e : h.spans p ≡ some s) where
  pub Counts-out :
      held p ≡ false
      → Counts
          (normal_pages (update held p true) h.spans)
          h.next_span
          (count_out s.location s.length h.stats).free_bytes
  unfolding count_out sub64 bytes
  Counts-out on n k = ground (
    arith,
    tally-at (normal_pages held h.spans) (normal_pages (update held p true) h.spans) p n
        (omega (arith, lt-next_span h.directory v.geometry.stock e)) (λ q ne. ground arith),
    v.counted n k,
  )

  -- One span may change in all but its length.
  pub pages_of-change :
      (s' : Span)
      → s'.length ≡ s.length
      → (q : ℕ) → pages_of (update h.spans p (some s')) q ≡ pages_of h.spans q
  pages_of-change s' el q = elim (Bool-cases (q == p)) [
    | inr other ↦ pages_of-update_ne h.spans p q (some s') (λ x. ground arith)
    | inl at ↦
        let x : q ≡ p = ground arith in
        let same : (p == p) ≡ true = ground arith in
        subst (λ y. pages_of (update h.spans p (some s')) y ≡ pages_of h.spans y) (sym x)
          (rw (same, e, pages_of) el)
  ]

  -- A span that has no more pages than the heap is less than 16 TiB long.
  pub length-lt : s.length < 2 ^ 31
  length-lt =
      let lt = lt-next_span h.directory v.geometry.stock e in
      let sum = le-tally (pages_of h.spans) p h.next_span lt in
      let own = v.owned h.next_span (omega arith) in
      let here : pages_of h.spans p ≡ s.length = rw (e, pages_of) in omega (arith, v.limited)

-- Two spans become one with the pages of both.
pub Owns-join :
    {held : ℕ → Bool} {owed : ℕ} {h : PageHeap} (v : Inv held owed h) (p q : ℕ) (s u j : Span)
    → h.spans p ≡ some s
    → h.spans q ≡ some u
    → p ≢ q
    → j.length ≡ s.length + u.length
    → Owns (pages_of (update (update h.spans q none) p (some j))) h.next_span h.stats.system_bytes
Owns-join {h = h} v p q s u j e g ne len n k =
    let d = h.directory in
    let without = update h.spans q none in
    let first =
      pages_of-tally h.spans q n none (omega (arith, lt-next_span d v.geometry.stock g)) in
    let second =
      pages_of-tally without p n (some j) (omega (arith, lt-next_span d v.geometry.stock e)) in
    let same_p : (p == p) ≡ true = ground arith in
    let same_q : (q == q) ≡ true = ground arith in
    let other : (p == q) ≡ false = ground arith in
    let s_pages : pages_of without p ≡ s.length = rw (other, e, pages_of) in
    let u_pages : pages_of h.spans q ≡ u.length = rw (g, pages_of) in
    let no_pages : pages_of without q ≡ 0 = rw (same_q, pages_of) in
    let j_pages : pages_of (update without p (some j)) p ≡ j.length = rw (same_p, pages_of) in
    omega (arith, v.owned n k)

-- A span becomes two with its pages, of which one is new.
pub Owns-cut :
    {held : ℕ → Bool} {owed : ℕ} {h : PageHeap} (v : Inv held owed h) (p l next : ℕ) (s t f : Span)
    → h.spans p ≡ some s
    → h.spans l ≡ none
    → l < next
    → h.next_span ≤ next
    → f.length + t.length ≡ s.length
    → Owns (pages_of (update (update h.spans l (some t)) p (some f))) next h.stats.system_bytes
Owns-cut {h = h} v p l next s t f e g lt le len n k =
    let d = h.directory in
    let with_t = update h.spans l (some t) in
    let ne : p ≢ l = λ x. ground arith in
    let first = pages_of-tally h.spans l n (some t) (omega arith) in
    let second =
      pages_of-tally with_t p n (some f) (omega (arith, lt-next_span d v.geometry.stock e)) in
    let same_p : (p == p) ≡ true = ground arith in
    let same_l : (l == l) ≡ true = ground arith in
    let other : (p == l) ≡ false = ground arith in
    let s_pages : pages_of with_t p ≡ s.length = rw (other, e, pages_of) in
    let no_pages : pages_of h.spans l ≡ 0 = rw (g, pages_of) in
    let t_pages : pages_of with_t l ≡ t.length = rw (same_l, pages_of) in
    let f_pages : pages_of (update with_t p (some f)) p ≡ f.length = rw (same_p, pages_of) in
    omega (arith, v.owned n (omega arith))
