-- ===== src/LinkedList/Ranges.antt =====
-- SLL_PopRange and SLL_PushRange of src/src/linked_list.h against lists of objects.
use conan_tcmalloc.Base.{
  ℕ, zero, suc, ◌-◌, ◌≤◌, ◌≡◌, ◌≢◌, ◌⊎◌, ap, subst, refl, true, false, some, List, [], ◌∷◌, ◌++◌,
  ◌==◌, arith, has, Distinct, length, take, drop, take-append-drop, inl, inr,
}
use conan_tcmalloc.PageMap.{update}
use conan_tcmalloc.LinkedList.{Memory, Range, advance, sll_pop_range, sll_push_range}
use conan_tcmalloc.LinkedList.Segments.{
  Segment, Holds, Disjoint, Segment-update, Segment-append, Distinct-append, Segment-has_zero,
}
use conan_tcmalloc.LinkedList.Laws.{sll_next-some, sll_set_next-some}

-- `t` is the last object.
abbrev pub IsLast : ℕ → List ℕ → Type 0
IsLast t [] = ⊥
IsLast t (x ∷ []) = x ≡ t
IsLast t (x ∷ y ∷ ys) = IsLast t (y ∷ ys)

pub has-IsLast : (t : ℕ) (xs : List ℕ) → IsLast t xs → has t xs ≡ true
has-IsLast t [] l = absurd l
has-IsLast t (x ∷ []) l = ground arith
has-IsLast t (x ∷ y ∷ ys) l = ground (arith, has-IsLast t (y ∷ ys) l)

pub has-take : (a n : ℕ) (xs : List ℕ) → has a (take n xs) ≡ true → has a xs ≡ true
has-take a zero xs h = cc
has-take a (suc n) [] h = cc
has-take a (suc n) (x ∷ xs) h = ground (arith, has-take a n xs)

pub has-drop : (a n : ℕ) (xs : List ℕ) → has a (drop n xs) ≡ true → has a xs ≡ true
has-drop a zero xs h = h
has-drop a (suc n) [] h = cc
has-drop a (suc n) (x ∷ xs) h = ground (arith, has-drop a n xs)

-- The two parts of a list share nothing.
pub Disjoint-take : (n : ℕ) (xs : List ℕ) → Distinct xs → Disjoint (take n xs) (drop n xs)
Disjoint-take zero xs d a h = cc
Disjoint-take (suc n) [] d a h = cc
Disjoint-take (suc n) (x ∷ xs) (off, d) a h =
    ground (arith, Disjoint-take n xs d a, has-drop a n xs)

pub Distinct-take : (n : ℕ) (xs : List ℕ) → Distinct xs → Distinct (take n xs)
Distinct-take zero xs d = tt
Distinct-take (suc n) [] d = tt
Distinct-take (suc n) (x ∷ xs) (off, d) = (ground (arith, has-take x n xs), Distinct-take n xs d)

pub Distinct-drop : (n : ℕ) (xs : List ℕ) → Distinct xs → Distinct (drop n xs)
Distinct-drop zero xs d = d
Distinct-drop (suc n) [] d = tt
Distinct-drop (suc n) (x ∷ xs) (off, d) = Distinct-drop n xs d

-- The object that a walk of `k` steps ends at: it is the last of the first k + 1, and the cut after it
-- gives two lists.
pub record Cut (m : Memory) (p k : ℕ) (xs : List ℕ) (t : ℕ) : Type 0 where
  pub reached : advance k p m ≡ some t
  pub not_null : t ≢ 0
  pub last : IsLast t (take (suc k) xs)
  pub first : Segment (update m t 0) p (take (suc k) xs) 0
  pub rest : Segment m (m t) (drop (suc k) xs) 0

pub walk-Cut :
    (k p x : ℕ) (xs : List ℕ) (m : Memory)
    → Segment m p (x ∷ xs) 0
    → Distinct (x ∷ xs)
    → k ≤ length xs
    → (t : ℕ) × Cut m p k (x ∷ xs) t
unfolding advance
walk-Cut zero p x xs m (at, ne, s) d le =
    let here : (x == x) ≡ true = ground arith in
    (
      x,
      record {
        reached = ap some at;
        not_null = ne;
        last = refl;
        first = (at, ne, rw here refl);
        rest = s;
      },
    )
walk-Cut (suc k) p x [] m s d le = absurd (omega arith)
walk-Cut (suc k) p x (y ∷ ys) m (at, ne, s) (off, d) le =
    let (t, c) = walk-Cut k (m x) y ys m s d (omega arith) in
    let other : (x == t) ≡ false =
      ground (arith, has-take t (suc k) (y ∷ ys) (has-IsLast t (take (suc k) (y ∷ ys)) c.last)) in
    (
      t,
      record {
        reached = rw (at, sll_next-some x m ne) c.reached;
        not_null = c.not_null;
        last = c.last;
        first = (at, ne, rw other c.first);
        rest = c.rest;
      },
    )

-- What SLL_PopRange of `n` objects gives: two lists, and the range ends with its last object.
pub record Popped (m : Memory) (xs : List ℕ) (n : ℕ) (r : Range) : Type 0 where
  pub range : Holds r.memory r.start (take n xs)
  pub others : Holds r.memory r.head (drop n xs)
  pub frame : (a : ℕ) → has a xs ≡ false → r.memory a ≡ m a
  pub ends : ((n ≡ 0) × (r.end ≡ 0)) ⊎ IsLast r.end (take n xs)

-- SLL_PopRange of no more objects than a list has cuts it in two, the first so many objects and
-- the others, gives the last of the range as its end, and writes to no other object.
pub pop_range-Popped :
    (head n : ℕ) (xs : List ℕ) (m : Memory)
    → Holds m head xs
    → n ≤ length xs
    → (r : Range) × (sll_pop_range head n m ≡ some r) × Popped m xs n r
unfolding sll_pop_range
pop_range-Popped head zero xs m h le = (
  record { start = 0; end = 0; head = head; memory = m },
  refl,
  record {
    range = record { chain = refl; distinct = tt };
    others = h;
    frame = λ a off. refl;
    ends = inl (refl, refl);
  },
)
pop_range-Popped head (suc k) [] m h le = absurd (omega arith)
pop_range-Popped head (suc k) (x ∷ xs) m h le =
    let (t, c) = walk-Cut k head x xs m h.chain h.distinct (omega arith) in
    let whole = x ∷ xs in
    let nonzero : (suc k == 0) ≡ false = ground arith in
    let rounds : suc k - 1 ≡ k = omega arith in
    let in_range = has-IsLast t (take (suc k) whole) c.last in
    let on : has t whole ≡ true = has-take t (suc k) whole in_range in
    let off = Disjoint-take (suc k) whole h.distinct t in_range in
    (
      record { start = head; end = t; head = m t; memory = update m t 0 },
      rw
          (
            nonzero,
            rounds,
            c.reached,
            sll_next-some t m c.not_null,
            sll_set_next-some t 0 m c.not_null,
          )
          refl,
      record {
        range = record { chain = c.first; distinct = Distinct-take (suc k) whole h.distinct };
        others = record {
          chain = Segment-update m (m t) 0 t 0 (drop (suc k) whole) off c.rest;
          distinct = Distinct-drop (suc k) whole h.distinct;
        };
        frame = λ a out. ground (arith, on);
        ends = inr c.last;
      },
    )

-- The last object of a list is led to `q`.
Segment-last :
    (m : Memory) (p t q : ℕ) (xs : List ℕ)
    → Segment m p xs 0
    → Distinct xs
    → IsLast t xs
    → Segment (update m t q) p xs q
Segment-last m p t q [] s d l = absurd l
Segment-last m p t q (x ∷ []) (at, ne, s) d l =
    let here : (x == t) ≡ true = ground arith in (at, ne, rw here refl)
Segment-last m p t q (x ∷ y ∷ ys) (at, ne, s) (off, d) l =
    let other : (x == t) ≡ false = ground (arith, has-IsLast t (y ∷ ys) l) in
    (at, ne, rw other (Segment-last m (m x) t q (y ∷ ys) s d l))

start-IsLast :
    (m : Memory) (p t : ℕ) (xs : List ℕ) → Segment m p xs 0 → IsLast t xs → (p == 0) ≡ false
start-IsLast m p t [] s l = absurd l
start-IsLast m p t (x ∷ xs) (at, ne, s) l = ground arith

-- SLL_PushRange of a list in front of another.
pub push_range-Holds :
    (head start end : ℕ) (xs ys : List ℕ) (m : Memory)
    → Holds m start xs
    → IsLast end xs
    → Holds m head ys
    → Disjoint xs ys
    → (m' : Memory) × (sll_push_range head start end m ≡ some (start, m'))
      × Holds m' start (xs ++ ys)
      × ((a : ℕ) → a ≢ end → m' a ≡ m a)
unfolding sll_push_range
push_range-Holds head start end xs ys m h l g apart =
    let on : has end xs ≡ true = has-IsLast end xs l in
    let start_ne : (start == 0) ≡ false = start-IsLast m start end xs h.chain l in
    let end_ne : end ≢ 0 = λ e. ground (arith, Segment-has_zero m start 0 xs h.chain) in
    let behind = Segment-update m head 0 end head ys (apart end on) g.chain in
    (
      update m end head,
      rw (start_ne, sll_set_next-some end head m end_ne) refl,
      record {
        chain =
            Segment-append (update m end head) start head 0 xs ys
              (Segment-last m start end head xs h.chain h.distinct l) behind;
        distinct = Distinct-append xs ys h.distinct g.distinct apart;
      },
      λ a other. ground arith,
    )

-- After SLL_PopRange of no more objects than a list has, SLL_PushRange of the range gives the list
-- again.
pub push_range-pop_range :
    (head n : ℕ) (xs : List ℕ) (m : Memory)
    → Holds m head xs
    → n ≤ length xs
    → (r : Range) × (head' : ℕ) × (m' : Memory) × (sll_pop_range head n m ≡ some r)
      × (sll_push_range r.head r.start r.end r.memory ≡ some (head', m'))
      × Holds m' head' xs
unfolding sll_push_range sll_pop_range
push_range-pop_range head zero xs m h le =
    (record { start = 0; end = 0; head = head; memory = m }, head, m, refl, refl, h)
push_range-pop_range head (suc k) xs m h le =
    let n = suc k in
    let (r, popped, p) = pop_range-Popped head n xs m h le in
    elim p.ends [
      | inl (none_taken, e) ↦ absurd (omega arith)
      | inr last ↦
          let apart = Disjoint-take n xs h.distinct in
          let (m', pushed, g, frame) =
            push_range-Holds r.head r.start r.end (take n xs) (drop n xs) r.memory p.range last
              p.others apart in
          (r, r.start, m', popped, pushed, subst (Holds m' r.start) (take-append-drop n xs) g)
    ]
