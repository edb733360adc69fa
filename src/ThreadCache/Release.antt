-- ===== src/ThreadCache/Release.antt =====
-- ReleaseToCentralCache of src/src/thread_cache.cc.
use conan_tcmalloc.Base.{
  ℕ, zero, suc, ◌+◌, ◌-◌, ◌*◌, ◌%◌, ◌^◌, ◌≤◌, ◌<◌, ◌≡◌, ◌≢◌, ◌∙◌, ap, sym, subst, refl, true, false,
  some, List, [], ◌∷◌, ltb, ◌==◌, arith, has, length, take, drop, length-take, length-drop,
  drop-drop, drop-all, if◌then◌else◌, Bool-cases, inl, inr,
}
use conan_tcmalloc.PageMap.{update, update-update}
use conan_tcmalloc.PageHeap.Tally.{tally, tally-at}
use conan_tcmalloc.LinkedList.{Memory, Range}
use conan_tcmalloc.LinkedList.Ranges.{Popped, has-take, has-drop, Disjoint-take}
use conan_tcmalloc.ThreadCache.FreeList.{FreeList, sub32}
use conan_tcmalloc.ThreadCache.Lists.{Represents, SameLimits, pop_range-Represents}
use conan_tcmalloc.ThreadCache.Cache.{
  Central, World, list_of, with_list, with_size, give_back, give_back_loop,
  release_to_central_cache,
}
use conan_tcmalloc.ThreadCache.Invariant.{Chain, Ghosts, IsLawful, Owns, Spares, NoMore, Sized}
use conan_tcmalloc.ThreadCache.Budget.{Numbered, with_list-Numbered, with_size-Numbered}
use conan_tcmalloc.ThreadCache.Owned.{Represents-frame, Step, Owns-step}

split_mul : (a n len s : ℕ) → a + n ≡ len → a * s + n * s ≡ len * s
split_mul a n len s e = rw (← e) (grind arith)

has-parts :
    (a n : ℕ) (xs : List ℕ)
    → has a (take n xs) ≡ false
    → has a (drop n xs) ≡ false
    → has a xs ≡ false
has-parts a zero xs off left = left
has-parts a (suc n) [] off left = refl
has-parts a (suc n) (x ∷ xs) off left = ground (arith, has-parts a n xs (ground arith) left)

released_all :
    (n len : ℕ) (xs : List ℕ) → len ≡ length xs → drop (if ltb len n then len else n) xs ≡ drop n xs
released_all n len xs e = elim (Bool-cases (ltb len n)) [
  | inr fewer ↦ rw fewer refl
  | inl more ↦ rw more (drop-all len xs (omega arith) ∙ sym (drop-all n xs (ground (arith))))
]

module _ (C : Central) (classes : ℕ) (G : Ghosts C) (law : IsLawful C classes G)
    (size_of batch : ℕ → ℕ) (me : ℕ) where
  -- What a step leaves: the first `n` objects of a list are gone.
  pub record GaveBack (cl n : ℕ) (g : G.Ghost) (objs : ℕ → List ℕ) (w w' : World C) : Type 0 where
    pub ghost : G.Ghost
    pub owns : Owns C classes G me ghost (update objs cl (drop n (objs cl))) w'
    pub spares : Spares C classes G g ghost objs w w'
    pub no_more : NoMore C classes G g ghost objs (update objs cl (drop n (objs cl)))
    pub size : (w'.caches me).size ≡ (w.caches me).size
    pub numbered : (k : ℕ) → Numbered k w → Numbered k w'
    pub limits : (dl : ℕ) → SameLimits (list_of me dl w) (list_of me dl w')

  -- After the range is popped and given to the central list.
  module _ (cl n : ℕ) (g : G.Ghost) (objs : ℕ → List ℕ) (w : World C) (here : cl < classes)
      (o : Owns C classes G me g objs w) (le : n ≤ length (objs cl)) (r : Range) (f : FreeList)
      (popped : Popped w.memory (objs cl) n r)
      (rep : Represents r.memory f (drop n (objs cl))) where
    abbrev xs : List ℕ
    xs = objs cl

    chain : Chain r.memory r.start r.end n (take n xs)
    chain = record {
      holds = popped.range;
      last = elim popped.ends [ inl z ↦ inl (z.0) | inr l ↦ inr l ];
      counts = length-take n xs le;
    }

    -- The ghost, the central cache and the memory after InsertRange.
    module _ (g' : G.Ghost) (st : C.State) (m : Memory) (valid : G.Valid g' st m)
        (gone : (dl a : ℕ)
          → G.given g' dl a ≡ (if has a (take n xs) then false else G.given g dl a))
        (same : (dl a : ℕ) → G.given g' dl a ≡ true → m a ≡ r.memory a) where
      abbrev after : World C
      after = record (with_list me cl f w) { memory = m; central = st }

      unhurt :
          (dl a : ℕ)
          → G.given g dl a ≡ true
          → has a (take n xs) ≡ false
          → (G.given g' dl a ≡ true) × (m a ≡ r.memory a)
      unhurt dl a mine off =
          let still : G.given g' dl a ≡ true = ground (arith, gone dl a, off, mine) in
          (still, same dl a still)

      -- Objects that stay.
      stay : (a : ℕ) → has a (drop n xs) ≡ true → (G.given g' cl a ≡ true) × (m a ≡ r.memory a)
      stay a h =
          let distinct = (o.lists cl here).holds.distinct in
          unhurt cl a (o.own cl a here (has-drop a n xs h))
            (ground (arith, Disjoint-take n xs distinct a))

      after-Step : Step C classes G me cl g g' objs w after f (drop n xs)
      after-Step = record {
        list = λ dl. let itself : (me == me) ≡ true = ground arith in rw (itself, list_of) refl;
        objects = Represents-frame r.memory m f (drop n xs) (λ a h. (stay a h).1) rep;
        foreign = λ dl a lt ne h.
            let off = o.apart dl cl lt here ne a h in ground (arith, has-drop a n xs);
        own = λ a h. (stay a h).0;
        frame = λ dl a mine off gone_too.
            let (own, kept) = unhurt dl a mine (ground (arith, has-take a n xs)) in
            (own, kept ∙ popped.frame a off);
        valid = valid;
      }

  -- What is out of the lists after the range was given, was so before.
  gone-NoMore :
      (cl n : ℕ) (g g' : G.Ghost) (objs : ℕ → List ℕ)
      → cl < classes
      → ((dl a : ℕ)
          → G.given g' dl a ≡ (if has a (take n (objs cl)) then false else G.given g dl a))
      → NoMore C classes G g g' objs (update objs cl (drop n (objs cl)))
  gone-NoMore cl n g g' objs here gone dl a held =
      let itself : (cl == cl) ≡ true = ground arith in
      let at_cl = held.listed cl here in
      let left : has a (drop n (objs cl)) ≡ false = rw itself at at_cl in
      let off : has a (take n (objs cl)) ≡ false = elim (Bool-cases (has a (take n (objs cl)))) [
        | inr out ↦ out
        | inl on ↦ absurd (ground (arith, gone dl a, held.given))
      ] in
      record {
        given = ground (arith, gone dl a, held.given, off);
        listed = λ c lt.
            let at_c = held.listed c lt in
            elim (Bool-cases (c == cl)) [
              | inr other ↦ rw other at at_c
              | inl at ↦
                  let e : cl ≡ c = ground arith in
                  subst (λ k. has a (objs k) ≡ false) e (has-parts a n (objs cl) off left)
            ];
      }

  limits_after :
      (cl dl : ℕ) (w : World C) (f g : FreeList)
      → SameLimits (list_of me cl w) f
      → g ≡ (if dl == cl then f else list_of me dl w)
      → SameLimits (list_of me dl w) g
  limits_after cl dl w f g same e = elim (Bool-cases (dl == cl)) [
    | inr other ↦ rw (e, other) (refl, refl, refl)
    | inl at ↦
        let here : dl ≡ cl = ground arith in
        rw (e, at) (subst (λ k. SameLimits (list_of me k w) f) (sym here) same)
  ]

  give_back-GaveBack :
      (cl n : ℕ) (g : G.Ghost) (objs : ℕ → List ℕ) (w : World C)
      → 0 < cl
      → cl < classes
      → Owns C classes G me g objs w
      → n ≤ length (objs cl)
      → (w' : World C) × (give_back C size_of batch me cl n w ≡ some w') × GaveBack cl n g objs w w'
  unfolding give_back
  give_back-GaveBack cl n g objs w used here o le =
      let (r, f, is, popped, rep, same) =
        pop_range-Represents n (objs cl) (list_of me cl w) w.memory (o.lists cl here) le in
      let itself : (me == me) ≡ true = ground arith in
      let untouched = law.local g w.central w.memory r.memory o.valid (λ a free.
        popped.frame a (elim (Bool-cases (has a (objs cl))) [
          | inl on ↦ absurd (cc (o.own cl a here on, free cl))
          | inr off ↦ off
        ])) in
      let (g', st, m, inserted, valid, gone, kept) =
        law.insert cl r.start r.end n (take n (objs cl)) g w.central r.memory used here untouched
          (chain cl n g objs w here o le r f popped rep)
          (λ a h. o.own cl a here (has-take a n (objs cl) h)) in
      let step = after-Step cl n g objs w here o le r f popped rep g' st m valid gone kept in
      (
        after cl n g objs w here o le r f popped rep g' st m valid gone kept,
        rw (is, inserted) refl,
        record {
          ghost = g';
          owns = Owns-step here o step;
          spares = λ dl a mine off.
              step.frame dl a mine (off cl here) (elim (Bool-cases (has a (drop n (objs cl)))) [
                | inl on ↦ absurd (cc (has-drop a n (objs cl) on, off cl here))
                | inr out ↦ out
              ]);
          no_more = gone-NoMore cl n g g' objs here gone;
          size = rw itself refl;
          numbered = λ k v. with_list-Numbered me cl k f w _ _ v;
          limits = λ dl. limits_after cl dl w f _ same (step.list dl);
        },
      )

  -- Two ranges, one after the other.
  GaveBack-trans :
      (cl a b : ℕ) (g₀ : G.Ghost) (objs : ℕ → List ℕ) (w w' w'' : World C)
      → (g : GaveBack cl a g₀ objs w w')
      → GaveBack cl b (g.ghost) (update objs cl (drop a (objs cl))) w' w''
      → GaveBack cl (a + b) g₀ objs w w''
  GaveBack-trans cl a b g₀ objs w w' w'' g h =
      let here_list : (cl == cl) ≡ true = ground arith in
      let left = drop a (objs cl) in
      let same : drop b (update objs cl left cl) ≡ drop (a + b) (objs cl) =
        rw here_list (drop-drop a b (objs cl)) in
      record {
        ghost = h.ghost;
        spares = λ dl x mine off.
            let (mine', e') = g.spares dl x mine off in
            let (mine'', e'') = h.spares dl x mine' (λ c lt. elim (Bool-cases (c == cl)) [
              | inr other ↦ rw other (off c lt)
              | inl here ↦ rw here (elim (Bool-cases (has x left)) [
                | inl on ↦
                    let e : c ≡ cl = ground arith in
                    let out = subst (λ k. has x (objs k) ≡ false) e (off c lt) in
                    absurd (cc (has-drop x a (objs cl) on, out))
                | inr out ↦ out
              ])
            ]) in
            (mine'', e'' ∙ e');
        owns =
            subst (λ ys. Owns C classes G me h.ghost (update objs cl ys) w'') same
              (subst (λ os. Owns C classes G me h.ghost os w'')
                (update-update objs cl left (drop b (update objs cl left cl))) h.owns);
        no_more =
            subst (NoMore C classes G g₀ h.ghost objs)
              (update-update objs cl left (drop b (update objs cl left cl))
                ∙ ap (update objs cl) same)
              (λ dl x held. g.no_more dl x (h.no_more dl x held));
        size = h.size ∙ g.size;
        numbered = λ k v. h.numbered k (g.numbered k v);
        limits = λ dl.
            let (a₁, b₁, c₁) = g.limits dl in
            let (a₂, b₂, c₂) = h.limits dl in (a₂ ∙ a₁, b₂ ∙ b₁, c₂ ∙ c₁);
      }

  give_back_loop-GaveBack :
      (fuel cl n : ℕ) (g : G.Ghost) (objs : ℕ → List ℕ) (w : World C)
      → 0 < cl
      → cl < classes
      → 0 < batch cl
      → n < fuel
      → Owns C classes G me g objs w
      → n ≤ length (objs cl)
      → (w' : World C) × (give_back_loop C size_of batch me fuel cl n w ≡ some w')
        × GaveBack cl n g objs w w'
  unfolding give_back_loop
  give_back_loop-GaveBack zero cl n g objs w used here pos enough o le = absurd (omega arith)
  give_back_loop-GaveBack (suc fuel) cl n g objs w used here pos enough o le =
      elim (Bool-cases (ltb (batch cl) n)) [
        | inr last ↦ rw last (give_back-GaveBack cl n g objs w used here o le)
        | inl more ↦
            let b = batch cl in
            let less : b < n = ground arith in
            let (w₁, is₁, g₁) = give_back-GaveBack cl b g objs w used here o (omega arith) in
            let here_list : (cl == cl) ≡ true = ground arith in
            let (w₂, is₂, h) =
              give_back_loop-GaveBack fuel cl (n - b) (g₁.ghost) (update objs cl (drop b (objs cl)))
                w₁ used here pos (omega arith) g₁.owns
                (rw here_list (omega (arith, length-drop b (objs cl)))) in
            let total : b + (n - b) ≡ n = omega arith in
            (
              w₂,
              rw (more, is₁) is₂,
              subst (λ k. GaveBack cl k g objs w w₂) total
                  (GaveBack-trans cl b (n - b) g objs w w₁ w₂ g₁ h),
            )
      ]

  abbrev bytes_of : (ℕ → List ℕ) → ℕ → ℕ
  bytes_of objs c = length (objs c) * size_of c

  bytes_of-other :
      (cl : ℕ) (ys : List ℕ) (objs : ℕ → List ℕ) (q : ℕ)
      → q ≢ cl
      → bytes_of (update objs cl ys) q ≡ bytes_of objs q
  bytes_of-other cl ys objs q ne = let other : (q == cl) ≡ false = ground arith in rw other refl

  -- The bytes after the objects of one class change.
  pub bytes-change :
      (cl : ℕ) (ys : List ℕ) (objs : ℕ → List ℕ)
      → cl < classes
      → tally (bytes_of (update objs cl ys)) classes + length (objs cl) * size_of cl
        ≡ tally (bytes_of objs) classes + length ys * size_of cl
  bytes-change cl ys objs here =
      let here_list : (cl == cl) ≡ true = ground arith in
      let now : bytes_of (update objs cl ys) cl ≡ length ys * size_of cl = rw here_list refl in
      tally-at (bytes_of objs) (bytes_of (update objs cl ys)) cl classes here
        (bytes_of-other cl ys objs)
      ∙ ap (λ k. tally (bytes_of objs) classes + k) now

  -- The bytes that stay.
  bytes_left :
      (cl n : ℕ) (objs : ℕ → List ℕ)
      → cl < classes
      → n ≤ length (objs cl)
      → tally (bytes_of (update objs cl (drop n (objs cl)))) classes + n * size_of cl
        ≡ tally (bytes_of objs) classes
  bytes_left cl n objs here le =
      let left = drop n (objs cl) in
      let change = bytes-change cl left objs here in
      let part : length left * size_of cl + n * size_of cl ≡ length (objs cl) * size_of cl =
        split_mul (length left) n (length (objs cl)) (size_of cl)
          (omega (arith, length-drop n (objs cl))) in
      omega (arith, change, part)

  pub Owns-size :
      (n : ℕ) {g : G.Ghost} {objs : ℕ → List ℕ} {w : World C}
      → Owns C classes G me g objs w
      → Owns C classes G me g objs (with_size me n w)
  Owns-size n o = record {
    lists = λ cl lt.
        let itself : (me == me) ≡ true = ground arith in rw (itself, list_of) (o.lists cl lt);
    apart = o.apart;
    own = o.own;
    valid = o.valid;
  }

  left_bytes :
      (n cl : ℕ) (objs : ℕ → List ℕ) (w : World C)
      → cl < classes
      → n ≤ length (objs cl)
      → Sized size_of classes objs (w.caches me)
      → tally (bytes_of (update objs cl (drop n (objs cl)))) classes % 2 ^ 32
        ≡ sub32 (w.caches me).size ((n * size_of cl) % 2 ^ 32)
  unfolding sub32
  left_bytes n cl objs w here le sized = omega (arith, bytes_left cl n objs here le, sized)

  -- For a batch that is not 0, over a central cache with the laws, and a thread whose lists are in
  -- order, ReleaseToCentralCache of a class other than 0 always returns; exactly the first N
  -- objects of the list, or all that it has, leave it and have gone back to the central cache, the
  -- limits of all lists are as before, and size_ is the total of the objects that are left. Given
  -- and in no list are exactly the objects that were so before, and they are not written to.
  pub release-Owns :
      (cl n : ℕ) (g : G.Ghost) (objs : ℕ → List ℕ) (w : World C)
      → 0 < cl
      → cl < classes
      → 0 < batch cl
      → Owns C classes G me g objs w
      → Sized size_of classes objs (w.caches me)
      → let left = update objs cl (drop n (objs cl)) in
        (w' : World C) × (g' : G.Ghost) × (release_to_central_cache C size_of batch me cl n w
          ≡ some w')
        × Owns C classes G me g' left w'
        × Spares C classes G g g' objs w w'
        × NoMore C classes G g g' objs left
        × Sized size_of classes left (w'.caches me)
        × ((dl : ℕ) → SameLimits (list_of me dl w) (list_of me dl w'))
        × ((k : ℕ) → Numbered k w → Numbered k w')
  unfolding release_to_central_cache
  release-Owns cl n g objs w used here pos o sized =
      let xs = objs cl in
      let len = (list_of me cl w).length in
      let counts = (o.lists cl here).counts in
      let all = if ltb len n then len else n in
      let le : all ≤ length xs = ground (arith, counts) in
      let same : drop all xs ≡ drop n xs = released_all n len xs counts in
      let (w₁, is, gave) =
        give_back_loop-GaveBack (all + 1) cl all g objs w used here pos (omega arith) o le in
      let itself : (me == me) ≡ true = ground arith in
      let gone = (all * size_of cl) % 2 ^ 32 in
      let size' = sub32 (w₁.caches me).size gone in
      let w₂ = with_size me size' w₁ in
      let final : (w₂.caches me).size ≡ size' = rw itself refl in
      let bytes = left_bytes all cl objs w here le sized in
      (
        w₂,
        gave.ghost,
        rw is refl,
        subst (λ ys. Owns C classes G me gave.ghost (update objs cl ys) w₂) same
            (Owns-size size' gave.owns),
        gave.spares,
        subst (λ ys. NoMore C classes G g gave.ghost objs (update objs cl ys)) same gave.no_more,
        subst (λ ys. tally (bytes_of (update objs cl ys)) classes % 2 ^ 32 ≡ (w₂.caches me).size)
            same (bytes ∙ ap (λ k. sub32 k gone) (sym gave.size) ∙ sym final),
        λ dl. rw (itself, list_of) (gave.limits dl),
        λ k v. with_size-Numbered me k size' w₁ (gave.numbered k v),
      )
