-- ===== src/ThreadCache/Filled.antt =====
-- FetchFromCentralCache of src/src/thread_cache.cc, where objects came.
use conan_tcmalloc.Base.{
  mod_lt, ℕ, ◌+◌, ◌-◌, ◌*◌, ◌%◌, ◌^◌, ◌≤◌, ◌<◌, ◌≡◌, ◌⊎◌, ◌≢◌, ◌∙◌, subst, refl, min, true, false,
  some, List, [], ◌∷◌, ltb, ◌==◌, if◌then◌else◌, arith, has, length, Bool-cases, if_rule, inl, inr,
}
use conan_tcmalloc.PageMap.{update}
use conan_tcmalloc.PageHeap.Tally.{tally}
use conan_tcmalloc.LinkedList.{Memory, sll_push_range}
use conan_tcmalloc.LinkedList.Segments.{Holds, append_nil}
use conan_tcmalloc.LinkedList.Laws.{head-Holds}
use conan_tcmalloc.LinkedList.Ranges.{IsLast, has-IsLast}
use conan_tcmalloc.ThreadCache.FreeList.{FreeList, add32, set_max_length, push_range}
use conan_tcmalloc.ThreadCache.Lists.{Represents, SameLimits, push_range-Represents}
use conan_tcmalloc.ThreadCache.Cache.{
  Central, World, Fetched, list_of, with_list, with_size, max_dynamic_length,
}
use conan_tcmalloc.ThreadCache.Traffic.{after_fetch}
use conan_tcmalloc.ThreadCache.Invariant.{Chain, Ghosts, IsLawful, IsHeld}
use conan_tcmalloc.ThreadCache.Owned.{Step, Represents-frame}
use conan_tcmalloc.ThreadCache.Release.{bytes-change}
use conan_tcmalloc.ThreadCache.Health.{Healthy, IsLimit}
use conan_tcmalloc.ThreadCache.Given.{changed-Healthy, Keeps, IsNew, Given}

mul_swap : (a b : ℕ) → a * b ≡ b * a
mul_swap a b = grind arith

IsLast-rest : (t x : ℕ) (xs : List ℕ) → xs ≢ [] → IsLast t (x ∷ xs) → IsLast t xs
IsLast-rest t x [] ne l = absurd (ne refl)
IsLast-rest t x (y ∷ ys) ne l = l

-- What is taken off leaves something.
whole_batches : (x b : ℕ) → 0 < b → b ≤ x → 0 < x - x % b
whole_batches x b pos le = omega (arith, mod_lt x b pos)

module _ (C : Central) (classes : ℕ) (G : Ghosts C) (law : IsLawful C classes G)
    (size_of batch : ℕ → ℕ) (me n : ℕ) (me_lt : me < n)
    (batch_ok : (cl : ℕ)
      → 0 < cl
      → cl < classes
      → (0 < batch cl) × (batch cl ≤ max_dynamic_length)) where
  abbrev K : G.Ghost → (ℕ → List ℕ) → World C → Type 0
  K = Healthy C classes G law size_of batch me n me_lt batch_ok

  abbrev Held : G.Ghost → (ℕ → List ℕ) → ℕ → ℕ → Type 0
  Held = IsHeld C classes G

  after_fetch-same : (b : ℕ) (f : FreeList) → (after_fetch b f).size ≡ f.size
  unfolding after_fetch set_max_length
  after_fetch-same b f = ground arith

  after_fetch-Represents :
      (b : ℕ) (m : Memory) (f : FreeList) (xs : List ℕ)
      → Represents m f xs
      → Represents m (after_fetch b f) xs
  unfolding after_fetch set_max_length
  after_fetch-Represents b m f xs r =
      if_rule (λ g. Represents m g xs) (ltb f.max_length b)
        (λ e. record { holds = r.holds; counts = r.counts; low = r.low; small = r.small })
        (λ e. record { holds = r.holds; counts = r.counts; low = r.low; small = r.small })

  after_fetch-IsLimit :
      (b : ℕ) (f : FreeList)
      → (0 < b) × (b ≤ max_dynamic_length)
      → IsLimit (f.max_length)
      → IsLimit ((after_fetch b f).max_length)
  unfolding after_fetch set_max_length
  after_fetch-IsLimit b f ok l =
      let new_length = min (f.max_length + b) max_dynamic_length in
      if_rule (λ (k : FreeList). IsLimit (k.max_length)) (ltb f.max_length b)
        (λ e. let less : f.max_length < b = ground arith in (omega arith, omega arith))
        (λ e.
          let whole = whole_batches new_length b (ok.0) (ground arith) in
          let capped : new_length ≤ max_dynamic_length = ground arith in
          (omega (arith, whole, capped), omega (arith, whole, capped)))

  -- The objects behind the first go on the list, which is empty.
  rest_pushed :
      (k start end : ℕ) (xs : List ℕ) (f : FreeList) (m : Memory)
      → Represents m f []
      → Holds m start xs
      → (xs ≢ [] → IsLast end xs)
      → k ≡ length xs
      → k < 2 ^ 32
      → (g : FreeList) × (m' : Memory) × (push_range k start end f m ≡ some (g, m'))
        × Represents m' g xs
        × SameLimits f g
        × ((a : ℕ) → has a xs ≡ false → m' a ≡ m a)
  unfolding push_range add32 sll_push_range
  rest_pushed k start end [] f m r h last count small =
      let done : start ≡ 0 = h.chain in
      let nothing : (start == 0) ≡ true = ground arith in
      let len : (f.length + k) % 2 ^ 32 ≡ 0 = omega (arith, r.counts, count) in
      (
        record f { length = 0 },
        m,
        rw (nothing, len) refl,
        record { holds = r.holds; counts = refl; low = r.low; small = r.small },
        (refl, refl, refl),
        λ a off. refl,
      )
  rest_pushed k start end (x ∷ xs) f m r h last count small =
      let is_last = last (λ e. cc) in
      let (g, m', is, rep, same, frame) =
        push_range-Represents k start end (x ∷ xs) [] f m r h is_last count (λ a on. refl)
          (omega arith) in
      (
        g,
        m',
        is,
        subst (Represents m' g) (append_nil (x ∷ xs)) rep,
        same,
        λ a off. frame a (λ e. ground (arith, has-IsLast end (x ∷ xs) is_last)),
      )

  -- Some objects came from the central cache: the first is given, the others go on the list.
  module _ (cl : ℕ) (g g' : G.Ghost) (objs : ℕ → List ℕ) (w : World C) (used : 0 < cl)
      (here : cl < classes) (h : K g objs w) (e : objs cl ≡ []) (r : Fetched) (st : C.State)
      (m : Memory) (x : ℕ) (xs : List ℕ) (chain : Chain m r.start r.end r.count (x ∷ xs))
      (small : r.count < 2 ^ 32) (size_lt : size_of cl < 2 ^ 32) (valid : G.Valid g' st m)
      (given : (dl a : ℕ) → G.given g' dl a ≡ (if has a (x ∷ xs) then cl == dl else G.given g dl a))
      (fresh : (dl a : ℕ) → has a (x ∷ xs) ≡ true → G.given g dl a ≡ false)
      (kept : (dl a : ℕ) → G.given g dl a ≡ true → m a ≡ w.memory a) where
    start_x : r.start ≡ x
    start_x = (head-Holds r.start x xs m chain.holds).0

    rest : Holds m (m x) xs
    rest = (head-Holds r.start x xs m chain.holds).2

    rest_end : xs ≢ [] → IsLast r.end xs
    rest_end ne = elim (chain.last) [
      | inl none_there ↦ absurd (omega (arith, chain.counts))
      | inr last ↦ IsLast-rest r.end x xs ne last
    ]

    -- What was given before is not among those that came.
    not_among : (dl a : ℕ) → G.given g dl a ≡ true → has a (x ∷ xs) ≡ false
    not_among dl a mine = elim (Bool-cases (has a (x ∷ xs))) [
      | inl on ↦ absurd (cc (fresh dl a on, mine))
      | inr off ↦ off
    ]

    still_given : (dl a : ℕ) → G.given g dl a ≡ true → G.given g' dl a ≡ true
    still_given dl a mine = given dl a ∙ rw (not_among dl a mine) mine

    now_given : (a : ℕ) → has a (x ∷ xs) ≡ true → G.given g' cl a ≡ true
    now_given a on = given cl a ∙ rw on (ground arith)

    pub objects :
        (f : FreeList) × (m' : Memory) × (push_range (r.count - 1) (m x) r.end (list_of me cl w) m
          ≡ some (f, m'))
        × Represents m' f xs
        × SameLimits (list_of me cl w) f
        × ((a : ℕ) → has a xs ≡ false → m' a ≡ m a)
    objects =
        let before = subst (Represents w.memory (list_of me cl w)) e (h.owns.lists cl here) in
        rest_pushed (r.count - 1) (m x) r.end xs (list_of me cl w) m
          (Represents-frame w.memory m (list_of me cl w) [] (λ a on. cc) before) rest rest_end
          (omega (arith, chain.counts)) (omega arith)

    module _ (f : FreeList) (m' : Memory) (rep : Represents m' f xs)
        (same : SameLimits (list_of me cl w) f)
        (frame : (a : ℕ) → has a xs ≡ false → m' a ≡ m a) where
      abbrev pub filled : World C
      filled = record (with_list me cl (after_fetch (batch cl) f) w) { memory = m'; central = st }

      filled_memory : (dl a : ℕ) → G.given g dl a ≡ true → m' a ≡ w.memory a
      filled_memory dl a mine =
          let off = not_among dl a mine in frame a (ground arith) ∙ kept dl a mine

      filled_valid : G.Valid g' st m'
      filled_valid = law.local g' st m m' valid (λ a free. frame a (elim (Bool-cases (has a xs)) [
        | inl on ↦ absurd (cc (now_given a (ground arith), free cl))
        | inr off ↦ off
      ]))

      filled-Step : Step C classes G me cl g g' objs w filled (after_fetch (batch cl) f) xs
      filled-Step = record {
        list = λ dl. let itself : (me == me) ≡ true = ground arith in rw (itself, list_of) refl;
        objects = after_fetch-Represents (batch cl) m' f xs rep;
        foreign = λ dl a lt ne on. let off = not_among dl a (h.owns.own dl a lt on) in ground arith;
        own = λ a on. now_given a (ground arith);
        frame = λ dl a mine off gone. (still_given dl a mine, filled_memory dl a mine);
        valid = filled_valid;
      }

      abbrev pub filled_size : ℕ
      filled_size = add32 (w.caches me).size ((size_of cl % 2 ^ 32 * (r.count - 1)) % 2 ^ 32)

      filled_bytes :
          tally (λ c. length (update objs cl xs c) * size_of c) classes % 2 ^ 32 ≡ filled_size
      unfolding add32
      filled_bytes =
          let bytes = bytes-change C classes G law size_of batch me cl xs objs here in
          let before : length (objs cl) * size_of cl ≡ 0 = rw e (omega arith) in
          let sum = h.sized in
          let narrow : size_of cl % 2 ^ 32 ≡ size_of cl = omega (arith, size_lt) in
          let rest_count : r.count - 1 ≡ length xs = omega (arith, chain.counts) in
          let product : size_of cl % 2 ^ 32 * (r.count - 1) ≡ length xs * size_of cl =
            rw (narrow, rest_count) (mul_swap (size_of cl) (length xs)) in
          omega (arith, bytes, before, sum, product)

      filled-Healthy : K g' (update objs cl xs) (with_size me filled_size filled)
      filled-Healthy =
          changed-Healthy C classes G law size_of batch me n me_lt batch_ok cl filled_size g g' objs
            xs w (after_fetch (batch cl) f) m' st used here h filled-Step
            (after_fetch-same (batch cl) f ∙ (same.2 ∙ h.sizes cl here))
            (after_fetch-IsLimit (batch cl) f (batch_ok cl used here)
              (rw (same.0) (h.limits cl here)))
            filled_bytes

      -- In no list: neither of the rest that came, nor of another list.
      unlisted :
          (a : ℕ)
          → has a xs ≡ false
          → ((dl : ℕ) → dl < classes → dl ≢ cl → has a (objs dl) ≡ false)
          → (dl : ℕ) → dl < classes
          → has a (update objs cl xs dl) ≡ false
      unlisted a off others dl lt = elim (Bool-cases (dl == cl)) [
        | inl at ↦ rw at off
        | inr other ↦ rw other (others dl lt (ground arith))
      ]

      only_first :
          (dl a : ℕ)
          → IsHeld C classes G g' (update objs cl xs) dl a
          → (a ≡ x) ⊎ IsHeld C classes G g objs dl a
      only_first dl a held = elim (Bool-cases (a == x)) [
        | inl at ↦ inl (ground arith)
        | inr other ↦
            let itself : (cl == cl) ≡ true = ground arith in
            let at_cl = held.listed cl here in
            let off : has a xs ≡ false = rw itself at at_cl in
            let out : has a (x ∷ xs) ≡ false = ground arith in
            inr (record {
              given = ground (arith, given dl a, held.given, out);
              listed = λ c lt.
                  let at_c = held.listed c lt in
                  elim (Bool-cases (c == cl)) [
                    | inr ne ↦ rw ne at at_c
                    | inl here_too ↦
                        let same_class : cl ≡ c = ground arith in
                        subst (λ k. has a (objs k) ≡ false) same_class (rw e refl)
                  ];
            })
      ]

      pub filled_result :
          (oom : ℕ → ℕ)
          → Given C classes G law size_of batch me n me_lt batch_ok oom cl g objs w
              (x, with_size me filled_size filled)
      unfolding Given Keeps IsNew
      filled_result oom =
          let first : has x (x ∷ xs) ≡ true = ground arith in
          (
            update objs cl xs,
            g',
            filled-Healthy,
            λ dl a held. (
              record {
                given = still_given dl a held.given;
                listed =
                    let off = not_among dl a held.given in
                    unlisted a (ground arith) (λ c lt ne. held.listed c lt);
              },
              filled_memory dl a held.given,
            ),
            inr (
              record {
                given = now_given x first;
                listed = unlisted x (chain.holds.distinct.0) (λ c lt ne.
                    elim (Bool-cases (has x (objs c))) [
                      | inl on ↦ absurd (cc (h.owns.own c x lt on, fresh c x first))
                      | inr off ↦ off
                    ]);
              },
              (head-Holds r.start x xs m chain.holds).1,
              λ dl a held at.
                  cc (subst (λ b. G.given g dl b ≡ true) at held.given, fresh dl x first),
              only_first,
            ),
          )
