-- ===== src/ThreadCache/Allocate.antt =====
-- Allocate and FetchFromCentralCache of src/src/thread_cache.h and src/src/thread_cache.cc.
use conan_tcmalloc.Base.{
  ℕ, ◌-◌, ◌*◌, ◌%◌, ◌^◌, ◌≤◌, ◌<◌, ◌≡◌, ◌⊎◌, ◌∙◌, ap, sym, subst, refl, min, true, false, some,
  List, [], ◌∷◌, ◌==◌, if◌then◌else◌, arith, has, length, inl, inr,
}
use conan_tcmalloc.LinkedList.{Memory, sll_next}
use conan_tcmalloc.LinkedList.Laws.{sll_next-some, head-Holds}
use conan_tcmalloc.ThreadCache.FreeList.{FreeList, add32, push_range}
use conan_tcmalloc.ThreadCache.Lists.{Represents, try_pop-Taken}
use conan_tcmalloc.ThreadCache.Cache.{
  Central, World, Fetched, list_of, with_list, with_size, max_dynamic_length,
}
use conan_tcmalloc.ThreadCache.Traffic.{
  after_fetch, take_fetched, fetch_from_central_cache, allocate,
}
use conan_tcmalloc.ThreadCache.Invariant.{Chain, Ghosts, IsLawful, IsHeld}
use conan_tcmalloc.ThreadCache.Owned.{Represents-frame}
use conan_tcmalloc.ThreadCache.Health.{Healthy}
use conan_tcmalloc.ThreadCache.Given.{Keeps, Given}
use conan_tcmalloc.ThreadCache.Taken.{taken-Given}
use conan_tcmalloc.ThreadCache.Filled.{objects, filled_size, filled, filled_result}

List-cases : (xs : List ℕ) → (xs ≡ []) ⊎ ((x : ℕ) × (ys : List ℕ) × (xs ≡ x ∷ ys))
List-cases [] = inl refl
List-cases (x ∷ xs) = inr (x, xs, refl)

module _ (C : Central) (classes : ℕ) (G : Ghosts C) (law : IsLawful C classes G)
    (size_of batch : ℕ → ℕ) (me n : ℕ) (me_lt : me < n)
    (batch_ok : (cl : ℕ)
      → 0 < cl
      → cl < classes
      → (0 < batch cl) × (batch cl ≤ max_dynamic_length)) where
  abbrev K : G.Ghost → (ℕ → List ℕ) → World C → Type 0
  K = Healthy C classes G law size_of batch me n me_lt batch_ok

  abbrev Held : G.Ghost → (ℕ → List ℕ) → ℕ → ℕ → Type 0
  Held = IsHeld C classes G

  -- The run on objects that came.
  taken_run :
      (oom : ℕ → ℕ) (cl : ℕ) (r : Fetched) (next : ℕ) (f f₀ : FreeList) (m' : Memory) (v : World C)
      → (r.count == 0) ≡ false
      → sll_next r.start v.memory ≡ some next
      → push_range (r.count - 1) next r.end f₀ v.memory ≡ some (f, m')
      → take_fetched C size_of batch classes me oom cl (size_of cl % 2 ^ 32) f₀ r v
        ≡ some (
          r.start,
          with_size me
              (add32 (v.caches me).size ((size_of cl % 2 ^ 32 * (r.count - 1)) % 2 ^ 32))
              (record (with_list me cl (after_fetch (batch cl) f) v) { memory = m' }),
        )
  unfolding take_fetched
  taken_run oom cl r next f f₀ m' v more at is =
      let itself : (me == me) ≡ true = ground arith in rw (more, at, is, itself) refl

  -- Nothing came: the memory and the central cache may have changed.
  unfilled-Healthy :
      (g g' : G.Ghost) (objs : ℕ → List ℕ) (w : World C) (st : C.State) (m : Memory)
      → K g objs w
      → G.Valid g' st m
      → ((dl a : ℕ) → G.given g' dl a ≡ G.given g dl a)
      → ((dl a : ℕ) → G.given g dl a ≡ true → m a ≡ w.memory a)
      → K g' objs (record w { central = st; memory = m })
  unfilled-Healthy g g' objs w st m h valid given kept = record {
    owns = record {
      lists = λ dl lt.
          Represents-frame w.memory _ (list_of me dl w) (objs dl)
            (λ a on. kept dl a (h.owns.own dl a lt on)) (h.owns.lists dl lt);
      apart = h.owns.apart;
      own = λ dl a lt on. given dl a ∙ h.owns.own dl a lt on;
      valid = valid;
    };
    sized = h.sized;
    sizes = h.sizes;
    limits = h.limits;
    unused = h.unused;
    numbered = record {
      first_pos = h.numbered.first_pos;
      first_lt = h.numbered.first_lt;
      steal_lt = h.numbered.steal_lt;
      next_lt = h.numbered.next_lt;
      limit_lt = h.numbered.limit_lt;
    };
  }

  module _ (oom : ℕ → ℕ) (cl : ℕ) (g : G.Ghost) (objs : ℕ → List ℕ) (w : World C) (used : 0 < cl)
      (here : cl < classes) (h : K g objs w) (e : objs cl ≡ [])
      (size_lt : size_of cl < 2 ^ 32) where
    abbrev wanted : ℕ
    wanted = min (list_of me cl w).max_length (batch cl)

    wanted_pos : 0 < wanted
    wanted_pos =
        let (pos, le) = batch_ok cl used here in
        let (some_limit, small) = h.limits cl here in ground arith

    wanted_small : wanted < 2 ^ 32
    wanted_small = let (some_limit, small) = h.limits cl here in ground arith

    module _ (g' : G.Ghost) (r : Fetched) (st : C.State) (m : Memory) (valid : G.Valid g' st m)
        (kept : (dl a : ℕ) → G.given g dl a ≡ true → m a ≡ w.memory a) where
      abbrev Result : Type 0
      Result =
          (x : ℕ × World C) × (take_fetched C size_of batch classes me oom cl (size_of cl % 2 ^ 32)
              (list_of me cl w) r (record w { central = st; memory = m })
            ≡ some x)
          × Given C classes G law size_of batch me n me_lt batch_ok oom cl g objs w x

      none_fetched : r.count ≡ 0 → ((dl a : ℕ) → G.given g' dl a ≡ G.given g dl a) → Result
      unfolding take_fetched Given Keeps
      none_fetched z given =
          let none_there : (r.count == 0) ≡ true = ground arith in
          (
            (oom (size_of cl % 2 ^ 32), record w { central = st; memory = m }),
            rw none_there refl,
            (
              objs,
              g',
              unfilled-Healthy g g' objs w st m h valid given kept,
              λ dl a held. (
                record { given = given dl a ∙ held.given; listed = held.listed },
                kept dl a held.given,
              ),
              inl (
                refl,
                λ dl a held. record { given = sym (given dl a) ∙ held.given; listed = held.listed },
              ),
            ),
          )

      some_fetched :
          (x : ℕ) (xs : List ℕ)
          → Chain m r.start r.end r.count (x ∷ xs)
          → r.count ≤ wanted
          → ((dl a : ℕ) → G.given g' dl a ≡ (if has a (x ∷ xs) then cl == dl else G.given g dl a))
          → ((dl a : ℕ) → has a (x ∷ xs) ≡ true → G.given g dl a ≡ false)
          → Result
      unfolding take_fetched
      some_fetched x xs chain le given fresh =
          let small : r.count < 2 ^ 32 = omega (arith, wanted_small) in
          let (at, ne, held) = head-Holds r.start x xs m chain.holds in
          let more : (r.count == 0) ≡ false = ground (arith, chain.counts) in
          let (f, m', is, rep, same, frame) =
            objects C classes G law size_of batch me n me_lt batch_ok cl g g' objs w used here h e r
              st m x xs chain small size_lt valid given fresh kept in
          let v =
            with_size me
              (filled_size C classes G law size_of batch me n me_lt batch_ok cl g g' objs w used
                here h e r st m x xs chain small size_lt valid given fresh kept f m' rep same frame)
              (filled C classes G law size_of batch me n me_lt batch_ok cl g g' objs w used here h e
                r st m x xs chain small size_lt valid given fresh kept f m' rep same frame) in
          (
            (r.start, v),
            taken_run oom cl r (m x) f (list_of me cl w) m' (record w { central = st; memory = m })
                more (ap (λ p. sll_next p m) at ∙ sll_next-some x m ne) is,
            subst
                (λ p.
                  Given C classes G law size_of batch me n me_lt batch_ok oom cl g objs w (p, v))
                (sym at)
                (filled_result C classes G law size_of batch me n me_lt batch_ok cl g g' objs w used
                  here h e r st m x xs chain small size_lt valid given fresh kept f m' rep same
                  frame oom),
          )

    -- FetchFromCentralCache for a list that is empty.
    fetch-Given :
        (r : ℕ × World C) × (fetch_from_central_cache C size_of batch classes me oom cl
            (size_of cl % 2 ^ 32)
            w
          ≡ some r)
        × Given C classes G law size_of batch me n me_lt batch_ok oom cl g objs w r
    unfolding fetch_from_central_cache
    fetch-Given =
        let (g', r, st, m, xs, is, valid, gives, given, fresh, kept) =
          law.remove cl wanted g w.central w.memory used here wanted_pos h.owns.valid in
        rw is (elim (List-cases xs) [
          | inl nothing ↦
              let none_there : r.count ≡ 0 = elim (gives.chain) [
                | inl z ↦ z
                | inr chain ↦ chain.counts ∙ ap length nothing
              ] in
              none_fetched g' r st m valid kept none_there (λ dl a. given dl a ∙ rw nothing refl)
          | inr (x, rest, there) ↦
              let chain : Chain m r.start r.end r.count (x ∷ rest) = elim (gives.chain) [
                | inl z ↦ absurd (cc (gives.empty z, there))
                | inr c ↦ subst (Chain m r.start r.end r.count) there c
              ] in
              some_fetched g' r st m valid kept x rest chain gives.most
                (subst
                  (λ ys.
                    (dl a : ℕ) → G.given g' dl a ≡ (if has a ys then cl == dl else G.given g dl a))
                  there given)
                (subst (λ ys. (dl a : ℕ) → has a ys ≡ true → G.given g dl a ≡ false) there fresh)
        ])

  -- For a thread whose lists are in order, over a central cache with the laws, and with batches
  -- from 1 to kMaxDynamicFreeListLength, Allocate with the size of a class other than 0, below
  -- 2^32, always returns and the lists are in order, with size_ the total of their objects on 32
  -- bits. The result is what the handler for a lack of memory gives, and the program has no object
  -- more, or an object of the class that is not nullptr, is in no list, and is none that the
  -- program had, and the program has no other one more; what the program had it still has, and it
  -- is not written to.
  pub allocate-Given :
      (oom : ℕ → ℕ) (cl : ℕ) (g : G.Ghost) (objs : ℕ → List ℕ) (w : World C)
      → 0 < cl
      → cl < classes
      → K g objs w
      → size_of cl < 2 ^ 32
      → (r : ℕ × World C) × (allocate C size_of batch classes me oom (size_of cl) cl w ≡ some r)
        × Given C classes G law size_of batch me n me_lt batch_ok oom cl g objs w r
  unfolding allocate
  allocate-Given oom cl g objs w used here h size_lt = elim (List-cases (objs cl)) [
    | inr (x, xs, e) ↦
        taken-Given C classes G law size_of batch me n me_lt batch_ok oom x xs cl g objs w used here
          h e
    | inl e ↦
        let nothing = subst (Represents w.memory (list_of me cl w)) e (h.owns.lists cl here) in
        let is = try_pop-Taken [] (list_of me cl w) w.memory nothing in
        rw is (fetch-Given oom cl g objs w used here h e size_lt)
  ]
