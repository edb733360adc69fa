-- ===== src/ThreadCache/Budget.antt =====
-- IncreaseCacheLimit of src/src/thread_cache.cc.
use conan_tcmalloc.Base.{
  ℕ, zero, suc, ◌+◌, ◌%◌, ◌^◌, ◌<◌, ◌≡◌, ◌∙◌, ap, sym, refl, true, false, ◌&&◌, ◌||◌, some, ltb,
  leb, ◌==◌, arith, if◌then◌else◌, Bool-cases, inl, inr, sub64,
}
use conan_tcmalloc.PageMap.{update}
use conan_tcmalloc.PageHeap.Tally.{tally, tally-at}
use conan_tcmalloc.LinkedList.{Memory}
use conan_tcmalloc.ThreadCache.FreeList.{FreeList, add32, sub32}
use conan_tcmalloc.ThreadCache.Cache.{
  Central, Cache, World, with_list, with_size, set_max_size, steal_loop, increase_cache_limit,
  steal_amount, extend,
}

module _ {C : Central} where
  -- All but the limits of the caches is the same.
  pub record SameObjects (w w' : World C) : Type 0 where
    pub lists : (id dl : ℕ) → (w'.caches id).lists dl ≡ (w.caches id).lists dl
    pub size : (id : ℕ) → (w'.caches id).size ≡ (w.caches id).size
    pub next : (id : ℕ) → (w'.caches id).next ≡ (w.caches id).next
    pub memory : w'.memory ≡ w.memory
    pub central : w'.central ≡ w.central
    pub heaps : w'.thread_heaps ≡ w.thread_heaps

-- The limits of all caches below `n`, and what no cache claims, as 32-bit numbers.
abbrev limit_of : {C : Central} → World C → ℕ → ℕ
limit_of w id = (w.caches id).max_size

abbrev pub budget : {C : Central} → ℕ → World C → ℕ
budget n w = (tally (limit_of w) n + w.unclaimed) % 2 ^ 32

-- The caches of the process are numbered below `n`.
pub record Numbered {C : Central} (n : ℕ) (w : World C) : Type 0 where
  pub first_pos : 0 < w.thread_heaps
  pub first_lt : w.thread_heaps < n
  pub steal_lt : w.next_steal < n
  pub next_lt : (id : ℕ) → (w.caches id).next < n
  pub limit_lt : (id : ℕ) → (w.caches id).max_size < 2 ^ 32

module _ {C : Central} where
  set_limit :
      (id v n : ℕ) (w : World C)
      → id < n
      → tally (limit_of (set_max_size C id v w)) n + (w.caches id).max_size
        ≡ tally (limit_of w) n + v
  set_limit id v n w lt =
      let itself : (id == id) ≡ true = ground arith in
      let now : limit_of (set_max_size C id v w) id ≡ v = rw (itself, limit_of) refl in
      tally-at (limit_of w) (limit_of (set_max_size C id v w)) id n lt
        (λ q ne. let other : (q == id) ≡ false = ground arith in rw (other, limit_of) refl)
      ∙ ap (λ k. tally (limit_of w) n + k) now

  set_limit-SameObjects : (id v : ℕ) (w : World C) → SameObjects w (set_max_size C id v w)
  set_limit-SameObjects id v w =
      let same : (q : ℕ) → (q == id) ≡ true → q ≡ id = λ q at. ground arith in
      record {
        lists = λ q dl. elim (Bool-cases (q == id)) [
          | inl at ↦ rw at (ap (λ k. (w.caches k).lists dl) (sym (same q at)))
          | inr other ↦ rw other refl
        ];
        size = λ q. elim (Bool-cases (q == id)) [
          | inl at ↦ rw at (ap (λ k. (w.caches k).size) (sym (same q at)))
          | inr other ↦ rw other refl
        ];
        next = λ q. elim (Bool-cases (q == id)) [
          | inl at ↦ rw at (ap (λ k. (w.caches k).next) (sym (same q at)))
          | inr other ↦ rw other refl
        ];
        memory = refl;
        central = refl;
        heaps = refl;
      }

  set_limit-Numbered :
      (id v n : ℕ) (w : World C) → v < 2 ^ 32 → Numbered n w → Numbered n (set_max_size C id v w)
  set_limit-Numbered id v n w small k = record {
    first_pos = k.first_pos;
    first_lt = k.first_lt;
    steal_lt = k.steal_lt;
    next_lt = λ q. elim (Bool-cases (q == id)) [
      | inl at ↦ rw at (k.next_lt id)
      | inr other ↦ rw other (k.next_lt q)
    ];
    limit_lt = λ q. elim (Bool-cases (q == id)) [
      | inl at ↦ rw at small
      | inr other ↦ rw other (k.limit_lt q)
    ];
  }

  -- A change of a cache that keeps its limit and what is next.
  with_cache-Numbered :
      (me n : ℕ) (w : World C) (c : Cache) (m : Memory) (st : C.State)
      → c.next ≡ (w.caches me).next
      → c.max_size ≡ (w.caches me).max_size
      → Numbered n w
      → Numbered n (record w { caches = update w.caches me c; memory = m; central = st })
  with_cache-Numbered me n w c m st en em k = record {
    first_pos = k.first_pos;
    first_lt = k.first_lt;
    steal_lt = k.steal_lt;
    next_lt = λ q. elim (Bool-cases (q == me)) [
      | inl at ↦ rw (at, en) (k.next_lt me)
      | inr other ↦ rw other (k.next_lt q)
    ];
    limit_lt = λ q. elim (Bool-cases (q == me)) [
      | inl at ↦ rw (at, em) (k.limit_lt me)
      | inr other ↦ rw other (k.limit_lt q)
    ];
  }

  pub with_list-Numbered :
      (me cl n : ℕ) (f : FreeList) (w : World C) (m : Memory) (st : C.State)
      → Numbered n w
      → Numbered n (record (with_list me cl f w) { memory = m; central = st })
  with_list-Numbered me cl n f w m st k =
      with_cache-Numbered me n w (record (w.caches me) { lists = update (w.caches me).lists cl f })
        m st refl refl k

  pub with_size-Numbered :
      (me n size : ℕ) (w : World C) → Numbered n w → Numbered n (with_size me size w)
  with_size-Numbered me n size w k =
      with_cache-Numbered me n w (record (w.caches me) { size = size }) w.memory w.central refl refl
        k

  module _ (me n : ℕ) (me_lt : me < n) where
    pub record Kept (w w' : World C) : Type 0 where
      pub same : SameObjects w w'
      pub numbered : Numbered n w'
      pub total : budget n w' ≡ budget n w

    SameObjects-trans : (u v w : World C) → SameObjects u v → SameObjects v w → SameObjects u w
    SameObjects-trans u v w a b = record {
      lists = λ id dl. b.lists id dl ∙ a.lists id dl;
      size = λ id. b.size id ∙ a.size id;
      next = λ id. b.next id ∙ a.next id;
      memory = b.memory ∙ a.memory;
      central = b.central ∙ a.central;
      heaps = b.heaps ∙ a.heaps;
    }

    -- From what no cache claims.
    claim-Kept :
        (w : World C)
        → Numbered n w
        → w.unclaimed < 2 ^ 63
        → Kept w (
            set_max_size C me
              (add32 (w.caches me).max_size steal_amount)
              (record w { unclaimed = sub64 w.unclaimed steal_amount }))
    unfolding add32 sub64
    claim-Kept w k small =
        let v = record w { unclaimed = sub64 w.unclaimed steal_amount } in
        let more = add32 (w.caches me).max_size steal_amount in
        let same = set_limit-SameObjects me more v in
        record {
          same = record {
            lists = same.lists;
            size = same.size;
            next = same.next;
            memory = refl;
            central = refl;
            heaps = refl;
          };
          numbered = set_limit-Numbered me more n v (omega arith) (record {
            first_pos = k.first_pos;
            first_lt = k.first_lt;
            steal_lt = k.steal_lt;
            next_lt = k.next_lt;
            limit_lt = k.limit_lt;
          });
          total = omega (arith, set_limit me more n v me_lt);
        }

    -- From another cache.
    stolen-Kept :
        (w : World C) (victim : ℕ)
        → Numbered n w
        → victim < n
        → let smaller = set_max_size C victim (sub32 (w.caches victim).max_size steal_amount) w in
          let larger =
            set_max_size C me (add32 (smaller.caches me).max_size steal_amount) smaller in
          Kept w (record larger { next_steal = (w.caches victim).next })
    unfolding add32 sub32
    stolen-Kept w victim k lt =
        let less = sub32 (w.caches victim).max_size steal_amount in
        let smaller = set_max_size C victim less w in
        let more = add32 (smaller.caches me).max_size steal_amount in
        let larger = set_max_size C me more smaller in
        let k₁ = set_limit-Numbered victim less n w (omega arith) k in
        let k₂ = set_limit-Numbered me more n smaller (omega arith) k₁ in
        let same =
          SameObjects-trans w smaller larger (set_limit-SameObjects victim less w)
            (set_limit-SameObjects me more smaller) in
        let taken = set_limit victim less n w lt in
        let given = set_limit me more n smaller me_lt in
        record {
          same = record {
            lists = same.lists;
            size = same.size;
            next = same.next;
            memory = refl;
            central = refl;
            heaps = refl;
          };
          numbered = record {
            first_pos = k₂.first_pos;
            first_lt = k₂.first_lt;
            steal_lt = k.next_lt victim;
            next_lt = k₂.next_lt;
            limit_lt = k₂.limit_lt;
          };
          total = omega (arith, taken, given, k.limit_lt victim, k₁.limit_lt me);
        }

    skipped-Kept :
        (w : World C) (victim : ℕ)
        → Numbered n w
        → Kept w (record w { next_steal = (w.caches victim).next })
    skipped-Kept w victim k = record {
      same = record {
        lists = λ id dl. refl;
        size = λ id. refl;
        next = λ id. refl;
        memory = refl;
        central = refl;
        heaps = refl;
      };
      numbered = record {
        first_pos = k.first_pos;
        first_lt = k.first_lt;
        steal_lt = k.next_lt victim;
        next_lt = k.next_lt;
        limit_lt = k.limit_lt;
      };
      total = refl;
    }

    Kept-trans : (u v w : World C) → Kept u v → Kept v w → Kept u w
    Kept-trans u v w a b = record {
      same = SameObjects-trans u v w a.same b.same;
      numbered = b.numbered;
      total = b.total ∙ a.total;
    }

    steal_loop-Kept :
        (rounds : ℕ) (w : World C)
        → Numbered n w
        → (w' : World C) × (steal_loop C rounds me w ≡ some w') × Kept w w'
    unfolding steal_loop
    steal_loop-Kept zero w k = (
      w,
      refl,
      record {
        same = record {
          lists = λ id dl. refl;
          size = λ id. refl;
          next = λ id. refl;
          memory = refl;
          central = refl;
          heaps = refl;
        };
        numbered = k;
        total = refl;
      },
    )
    steal_loop-Kept (suc rounds) w k =
        let victim = if w.next_steal == 0 then w.thread_heaps else w.next_steal in
        let pos : (victim == 0) ≡ false = ground (arith, k.first_pos) in
        let lt : victim < n = ground (arith, k.first_lt, k.steal_lt) in
        let poor = (victim == me) || leb (extend (w.caches victim).max_size) w.min_size in
        elim (Bool-cases poor) [
          | inr rich ↦ (_, rw (pos, rich) refl, stolen-Kept w victim k lt)
          | inl skip ↦
              let step = skipped-Kept w victim k in
              let next = record w { next_steal = (w.caches victim).next } in
              let (w', is, kept) = steal_loop-Kept rounds next step.numbered in
              (w', rw (pos, skip) is, Kept-trans w next w' step kept)
        ]

    -- IncreaseCacheLimit of a cache of the process always returns, changes no list, size_ or next_
    -- of any cache, no memory, not the central cache, and not which cache is first, and keeps the
    -- sum of all limits and the unclaimed space, on 32 bits.
    pub increase_cache_limit-Kept :
        (w : World C)
        → Numbered n w
        → (w' : World C) × (increase_cache_limit C me w ≡ some w') × Kept w w'
    unfolding increase_cache_limit
    increase_cache_limit-Kept w k =
        elim (Bool-cases (ltb 0 w.unclaimed && ltb w.unclaimed (2 ^ 63))) [
          | inl some_left ↦ (_, rw some_left refl, claim-Kept w k (ground arith))
          | inr none_left ↦
              let (w', is, kept) = steal_loop-Kept 10 w k in (w', rw none_left is, kept)
        ]
