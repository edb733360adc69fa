-- ===== src/PageMap/One.antt =====
-- TCMalloc_PageMap1 of src/src/pagemap.h, the flat array for small address spaces. `none` is an
-- access out of the array.
mod Examples
use conan_tcmalloc.Base.{
  ℕ, zero, suc, ◌+◌, ◌/◌, ◌%◌, ◌-◌, ◌^◌, ◌≤◌, ◌<◌, ◌≡◌, refl, Bool, true, false, Option, none, some,
  arith, ltb, leb, ◌==◌, if◌then◌else◌, word, sub64, Option-cases, Bool-cases, inl, inr, ltb→lt,
  not_ltb→le, pow_pos, div_lt_of_lt_mul, lt_mul_of_div_lt,
}
use conan_tcmalloc.PageMap.{update, IsFirst, found, absent, IsFirst-skip}

-- The array, of which the first 2 ^ bits cells are there.
abbrev pub PageMap1 : Type 0 → Type 0
PageMap1 V = ℕ → Option V

-- LENGTH and 1 << BITS as 64-bit words: an `int`, of which the sign is extended.
unfoldable pub length : ℕ → ℕ
length bits = let n = 2 ^ bits % 2 ^ 32 in if ltb n (2 ^ 31) then n else n + (word - 2 ^ 32)

length_small : (bits : ℕ) → 2 ^ bits < 2 ^ 31 → length bits ≡ 2 ^ bits
unfolding length
length_small bits small = ground arith

-- LENGTH - x is a subtraction on 64-bit words. The second number is what Ensure is asked for.
unfoldable pub ensure : (bits x n : ℕ) → Bool
unfolding length
ensure bits x n = leb n (sub64 (length bits) x)

-- For BITS below 31 and a range that starts in the flat map, or right behind it, Ensure says
-- whether it ends in the map; for one that starts later the difference of the 64-bit words wraps,
-- and the answer is whether its length is at most that.
pub ensure-fits :
    (bits x n : ℕ)
    → 2 ^ bits < 2 ^ 31
    → x < word
    → ensure bits x n
      ≡ (if leb x (2 ^ bits) then leb (x + n) (2 ^ bits) else leb n (2 ^ bits + word - x))
unfolding ensure sub64
ensure-fits bits x n w h = rw (length_small bits w) (ground arith)

module _ (bits : ℕ) {V : Type 0} where
  abbrev pub empty : PageMap1 V
  empty k = none

  unfoldable pub get : PageMap1 V → ℕ → Option V
  get m k = if ltb 0 (k / 2 ^ bits) then none else m k

  unfoldable pub set : PageMap1 V → ℕ → Option V → Option (PageMap1 V)
  set m k v = if ltb k (2 ^ bits) then some (update m k v) else none

  -- while (k < (1 << BITS)), with the rounds left.
  unfoldable pub next_loop : ℕ → PageMap1 V → ℕ → Option V
  unfolding length
  next_loop zero m k = none
  next_loop (suc rounds) m k =
      if ltb k (length bits)
      then (elim (m k) [ some v ↦ some v | none ↦ next_loop rounds m (k + 1) ])
      else none

  unfoldable pub next : PageMap1 V → ℕ → Option V
  unfolding next_loop
  next m k = next_loop (2 ^ bits - k) m k

  get-in : (m : PageMap1 V) (k : ℕ) → k < 2 ^ bits → get m k ≡ m k
  unfolding get
  get-in m k h = ground (arith, div_lt_of_lt_mul k 1 (2 ^ bits) (pow_pos bits))

  get-above : (m : PageMap1 V) (k : ℕ) → 2 ^ bits ≤ k → get m k ≡ none
  unfolding get
  get-above m k h = ground (arith, lt_mul_of_div_lt k 1 (2 ^ bits) (pow_pos bits))

  -- A write to a number of the flat map succeeds; a read then gives the value there and what it
  -- gave before at every other number.
  pub get-set_flat :
      (m : PageMap1 V) (k : ℕ) (v : Option V)
      → k < 2 ^ bits
      → (m' : PageMap1 V) × (set m k v ≡ some m')
        × ((j : ℕ) → get m' j ≡ (if j == k then v else get m j))
  unfolding set
  get-set_flat m k v h = (
    update m k v,
    ground arith,
    λ j. elim (Bool-cases (ltb j (2 ^ bits))) [
      | inl lt ↦ rw (get-in (update m k v) j (ltb→lt _ _ lt), get-in m j (ltb→lt _ _ lt)) refl
      | inr ge ↦
          rw (get-above (update m k v) j (not_ltb→le _ _ ge), get-above m j (not_ltb→le _ _ ge))
            (ground (arith))
    ],
  )

  next_loop-IsFirst :
      (rounds : ℕ) (m : PageMap1 V) (k : ℕ)
      → 2 ^ bits < 2 ^ 31
      → 2 ^ bits ≤ k + rounds
      → IsFirst (get m) k (next_loop rounds m k)
  unfolding next_loop get
  next_loop-IsFirst zero m k small h = absent (λ i p. get-above m i (omega arith))
  next_loop-IsFirst (suc rounds) m k small h =
      let len = length_small bits small in
      elim (Bool-cases (ltb k (2 ^ bits))) [
        | inr out ↦
            rw (len, out) (absent (λ i p. get-above m i (omega (arith, not_ltb→le _ _ out))))
        | inl in_map ↦ elim (Option-cases (m k)) [
          | inr (v, e) ↦
              rw (len, in_map, e)
                (found {v = v} k (omega arith) (rw (get-in m k (ltb→lt _ _ in_map)) e)
                  (λ i p q. absurd (omega arith)))
          | inl e ↦
              rw (len, in_map, e, next_loop)
                (IsFirst-skip k (k + 1) (omega arith)
                  (λ i p q.
                    let same : i ≡ k = omega arith in rw (same, get-in m k (ltb→lt _ _ in_map)) e)
                  (next_loop-IsFirst rounds m (k + 1) small (omega arith)))
        ]
      ]

  -- In the flat map Next gives the pointer at the least number from k on that holds one, or
  -- nullptr if no such number is in the map. BITS is below 31.
  pub next-IsFirst_flat :
      (m : PageMap1 V) (k : ℕ) → 2 ^ bits < 2 ^ 31 → IsFirst (get m) k (next m k)
  unfolding next
  next-IsFirst_flat m k small = next_loop-IsFirst (2 ^ bits - k) m k small (omega arith)
