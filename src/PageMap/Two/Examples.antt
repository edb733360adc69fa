-- ===== src/PageMap/Two/Examples.antt =====
-- A map of 16 keys in 4 leaves, of which the first is there.
use conan_tcmalloc.Base.{
  ℕ, ◌+◌, ◌≡◌, refl, Bool, Option, none, some, arith, ltb, ◌-◌, ◌==◌, if◌then◌else◌,
}
use conan_tcmalloc.PageMap.{IsFirst}
use conan_tcmalloc.PageMap.Two.{PageMap2, leaf_length, root_length, get, set, ensure, next, Ready}
use conan_tcmalloc.PageMap.Two.Access.{get-set}
use conan_tcmalloc.PageMap.Two.Ensure.{Outcome, ensure-Outcome}
use conan_tcmalloc.PageMap.Two.Scan.{next-IsFirst}

abbrev small : PageMap2 ℕ
small = record {
  root = λ i. if i == 0 then some (λ k. if k == 3 then some 7 else none) else none;
  calls = 1;
}

small-Ready : Ready 4 small 2
unfolding leaf_length root_length
small-Ready = record { bound = omega arith; leaf = refl }

get-set_example :
    (m : PageMap2 ℕ) × (set 4 small 2 (some 9) ≡ some m)
    × ((j : ℕ) → get 4 m j ≡ (if j == 2 then some 9 else get 4 small j))
    × ((j : ℕ) → Ready 4 small j → Ready 4 m j)
get-set_example = get-set 4 small 2 (some 9) small-Ready

-- The third request is refused.
abbrev grants : ℕ → Bool
grants i = ltb i 2

ensure-Outcome_example :
    (ok : Bool) × (m : PageMap2 ℕ) × (ensure 4 grants 2 13 small ≡ some (ok, m))
    × Outcome 4 grants small 2 (2 + 13 - 1) ok m
ensure-Outcome_example = ensure-Outcome 4 grants 2 13 small (omega arith) (omega arith)

next-IsFirst_example : (r : Option ℕ) × (next 4 small 1 ≡ some r) × IsFirst (get 4 small) 1 r
next-IsFirst_example = next-IsFirst 4 small 1
