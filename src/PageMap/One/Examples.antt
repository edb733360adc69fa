-- ===== src/PageMap/One/Examples.antt =====
-- A flat map of 16 numbers.
use conan_tcmalloc.Base.{◌+◌, ◌^◌, ◌≡◌, arith, leb, word, ◌-◌, if◌then◌else◌, ℕ, none, some, ◌==◌}
use conan_tcmalloc.PageMap.{IsFirst}
use conan_tcmalloc.PageMap.One.{
  PageMap1, ensure, get, set, next, ensure-fits, get-set_flat, next-IsFirst_flat,
}

abbrev flat : PageMap1 ℕ
flat k = if k == 9 then some 5 else none

-- Behind the end of the map the difference wraps, and a range of one number passes.
ensure-fits_example :
    ensure 4 17 1 ≡ (if leb 17 (2 ^ 4) then leb (17 + 1) (2 ^ 4) else leb 1 (2 ^ 4 + word - 17))
ensure-fits_example = ensure-fits 4 17 1 (omega arith) (omega arith)

get-set_flat_example :
    (m : PageMap1 ℕ) × (set 4 flat 3 (some 8) ≡ some m)
    × ((j : ℕ) → get 4 m j ≡ (if j == 3 then some 8 else get 4 flat j))
get-set_flat_example = get-set_flat 4 flat 3 (some 8) (omega arith)

next-IsFirst_flat_example : IsFirst (get 4 flat) 4 (next 4 flat 4)
next-IsFirst_flat_example = next-IsFirst_flat 4 flat 4 (omega arith)
