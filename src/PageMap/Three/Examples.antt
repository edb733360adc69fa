-- ===== src/PageMap/Three/Examples.antt =====
-- A map of 64 keys, with one leaf of 4 keys.
use conan_tcmalloc.Base.{ℕ, ◌≡◌, refl, none, some, arith, ◌==◌, if◌then◌else◌}
use conan_tcmalloc.PageMap.Three.{
  PageMap3, interior_bits, interior_length, leaf_length, index1, index2, get, set,
}
use conan_tcmalloc.PageMap.Three.Access.{Ready, get-set_three}

abbrev tree : PageMap3 ℕ
tree = record {
  root = λ i.
      if i == 1
      then some (λ j. if j == 2 then some (λ l. if l == 3 then some 7 else none) else none)
      else none;
  calls = 2;
}

tree-Ready : Ready 6 tree 24
unfolding index1 index2 interior_length interior_bits leaf_length
tree-Ready = record { bound = omega arith; first = omega arith; leaf = refl }

get-set_three_example :
    (m : PageMap3 ℕ) × (set 6 tree 24 (some 9) ≡ some m)
    × ((j : ℕ) → get 6 m j ≡ (if j == 24 then some 9 else get 6 tree j))
    × ((j : ℕ) → Ready 6 tree j → Ready 6 m j)
get-set_three_example = get-set_three 6 tree 24 (some 9) tree-Ready
