-- ===== src/PackedCache/Examples.antt =====
-- Runs of the cache of src/src/src/packed-cache-inl.h. Pages 5 and 65541 have one hash.
use conan_tcmalloc.Base.{◌≡◌, none, some, arith, ◌==◌, if◌then◌else◌, List, [], ◌∷◌, ◌⊎◌}
use conan_tcmalloc.PackedCache.{hash, invalidate, clear, try_get, put}
use conan_tcmalloc.PackedCache.Laws.{
  try_get-put, try_get-invalidate, Op, puts, invalidates, run, last_said, run_sound,
}

try_get-put_example :
    try_get (put clear 5 3) 65541
    ≡ (if 65541 == 5 then some 3 else (if hash 65541 == hash 5 then none else try_get clear 65541))
try_get-put_example = try_get-put clear 5 3 65541 (omega arith)

try_get-invalidate_example :
    try_get (invalidate (put clear 6 3) 65541) 6
    ≡ (if hash 6 == hash 65541 then none else try_get (put clear 6 3) 6)
try_get-invalidate_example = try_get-invalidate (put clear 6 3) 65541 6

abbrev ops : List Op
ops = puts 65541 2 ∷ invalidates 9 ∷ puts 5 3 ∷ []

run_sound_example :
    (try_get (run ops) 65541 ≡ none) ⊎ (try_get (run ops) 65541 ≡ last_said ops 65541)
run_sound_example = run_sound ops 65541 (omega arith, (omega arith, tt))
