-- ===== src/PackedCache/Laws.antt =====
-- What the cache of src/src/packed-cache-inl.h answers after each operation, and why it may be trusted.
use conan_tcmalloc.Base.{
  ℕ, ◌^◌, ◌<◌, ◌≡◌, Option, none, some, arith, ◌==◌, if◌then◌else◌, List, [], ◌∷◌, ◌⊎◌, inl,
}
use conan_tcmalloc.PackedCache.{PackedCache, value_bits, hash, clear, try_get, put, invalidate}

-- After a Put of a value below 1 << kValuebits the key has the value, another key of its hash is a
-- miss, and all others are as before.
pub try_get-put :
    (c : PackedCache) (key value j : ℕ)
    → value < 2 ^ value_bits
    → try_get (put c key value) j
      ≡ (if j == key then some value else (if hash j == hash key then none else try_get c j))
unfolding try_get put
try_get-put c key value j h = ground arith

-- After an Invalidate every key of the same hash is a miss, and all others are as before.
pub try_get-invalidate :
    (c : PackedCache) (key j : ℕ)
    → try_get (invalidate c key) j ≡ (if hash j == hash key then none else try_get c j)
unfolding try_get invalidate
try_get-invalidate c key j = ground arith

pub try_get-clear : (j : ℕ) → try_get clear j ≡ none
unfolding try_get clear
try_get-clear j = ground arith

-- The operations as they are called.
pub data Op : Type 0 where
  puts : ℕ → ℕ → Op
  invalidates : ℕ → Op

pub run : List Op → PackedCache
run [] = clear
run (puts key value ∷ ops) = put (run ops) key value
run (invalidates key ∷ ops) = invalidate (run ops) key

-- What was said last of a key, the latest operation standing first.
pub last_said : List Op → ℕ → Option ℕ
last_said [] j = none
last_said (puts key value ∷ ops) j = if j == key then some value else last_said ops j
last_said (invalidates key ∷ ops) j = if j == key then none else last_said ops j

abbrev pub AreValues : List Op → Type 0
AreValues [] = Unit {0}
AreValues (puts key value ∷ ops) = (value < 2 ^ value_bits) × AreValues ops
AreValues (invalidates key ∷ ops) = AreValues ops

-- After any sequence of Put and Invalidate from the cleared cache, with values below 1 <<
-- kValuebits, a hit gives what was put last for exactly that key, with no invalidation of it
-- since.
pub run_sound :
    (ops : List Op) (j : ℕ)
    → AreValues ops
    → (try_get (run ops) j ≡ none) ⊎ (try_get (run ops) j ≡ last_said ops j)
unfolding run last_said
run_sound [] j v = inl (try_get-clear j)
run_sound (puts key value ∷ ops) j v =
    ground (arith, try_get-put (run ops) key value j v.0, run_sound ops j v.1)
run_sound (invalidates key ∷ ops) j v =
    ground (arith, try_get-invalidate (run ops) key j, run_sound ops j v)
