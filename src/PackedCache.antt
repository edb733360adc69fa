-- ===== src/PackedCache.antt =====
-- src/src/packed-cache-inl.h: the direct-mapped cache from page numbers to size classes, with 16 hash
-- bits. Masks are remainders by powers of two; the upper part of a key has no bit in common with a
-- value or the invalid bit, so `|` adds. An entry and a key's upper part agree in all bits above the
-- value bits exactly if their `^` is less than 1 << kValuebits, and then the `^` is the value.
pub mod Laws
mod Examples
use conan_tcmalloc.Base.{ℕ, ◌+◌, ◌-◌, ◌/◌, ◌%◌, ◌^◌, Option, none, some, ◌==◌, if◌then◌else◌}
use conan_tcmalloc.PageMap.{update}

-- The array of entries, by hash.
abbrev pub PackedCache : Type 0
PackedCache = ℕ → ℕ

abbrev pub hash_bits : ℕ
hash_bits = 16

abbrev pub value_bits : ℕ
value_bits = 7

abbrev pub invalid_mask : ℕ
invalid_mask = 0x80

unfoldable pub hash : ℕ → ℕ
hash key = key % 2 ^ hash_bits

unfoldable pub key_to_upper : ℕ → ℕ
unfolding hash
key_to_upper key = key - hash key

-- memset writes the invalid bit into every byte.
unfoldable pub clear : PackedCache
clear i = 0x8080_8080_8080_8080

unfoldable pub try_get : PackedCache → ℕ → Option ℕ
unfolding key_to_upper
try_get c key =
    let entry = c (hash key) in
    if entry / 2 ^ value_bits == key_to_upper key / 2 ^ value_bits
    then some (entry % 2 ^ value_bits)
    else none

-- The assertion asks for a value below 1 << kValuebits.
unfoldable pub put : PackedCache → ℕ → ℕ → PackedCache
unfolding key_to_upper
put c key value = update c (hash key) (key_to_upper key + value)

unfoldable pub invalidate : PackedCache → ℕ → PackedCache
unfolding key_to_upper
invalidate c key = update c (hash key) (key_to_upper key + invalid_mask)
