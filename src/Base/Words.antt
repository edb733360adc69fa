-- ===== src/Base/Words.antt =====
-- 64-bit words as numbers below 2 ^ 64: unsigned sums and differences wrap.
use Prim.Native.Nat.{ℕ, ◌+◌, ◌-◌, ◌%◌, ◌^◌, ◌<◌}
use mathlib.Core.Path.{◌≡◌}
use mathlib.Core.Bool.{Bool, ◌&&◌}
use native.Mathlib.Omega.{arith}
use conan_tcmalloc.Base.Pow.{word}
use conan_tcmalloc.Base.Tests.{ltb, if◌then◌else◌}

unfoldable pub add64 : ℕ → ℕ → ℕ
add64 a b = (a + b) % word

-- The number subtracted is below 2 ^ 64.
unfoldable pub sub64 : ℕ → ℕ → ℕ
sub64 a b = (a + word - b) % word

-- A 64-bit length narrowed to `int` and widened again, and its test for > 0.
unfoldable pub int_of : ℕ → ℕ
int_of x = if ltb (x % 2 ^ 32) (2 ^ 31) then x % 2 ^ 32 else x % 2 ^ 32 + (word - 2 ^ 32)

unfoldable pub int_pos : ℕ → Bool
int_pos x = ltb 0 (x % 2 ^ 32) && ltb (x % 2 ^ 32) (2 ^ 31)

pub int_of-small : (x : ℕ) → x < 2 ^ 31 → int_of x ≡ x
unfolding int_of
int_of-small x h = ground arith

pub int_pos-small : (x : ℕ) → x < 2 ^ 31 → int_pos x ≡ ltb 0 x
unfolding int_pos
int_pos-small x h = ground arith

pub add64-lt : (a b : ℕ) → add64 a b < word
unfolding add64
add64-lt a b = omega arith

pub sub64-lt : (a b : ℕ) → sub64 a b < word
unfolding sub64
sub64-lt a b = omega arith
