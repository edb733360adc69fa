-- ===== src/Base/Pow.antt =====
-- Powers of two, words, and division by a power.
use Prim.Native.Nat.{ℕ, zero, suc, ◌+◌, ◌*◌, ◌/◌, ◌%◌, ◌^◌, ◌≤◌, ◌<◌, ◌-◌}
use mathlib.Core.Path.{◌∙◌, sym, ◌≡◌, ap}
use native.Mathlib.Omega.{arith}
use native.Mathlib.Nat.{add-zero, add-suc, pow-suc, div-add-mod}

-- The values of a 64-bit word.
abbrev pub word : ℕ
word = 2 ^ 64

pub pow_pos : (n : ℕ) → 0 < 2 ^ n
pow_pos zero = omega arith
pow_pos (suc n) = omega (arith, pow_pos n)

pub pow_add : (m n : ℕ) → 2 ^ (m + n) ≡ 2 ^ m * 2 ^ n
pow_add m zero = rw add-zero (omega arith)
pow_add m (suc n) = simp (add-suc, pow-suc, pow_add m n) (grind arith)

pub div_mod_eq : (k l : ℕ) → l * (k / l) + k % l ≡ k
div_mod_eq k l = div-add-mod k l

pub mod_lt : (k l : ℕ) → 0 < l → k % l < l
mod_lt k l h = omega arith

pub div_lt_of_lt_mul : (k r l : ℕ) → 0 < l → k < r * l → k / l < r
div_lt_of_lt_mul k r l h lt = grind arith

pub lt_mul_of_div_lt : (k r l : ℕ) → 0 < l → k / l < r → k < r * l
lt_mul_of_div_lt k r l h lt = grind arith

pub div_unique : (k l q r : ℕ) → r < l → k ≡ q * l + r → k / l ≡ q
div_unique k l q r h e = grind arith

pub mod_unique : (k l q r : ℕ) → r < l → k ≡ q * l + r → k % l ≡ r
mod_unique k l q r h e = grind arith

pub eq_of_div_mod : (j k l : ℕ) → j / l ≡ k / l → j % l ≡ k % l → j ≡ k
eq_of_div_mod j k l d m = omega (arith, div_mod_eq j l, div_mod_eq k l, ap (λ n. l * n) d)

pub div_le_self : (k l : ℕ) → 0 < l → (k / l) * l ≤ k
div_le_self k l h = omega (arith, div_mod_eq k l)

pub lt_next_multiple : (k l : ℕ) → 0 < l → k < (k / l + 1) * l
lt_next_multiple k l h = omega (arith, div_mod_eq k l, mod_lt k l h)

pub div_mul_self : (q l : ℕ) → 0 < l → (q * l) / l ≡ q
div_mul_self q l h = div_unique (q * l) l q 0 h (omega arith)

-- Keys that lie between a key and the next multiple of `l` have the same quotient.
pub div_between : (k i l : ℕ) → 0 < l → k ≤ i → i < (k / l + 1) * l → i / l ≡ k / l
div_between k i l h p q =
    div_unique i l (k / l) (i - k / l * l) (omega (arith, div_le_self k l h))
      (omega (arith, div_le_self k l h))

pub div_eq_zero : (k l : ℕ) → k < l → k / l ≡ 0
div_eq_zero k l h = div_unique k l 0 k h (omega arith)

pub div_pos : (k l : ℕ) → 0 < l → l ≤ k → 0 < k / l
div_pos k l h p = grind arith

abbrev remainder : (k a b : ℕ) → ℕ
remainder k a b = k / a % b * a + k % a

digits-lt : (a b r s : ℕ) → r < b → s < a → r * a + s < a * b
digits-lt a b r s p q = grind arith

remainder-lt : (k a b : ℕ) → 0 < a → 0 < b → remainder k a b < a * b
remainder-lt k a b p q = digits-lt a b (k / a % b) (k % a) (mod_lt (k / a) b q) (mod_lt k a p)

digits : (a b r s t : ℕ) → a * (b * t + r) + s ≡ t * (a * b) + (r * a + s)
digits a b r s t =
    let e : a * (b * t + r) ≡ a * (b * t) + a * r = grind arith in
    let f : a * (b * t) ≡ t * (a * b) = grind arith in
    let g : a * r ≡ r * a = grind arith in omega (arith, e, f, g)

digits-eq : (k a b q r s t : ℕ) → a * q + s ≡ k → b * t + r ≡ q → k ≡ t * (a * b) + (r * a + s)
digits-eq k a b q r s t e f = sym e ∙ (ap (λ x. a * x + s) (sym f) ∙ digits a b r s t)

remainder-eq : (k a b : ℕ) → k ≡ k / a / b * (a * b) + remainder k a b
remainder-eq k a b =
    digits-eq k a b (k / a) (k / a % b) (k % a) (k / a / b) (div_mod_eq k a) (div_mod_eq (k / a) b)

-- Division by a product, by one factor after the other.
pub div_div : (k a b : ℕ) → 0 < a → 0 < b → k / (a * b) ≡ k / a / b
div_div k a b p q =
    div_unique k (a * b) (k / a / b) (remainder k a b) (remainder-lt k a b p q) (remainder-eq k a b)
