-- ===== src/Base/Bits.antt =====
-- Laws of `bit_and` and `bit_or` at variables, from the digit recursion that they stand for.
use Prim.Native.Nat.{
  ℕ, zero, suc, ◌+◌, ◌-◌, ◌*◌, ◌/◌, ◌%◌, ◌^◌, ◌≤◌, ◌<◌, min, max, bit_and, bit_or, digits,
  bit_and-bitwise, bit_or-bitwise,
}
use mathlib.Core.Path.{◌≡◌, refl, ap, sym, ◌∙◌}
use mathlib.Core.Bool.{Bool, true, ◌&&◌}
use native.Mathlib.Nat.{
  pow-suc, one-le-pow, mul-add-mod_self_left, mod-eq_of_lt, mod-add-div, mod-lt, eq-or-lt_of_le,
}
use native.Mathlib.Omega.{arith}
use mathlib.Core.Logic.{inl, inr}

-- A test of all numbers from 0 up to `count`, by evaluation.
unfoldable pub table : (ℕ → Bool) → ℕ → Bool
table test zero = true
table test (suc last) = table test last && test last

pub table_covers :
    (test : ℕ → Bool) (i count : ℕ) → table test count ≡ true → i < count → test i ≡ true
unfolding table
table_covers test i zero holds below = absurd (omega arith)
table_covers test i (suc last) holds below = ground (arith, table_covers test i last)

module _ (rest : ℕ → ℕ) (op : ℕ → ℕ → ℕ) where
  -- A round of fuel more than there are digits does nothing.
  digits_spare : (n a b : ℕ) → a ≤ n → digits rest op (suc n) a b ≡ digits rest op n a b
  digits_spare zero zero b small = refl
  digits_spare zero (suc a) b small = absurd (omega arith)
  digits_spare (suc n) zero b small = refl
  digits_spare (suc n) (suc a) b small =
      ap (λ t. t * 2 + op (suc a % 2) (b % 2)) (digits_spare n (suc a / 2) (b / 2) (omega arith))

  digits_enough : (fuel a b : ℕ) → a ≤ fuel → digits rest op fuel a b ≡ digits rest op a a b
  digits_enough zero zero b small = refl
  digits_enough zero (suc a) b small = absurd (omega arith)
  digits_enough (suc n) a b small = elim (eq-or-lt_of_le small) [
    | inl same ↦ ap (λ m. digits rest op m a b) (sym same)
    | inr more ↦ digits_spare n a b (omega arith) ∙ digits_enough n a b (omega arith)
  ]

  lowest_digit :
      (a b : ℕ)
      → digits rest op (suc a) (suc a) b
        ≡ digits rest op (suc a / 2) (suc a / 2) (b / 2) * 2 + op (suc a % 2) (b % 2)
  lowest_digit a b =
      ap (λ t. t * 2 + op (suc a % 2) (b % 2)) (digits_enough a (suc a / 2) (b / 2) (omega arith))

-- The lowest digit of `a & b` and of `a | b`.
pub bit_and_low : (a b : ℕ) → bit_and a b ≡ 2 * bit_and (a / 2) (b / 2) + min (a % 2) (b % 2)
bit_and_low a b = simp bit_and-bitwise (by_cases a)
  where
    by_cases :
        (a : ℕ)
        → digits (λ y. zero) min a a b
          ≡ 2 * digits (λ y. zero) min (a / 2) (a / 2) (b / 2) + min (a % 2) (b % 2)
    by_cases zero = omega arith
    by_cases (suc a) = omega (arith, lowest_digit (λ y. zero) min a b)

pub bit_or_low : (a b : ℕ) → bit_or a b ≡ 2 * bit_or (a / 2) (b / 2) + max (a % 2) (b % 2)
bit_or_low a b = simp bit_or-bitwise (by_cases a)
  where
    by_cases :
        (a : ℕ)
        → digits (λ y. y) max a a b
          ≡ 2 * digits (λ y. y) max (a / 2) (a / 2) (b / 2) + max (a % 2) (b % 2)
    by_cases zero = omega arith
    by_cases (suc a) = omega (arith, lowest_digit (λ y. y) max a b)

-- What `x = n * q + r` with `r < n` says of the remainder.
pub mod_unique : (x n q r : ℕ) → x ≡ n * q + r → r < n → x % n ≡ r
mod_unique x n q r e h = rw (e, mul-add-mod_self_left) (mod-eq_of_lt h)

mod_double : (x p : ℕ) → 0 < p → x % (p * 2) ≡ x / 2 % p * 2 + x % 2
mod_double x p h =
    mod_unique x (p * 2) (x / 2 / p) (x / 2 % p * 2 + x % 2) (omega (arith, mod-add-div (x / 2) p))
      (omega (arith, mod-lt (x / 2) h))

-- Nothing is left of a number masked with 0.
digits-min-zero : (n x : ℕ) → digits (λ y. zero) min n x 0 ≡ 0
digits-min-zero zero x = refl
digits-min-zero (suc n) zero = refl
digits-min-zero (suc n) (suc x) = omega (arith, digits-min-zero n (suc x / 2))

mask_halves : (k : ℕ) → ((2 ^ suc k - 1) / 2 ≡ 2 ^ k - 1) × ((2 ^ suc k - 1) % 2 ≡ 1)
mask_halves k = omega (arith, pow-suc 2 k, one-le-pow k 2 (omega arith))

-- `x & (2 ^ k - 1)` is the remainder.
pub bit_and_low_mask : (k x : ℕ) → bit_and x (2 ^ k - 1) ≡ x % 2 ^ k
bit_and_low_mask zero x = bit_and-bitwise x 0 ∙ digits-min-zero x x ∙ omega arith
bit_and_low_mask (suc k) x = omega (
  arith,
  bit_and_low x (2 ^ suc k - 1),
  bit_and_low_mask k (x / 2),
  mod_double x (2 ^ k) (one-le-pow k 2 (omega arith)),
  masked,
)
  where
    masked :
        (bit_and (x / 2) ((2 ^ suc k - 1) / 2) ≡ bit_and (x / 2) (2 ^ k - 1))
        × ((2 ^ suc k - 1) % 2 ≡ 1)
        × (x % 2 ^ suc k ≡ x % (2 ^ k * 2))
    masked = (rw ((mask_halves k).0), (mask_halves k).1, rw pow-suc)
