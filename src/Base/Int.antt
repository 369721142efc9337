-- ===== src/Base/Int.antt =====
-- Signed integers over the native numbers, under the library's names: C++ `int` values.
use Prim.Native.Nat.{ℕ, suc, ◌+◌, ◌-◌, ◌%◌, ◌^◌, ◌≤◌, ◌<◌}
use mathlib.Core.Bool.{Bool, ◌&&◌, ◌||◌}
use mathlib.Core.Option.{Option, none, some}
use musi_tui.Base.Tests.{ltb, leb, if◌then◌else◌}

-- `negsuc n` is -(n + 1).
pub data ℤ : Type 0 where
  pos : ℕ → ℤ
  negsuc : ℕ → ℤ

abbrev pub pos_part : ℤ → ℕ
pos_part (pos n) = n
pos_part (negsuc n) = 0

abbrev pub neg_part : ℤ → ℕ
neg_part (pos n) = 0
neg_part (negsuc n) = suc n

abbrev pub sub_ℕ : ℕ → ℕ → ℤ
sub_ℕ a b = if leb b a then pos (a - b) else negsuc (b - a - 1)

infixl 65 ◌+ℤ◌ ◌-ℤ◌
infix 50 ◌≤ℤ◌ ◌<ℤ◌
abbrev pub ◌+ℤ◌ : ℤ → ℤ → ℤ
a +ℤ b = sub_ℕ (pos_part a + pos_part b) (neg_part a + neg_part b)

abbrev pub ◌-ℤ◌ : ℤ → ℤ → ℤ
a -ℤ b = sub_ℕ (pos_part a + neg_part b) (neg_part a + pos_part b)

abbrev pub ◌≤ℤ◌ : ℤ → ℤ → Type 0
a ≤ℤ b = pos_part a + neg_part b ≤ pos_part b + neg_part a

abbrev pub ◌<ℤ◌ : ℤ → ℤ → Type 0
a <ℤ b = pos_part a + neg_part b < pos_part b + neg_part a

abbrev pub ltb_ℤ : ℤ → ℤ → Bool
ltb_ℤ a b = ltb (pos_part a + neg_part b) (pos_part b + neg_part a)

abbrev pub leb_ℤ : ℤ → ℤ → Bool
leb_ℤ a b = leb (pos_part a + neg_part b) (pos_part b + neg_part a)

abbrev pub eq_ℤ : ℤ → ℤ → Bool
eq_ℤ a b = leb_ℤ a b && leb_ℤ b a

-- `static_cast<int>` of an unsigned number
abbrev pub as_int : ℕ → ℤ
as_int n = if ltb (n % 2 ^ 32) (2 ^ 31) then pos (n % 2 ^ 32) else sub_ℕ (n % 2 ^ 32) (2 ^ 32)

-- `std::clamp`
abbrev pub clamp : ℤ → ℤ → ℤ → ℤ
clamp x lo hi = if ltb_ℤ x lo then lo else if ltb_ℤ hi x then hi else x

-- The values of a 32-bit `int`.
abbrev pub int_max : ℤ
int_max = pos (2 ^ 31 - 1)

abbrev pub int_min : ℤ
int_min = negsuc (2 ^ 31 - 1)

abbrev pub IsInt : ℤ → Type 0
IsInt a = (int_min ≤ℤ a) × (a ≤ℤ int_max)

-- `int` addition; `none` is the undefined behaviour of an overflow.
abbrev pub add_int : ℤ → ℤ → Option ℤ
add_int a b = if ltb_ℤ (a +ℤ b) int_min || ltb_ℤ int_max (a +ℤ b) then none else some (a +ℤ b)
