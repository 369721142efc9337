-- ===== src/Base/Decimal.antt =====
-- Decimal text: `std::to_string`, `std::from_chars` and `std::stoi` on `int`.
use Prim.Native.Nat.{ℕ, zero, suc, ◌+◌, ◌-◌, ◌*◌, ◌/◌, ◌%◌, ◌≤◌}
use mathlib.Core.Path.{◌≡◌, refl, ◌∙◌, ap}
use mathlib.Core.Logic.{inl, inr}
use mathlib.Core.Bool.{Bool, true, false, ◌&&◌}
use mathlib.Core.List.{[], ◌∷◌}
use mathlib.Core.Option.{Option, none, some}
use native.Mathlib.Omega.{arith}
use musi_tui.Base.Tests.{ltb, leb, ◌==◌, if◌then◌else◌, Bool-cases}
use musi_tui.Base.Int.{ℤ, pos, negsuc, int_max, int_min, IsInt, leb_ℤ, sub_ℕ}
use musi_tui.Base.Text.{Text, is_space, drop_while, codes}
use musi_tui.Base.Lists.{is_empty}

abbrev pub is_digit : ℕ → Bool
is_digit c = leb b'0' c && leb c b'9'

-- The digits of `n` in front of `out`; fuel above `n` is enough.
pub decimal : ℕ → ℕ → Text → Text
decimal zero n out = (b'0' + n % 10) ∷ out
decimal (suc f) n out =
    let rest = decimal f (n / 10) ((b'0' + n % 10) ∷ out) in
    if ltb n 10 then (b'0' + n) ∷ out else rest

unfoldable pub to_string_ℕ : ℕ → Text
unfolding decimal
to_string_ℕ n = decimal n n []

unfoldable pub to_string : ℤ → Text
unfolding to_string_ℕ
to_string (pos n) = to_string_ℕ n
to_string (negsuc n) = b'-' ∷ to_string_ℕ (suc n)

abbrev pub value : ℕ → Text → ℕ
value n [] = n
value n (c ∷ s) = value (n * 10 + (c - b'0')) s

abbrev pub all_digits : Text → Bool
all_digits [] = true
all_digits (c ∷ s) = is_digit c && all_digits s

-- One or more digits and nothing else; the value must fit an `int`.
abbrev in_range : ℤ → Option ℤ
in_range z = if leb_ℤ int_min z && leb_ℤ z int_max then some z else none

abbrev signed : Bool → Text → Option ℤ
signed neg [] = none
signed neg (c ∷ s) =
    if all_digits (c ∷ s)
    then in_range (if neg then sub_ℕ 0 (value 0 (c ∷ s)) else pos (value 0 (c ∷ s)))
    else none

-- `std::from_chars` on the whole text: an optional minus, then digits up to the end.
unfoldable pub from_chars : Text → Option ℤ
from_chars [] = none
from_chars (c ∷ s) = if c == b'-' then signed true s else signed false (c ∷ s)

abbrev take_digits : Text → Text
take_digits [] = []
take_digits (c ∷ s) = if is_digit c then c ∷ take_digits s else []

-- The result is an `int`.
pub from_chars-IsInt : (s : Text) (z : ℤ) → from_chars s ≡ some z → IsInt z
unfolding from_chars
from_chars-IsInt [] z e = cc
from_chars-IsInt (c ∷ []) z e = ground arith
from_chars-IsInt (c ∷ d ∷ s) z e = ground arith

-- `std::stoi`: blanks, an optional sign, digits, and whatever follows them; `none` is a throw.
abbrev after_blanks : Text → Option ℤ
after_blanks [] = none
after_blanks (c ∷ s) =
    if c == b'-'
    then signed true (take_digits s)
    else if c == b'+'
    then signed false (take_digits s)
    else signed false (take_digits (c ∷ s))

unfoldable pub stoi : Text → Option ℤ
stoi s = after_blanks (drop_while is_space s)

value-decimal : (f n : ℕ) (out : Text) → n ≤ f → value 0 (decimal f n out) ≡ value n out
unfolding decimal
value-decimal zero n out h = ap (λ t. value t out) (omega arith)
value-decimal (suc f) n out h = elim (Bool-cases (ltb n 10)) [
  | inl small ↦ rw small (ap (λ t. value t out) (omega arith))
  | inr large ↦ rw large (
      value-decimal f (n / 10) ((b'0' + n % 10) ∷ out) (ground arith)
      ∙ ap (λ t. value t out) (omega arith))
]

all_digits-decimal :
    (f n : ℕ) (out : Text) → all_digits out ≡ true → all_digits (decimal f n out) ≡ true
unfolding decimal
all_digits-decimal zero n out h = ground arith
all_digits-decimal (suc f) n out h =
    ground (arith, all_digits-decimal f (n / 10) ((b'0' + n % 10) ∷ out))

-- The print is never empty, and begins with a digit.
decimal-cons : (f n : ℕ) (out : Text) → (c : ℕ) × (s : Text) × (decimal f n out ≡ c ∷ s)
unfolding decimal
decimal-cons zero n out = (b'0' + n % 10, out, refl)
decimal-cons (suc f) n out = elim (Bool-cases (ltb n 10)) [
  | inl small ↦ (b'0' + n, out, rw small)
  | inr large ↦ rw large (decimal-cons f (n / 10) ((b'0' + n % 10) ∷ out))
]

-- A print of a natural number is not empty, and holds digits alone.
pub to_string-all_digits :
    (n : ℕ) → (all_digits (to_string (pos n)) ≡ true) × (is_empty (to_string (pos n)) ≡ false)
unfolding to_string
to_string-all_digits n =
    let (c, s, e) = decimal-cons n n [] in (all_digits-decimal n n [] refl, rw e refl)

-- `from_chars` reads back what `to_string` prints.
pub from_chars-to_string : (z : ℤ) → IsInt z → from_chars (to_string z) ≡ some z
unfolding from_chars to_string
from_chars-to_string (pos n) h =
    let (c, s, e) = decimal-cons n n [] in
    let digits = all_digits-decimal n n [] refl in
    let exact = value-decimal n n [] (omega arith) in
    rw e (ground (arith, rw e at digits, rw e at exact))
from_chars-to_string (negsuc n) h =
    let (c, s, e) = decimal-cons (suc n) (suc n) [] in
    let digits = all_digits-decimal (suc n) (suc n) [] refl in
    let exact = value-decimal (suc n) (suc n) [] (omega arith) in
    rw e (ground (arith, rw e at digits, rw e at exact))

take_digits_all : (s : Text) → all_digits s ≡ true → take_digits s ≡ s
take_digits_all [] h = refl
take_digits_all (c ∷ s) h = ground (arith, take_digits_all s)

-- So does `stoi`.
pub stoi-to_string : (z : ℤ) → IsInt z → stoi (to_string z) ≡ some z
unfolding stoi to_string
stoi-to_string (pos n) h =
    let (c, s, e) = decimal-cons n n [] in
    let digits = all_digits-decimal n n [] refl in
    let exact = value-decimal n n [] (omega arith) in
    rw e (ground (arith, rw e at digits, rw e at exact, take_digits_all s))
stoi-to_string (negsuc n) h =
    let (c, s, e) = decimal-cons (suc n) (suc n) [] in
    let digits = all_digits-decimal (suc n) (suc n) [] refl in
    let exact = value-decimal (suc n) (suc n) [] (omega arith) in
    rw e (ground (arith, rw e at digits, rw e at exact, take_digits_all (c ∷ s)))

prints : to_string (negsuc 41) ≡ codes "-42"
unfolding to_string
prints = refl
