-- ===== src/Util/Json.antt =====
-- src/util/Json.h: the text that the control protocol writes, and the reader of one string value.
pub mod RoundTrip
mod Tests
use musi_tui.Base.{
  ℕ, zero, suc, ◌+◌, ◌-◌, ◌*◌, ◌/◌, ◌%◌, ◌≡◌, refl, Bool, true, false, not, ◌&&◌, ◌||◌, List, [],
  ◌∷◌, ◌++◌, Option, none, some, ◌==◌, ltb, leb, if◌then◌else◌, is_empty, take, length,
}
use musi_tui.Base.Text.{Text, codes, is_space, drop_while, after_first}
use musi_tui.Base.Int.{ℤ, pos, negsuc, sub_ℕ}

abbrev pub quote_mark : ℕ
quote_mark = b'"'

abbrev pub backslash : ℕ
backslash = b'\\'

-- A lower-case hexadecimal digit, as `%04x` prints it.
abbrev pub hex_digit : ℕ → ℕ
hex_digit n = if ltb n 10 then b'0' + n else b'a' + (n - 10)

-- The bytes that stand for one byte.
unfoldable pub escape_byte : ℕ → Text
escape_byte c =
    if c == quote_mark
    then backslash ∷ quote_mark ∷ []
    else if c == backslash
    then backslash ∷ backslash ∷ []
    else if c == 10
    then backslash ∷ b'n' ∷ []
    else if c == 13
    then backslash ∷ b'r' ∷ []
    else if c == 9
    then backslash ∷ b't' ∷ []
    else if ltb c 32
    then backslash ∷ b'u' ∷ b'0' ∷ b'0' ∷ hex_digit (c / 16) ∷ hex_digit (c % 16) ∷ []
    else c ∷ []

escape_from : Text → Text → Text
escape_from out [] = out
escape_from out (c ∷ s) = escape_from (out ++ escape_byte c) s

unfoldable pub append_string : Text → Text → Text
unfolding escape_from escape_byte
append_string out s = escape_from (out ++ quote_mark ∷ []) s ++ quote_mark ∷ []

unfoldable pub quote : Text → Text
unfolding append_string
quote s = append_string [] s

-- The value of a hexadecimal digit.
abbrev pub hex_value : ℕ → Option ℕ
hex_value c =
    if leb b'0' c && leb c b'9'
    then some (c - b'0')
    else if leb b'a' c && leb c b'f'
    then some (c - b'a' + 10)
    else if leb b'A' c && leb c b'F'
    then some (c - b'A' + 10)
    else none

-- The value that the hexadecimal digits in front spell behind `n`.
hex_prefix : ℕ → Text → ℕ
hex_prefix n [] = n
hex_prefix n (c ∷ s) = elim (hex_value c) [ none ↦ n | some d ↦ hex_prefix (n * 16 + d) s ]

abbrev starts_hex : Text → Bool
starts_hex [] = false
starts_hex (c ∷ s) = elim (hex_value c) [ none ↦ false | some d ↦ true ]

-- A prefix `0x` counts only in front of a digit.
strip_0x : Text → Text
strip_0x [] = []
strip_0x (c ∷ []) = c ∷ []
strip_0x (c ∷ x ∷ s) =
    if c == b'0' && (x == b'x' || x == b'X') && starts_hex s then s else c ∷ x ∷ s

hex_signed : Bool → Text → Option ℤ
unfolding hex_prefix strip_0x
hex_signed neg s =
    if starts_hex s
    then some (if neg then sub_ℕ 0 (hex_prefix 0 (strip_0x s)) else pos (hex_prefix 0 (strip_0x s)))
    else none

hex_number : Text → Option ℤ
unfolding hex_signed
hex_number [] = none
hex_number (c ∷ s) =
    if c == b'-'
    then hex_signed true s
    else if c == b'+'
    then hex_signed false s
    else hex_signed false (c ∷ s)

-- `std::stoi` to the base 16 on a text too short to overflow; `none` is its exception.
unfoldable pub stoi_hex : Text → Option ℤ
unfolding hex_number
stoi_hex s = hex_number (drop_while is_space s)

-- `static_cast<char>`
abbrev to_char : ℤ → ℕ
to_char (pos n) = n % 256
to_char (negsuc n) = 255 - n % 256

-- What `findString` comes to: the value, no value, or the exception of `std::stoi`.
pub data Found : Type 0 where
  found : Text → Found
  missing : Found
  throws : Found

-- Where the reader stands: between characters, behind a backslash, or before bytes to pass over.
pub data Mode : Type 0 where
  plain : Mode
  escaped : Mode
  skipping : ℕ → Mode

-- What an escape other than `\u` stands for.
abbrev pub unescape : ℕ → ℕ
unescape e = if e == b'n' then 10 else if e == b'r' then 13 else if e == b't' then 9 else e

-- The loop of `findString` behind the opening quote mark.
pub read_value : Mode → Text → Text → Found
read_value m [] out = missing
read_value (skipping zero) (c ∷ s) out = read_value plain s out
read_value (skipping (suc k)) (c ∷ s) out = read_value (skipping k) s out
read_value plain (c ∷ s) out =
    let copy = read_value plain s (out ++ c ∷ []) in
    let escape = read_value escaped s out in
    if c == quote_mark
    then found out
    else if not (c == backslash) || is_empty s
    then copy
    else escape
read_value escaped (e ∷ s) out =
    let plainly = read_value plain s out in
    let one = read_value plain s (out ++ unescape e ∷ []) in
    let unicode : Found = elim (stoi_hex (take 4 s)) [
      | none ↦ throws
      | some z ↦ read_value (skipping 3) s (out ++ to_char z ∷ [])
    ] in
    if e == b'u' then if leb 4 (length s) then unicode else plainly else one

unfoldable pub find_string : Text → Text → Found
find_string doc key = elim (after_first (quote key ++ codes ":\"") doc) [
  | none ↦ missing
  | some rest ↦ read_value plain rest []
]
