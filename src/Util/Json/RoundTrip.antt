-- ===== src/Util/Json/RoundTrip.antt =====
-- What is written is read back, and holds no control byte.
use musi_tui.Base.{
  ℕ, ◌/◌, ◌%◌, ◌≤◌, ◌<◌, ◌≡◌, refl, ◌∙◌, sym, ap, Bool, true, false, [], ◌∷◌, ◌++◌, append_assoc,
  append-nil, arith, ◌==◌, All, All-append, Option, none, some,
}
use musi_tui.Base.Text.{Text}
use musi_tui.Base.Bits.{table, table_covers}
use musi_tui.Base.Int.{ℤ, pos, negsuc}
use musi_tui.Util.Json.{
  quote_mark, hex_digit, escape_byte, escape_from, append_string, quote, stoi_hex, found, plain,
  read_value,
}

escape_all : Text → Text
escape_all [] = []
escape_all (c ∷ s) = escape_byte c ++ escape_all s

escape_from-append : (out s : Text) → escape_from out s ≡ out ++ escape_all s
unfolding escape_from escape_all
escape_from-append out [] = sym (append-nil out)
escape_from-append out (c ∷ s) =
    escape_from-append (out ++ escape_byte c) s ∙ append_assoc out (escape_byte c) (escape_all s)

pub append_string-append : (out s : Text) → append_string out s ≡ out ++ quote s
unfolding append_string quote
append_string-append out s = simp (escape_from-append, append_assoc)

abbrev same : Option ℤ → ℕ → Bool
same none n = false
same (some (pos m)) n = m == n
same (some (negsuc m)) n = false

same→eq : (o : Option ℤ) (n : ℕ) → same o n ≡ true → o ≡ some (pos n)
same→eq none n h = cc
same→eq (some (pos m)) n h = ground arith
same→eq (some (negsuc m)) n h = cc

control_table :
    table (λ c. same (stoi_hex (b'0' ∷ b'0' ∷ hex_digit (c / 16) ∷ hex_digit (c % 16) ∷ [])) c) 32
    ≡ true
unfolding table stoi_hex
control_table = refl

-- A control byte is read back from its four hexadecimal digits.
control_code :
    (c : ℕ)
    → c < 32
    → stoi_hex (b'0' ∷ b'0' ∷ hex_digit (c / 16) ∷ hex_digit (c % 16) ∷ []) ≡ some (pos c)
control_code c h = same→eq _ c (table_covers _ c 32 control_table h)

read_value-escape_byte :
    (c : ℕ) (rest out : Text)
    → c < 256
    → read_value plain (escape_byte c ++ rest) out ≡ read_value plain rest (out ++ c ∷ [])
unfolding read_value escape_byte
read_value-escape_byte c rest out h = ground (arith, control_code c)

abbrev pub IsByte : ℕ → Type 0
IsByte c = c < 256

read_value-escape_all :
    (s rest out : Text)
    → All IsByte s
    → read_value plain (escape_all s ++ quote_mark ∷ rest) out ≡ found (out ++ s)
unfolding escape_all
read_value-escape_all [] rest out h = unfold read_value in ap found (sym (append-nil out))
read_value-escape_all (c ∷ s) rest out (hc, hs) =
    ap (λ t. read_value plain t out)
      (append_assoc (escape_byte c) (escape_all s) (quote_mark ∷ rest))
    ∙ read_value-escape_byte c (escape_all s ++ quote_mark ∷ rest) out hc
    ∙ read_value-escape_all s rest (out ++ c ∷ []) hs
    ∙ ap found (append_assoc out (c ∷ []) s)

quote-escape_all : (s : Text) → quote s ≡ quote_mark ∷ (escape_all s ++ quote_mark ∷ [])
unfolding quote append_string
quote-escape_all s = ap (λ t. t ++ quote_mark ∷ []) (escape_from-append (quote_mark ∷ []) s)

-- The reader finds the value behind the opening mark of a quoted text, whatever follows.
pub read_value-quote :
    (s rest : Text)
    → All IsByte s
    → (t : Text) × (quote s ++ rest ≡ quote_mark ∷ t) × (read_value plain t [] ≡ found s)
read_value-quote s rest h = (
  escape_all s ++ quote_mark ∷ rest,
  ap (λ t. t ++ rest) (quote-escape_all s)
      ∙ ap (λ t. quote_mark ∷ t) (append_assoc (escape_all s) (quote_mark ∷ []) rest),
  read_value-escape_all s rest [] h,
)

abbrev pub IsPrintable : ℕ → Type 0
IsPrintable c = 32 ≤ c

escape_byte-IsPrintable : (c : ℕ) → All IsPrintable (escape_byte c)
unfolding escape_byte
escape_byte-IsPrintable c = ground arith

escape_all-IsPrintable : (s : Text) → All IsPrintable (escape_all s)
unfolding escape_all
escape_all-IsPrintable [] = tt
escape_all-IsPrintable (c ∷ s) =
    All-append IsPrintable (escape_byte c) (escape_all s) (escape_byte-IsPrintable c)
      (escape_all-IsPrintable s)

-- A quoted text holds no control byte, so no line break.
pub quote-IsPrintable : (s : Text) → All IsPrintable (quote s)
quote-IsPrintable s = rw quote-escape_all (
  omega arith,
  All-append IsPrintable (escape_all s) (quote_mark ∷ []) (escape_all-IsPrintable s) (omega arith),
)
