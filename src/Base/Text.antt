-- ===== src/Base/Text.antt =====
-- Byte strings: `std::string` and `std::string_view` as lists of bytes.
use Prim.Native.Char.{code}
use Prim.Native.String.{String}
use Prim.Native.Nat.{ℕ, ◌+◌}
use mathlib.Core.Path.{◌≡◌, refl}
use mathlib.Core.Bool.{Bool, true, false, ◌&&◌, ◌||◌}
use mathlib.Core.List.{List, [], ◌∷◌, ◌++◌}
use mathlib.Core.Option.{Option, none, some}
use native.Mathlib.Omega.{arith}
use musi_tui.Base.Tests.{ltb, leb, ◌==◌, if◌then◌else◌}
use musi_tui.Base.Lists.{length, drop}

abbrev pub Text : Type 0
Text = List ℕ

-- The bytes of a literal, which is ASCII.
abbrev pub codes : String → Text
codes String.[] = []
codes (String.◌∷◌ c s) = code c ∷ codes s

-- `a == b` on strings
abbrev pub text_eq : Text → Text → Bool
text_eq [] [] = true
text_eq [] (b ∷ bs) = false
text_eq (a ∷ as') [] = false
text_eq (a ∷ as') (b ∷ bs) = a == b && text_eq as' bs

-- `a < b` on strings
unfoldable pub text_lt : Text → Text → Bool
text_lt s [] = false
text_lt [] (b ∷ t) = true
text_lt (a ∷ s) (b ∷ t) = ltb a b || (a == b && text_lt s t)

abbrev pub push_byte : ℕ → List Text → List Text
push_byte c [] = (c ∷ []) ∷ []
push_byte c (l ∷ ls) = (c ∷ l) ∷ ls

-- The lines that `std::getline` reads, one after the other.
unfoldable pub lines : Text → List Text
lines [] = []
lines (c ∷ s) = let rest = lines s in if c == 10 then [] ∷ rest else push_byte c rest

-- `std::isspace` in the "C" locale
abbrev pub is_space : ℕ → Bool
is_space c = c == 32 || (leb 9 c && leb c 13)

-- `std::tolower` in the "C" locale
abbrev pub to_lower : ℕ → ℕ
to_lower c = if leb b'A' c && leb c b'Z' then c + 32 else c

-- `s.starts_with(p)`
abbrev pub starts_with : Text → Text → Bool
starts_with s [] = true
starts_with [] (p ∷ ps) = false
starts_with (c ∷ s) (p ∷ ps) = c == p && starts_with s ps

-- What follows the first occurrence of `p`: `find`, then a skip over it.
abbrev pub after_first : Text → Text → Option Text
after_first p [] = if starts_with [] p then some [] else none
after_first p (c ∷ s) =
    let rest = after_first p s in
    if starts_with (c ∷ s) p then some (drop (length p) (c ∷ s)) else rest

-- `s.find(p) != npos`
abbrev pub contains : Text → Text → Bool
contains [] p = starts_with [] p
contains (c ∷ s) p = starts_with (c ∷ s) p || contains s p

abbrev pub drop_while : (ℕ → Bool) → Text → Text
drop_while p [] = []
drop_while p (c ∷ s) = if p c then drop_while p s else c ∷ s

-- Bytes are dropped from the end while they meet the test.
abbrev pub drop_while_back : (ℕ → Bool) → Text → Text
drop_while_back p [] = []
drop_while_back p (c ∷ s) = elim (drop_while_back p s) [
  | [] ↦ if p c then [] else c ∷ []
  | d ∷ r ↦ c ∷ d ∷ r
]

-- The text before the first byte that meets the test, and from it on.
abbrev pub take_until : (ℕ → Bool) → Text → Text
take_until p [] = []
take_until p (c ∷ s) = if p c then [] else c ∷ take_until p s

abbrev pub drop_until : (ℕ → Bool) → Text → Text
drop_until p [] = []
drop_until p (c ∷ s) = if p c then c ∷ s else drop_until p s

pub text_eq_refl : (s : Text) → text_eq s s ≡ true
text_eq_refl [] = refl
text_eq_refl (c ∷ s) = ground (arith, text_eq_refl s)

pub text_eq→eq : (s t : Text) → text_eq s t ≡ true → s ≡ t
text_eq→eq [] [] h = refl
text_eq→eq [] (b ∷ t) h = cc
text_eq→eq (a ∷ s) [] h = cc
text_eq→eq (a ∷ s) (b ∷ t) h = ground (arith, text_eq→eq s t)

pub starts_with-append : (p s : Text) → starts_with (p ++ s) p ≡ true
starts_with-append [] [] = refl
starts_with-append [] (c ∷ s) = refl
starts_with-append (c ∷ p) s = ground (arith, starts_with-append p s)

pub drop-length-append : (p s : Text) → drop (length p) (p ++ s) ≡ s
drop-length-append [] s = refl
drop-length-append (c ∷ p) s = drop-length-append p s
