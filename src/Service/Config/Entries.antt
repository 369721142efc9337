-- ===== src/Service/Config/Entries.antt =====
-- What is written of the entries is read back.
use musi_tui.Base.{
  ◌≡◌, refl, ◌∙◌, sym, subst, Bool, false, [], ◌∷◌, ◌++◌, append_assoc, append-nil, ◌==◌, arith,
  All, any, some, drop, length, inl, inr, Bool-cases, if◌then◌else◌,
}
use musi_tui.Base.Text.{
  lines, Text, text_eq, text_eq→eq, text_eq_refl, starts_with, take_until, drop_until,
}
use musi_tui.Service.Config.{
  newline, equals, Entries, insert, insert_line, parse_from, print, first_value, entries_of,
  get_value,
}
use musi_tui.Service.Config.Order.{IsSorted, insert-last}

abbrev pub has_newline : Text → Bool
has_newline s = any (λ c. c == newline) s

abbrev pub has_equals : Text → Bool
has_equals s = any (λ c. c == equals) s

-- A key without `=` or newline, and a value without a newline.
abbrev pub IsWritable : Text × Text → Type 0
IsWritable e = (has_newline e.0 ≡ false) × (has_equals e.0 ≡ false) × (has_newline e.1 ≡ false)

lines-newline : (l s : Text) → has_newline l ≡ false → lines (l ++ newline ∷ s) ≡ l ∷ lines s
unfolding lines
lines-newline [] s h = refl
lines-newline (c ∷ l) s h = ground (arith, lines-newline l s)

has_newline-entry :
    (k v : Text)
    → has_newline k ≡ false
    → has_newline v ≡ false
    → has_newline (k ++ equals ∷ v) ≡ false
has_newline-entry [] v hk hv = ground arith
has_newline-entry (c ∷ k) v hk hv = ground (arith, has_newline-entry k v)

insert_line-entry :
    (m : Entries) (k v : Text)
    → has_equals k ≡ false
    → insert_line m (k ++ equals ∷ v) ≡ insert k v m
insert_line-entry m k v h = rw (key_of k h, value_of k h) refl
  where
    key_of :
        (k' : Text) → has_equals k' ≡ false → take_until (λ c. c == equals) (k' ++ equals ∷ v) ≡ k'
    key_of [] e = refl
    key_of (c ∷ k') e = ground (arith, key_of k')

    value_of :
        (k' : Text)
        → has_equals k' ≡ false
        → drop_until (λ c. c == equals) (k' ++ equals ∷ v) ≡ equals ∷ v
    value_of [] e = refl
    value_of (c ∷ k') e = ground (arith, value_of k')

parse_from-print :
    (m rest : Entries)
    → IsSorted (m ++ rest)
    → All IsWritable rest
    → parse_from m (lines (print rest)) ≡ m ++ rest
unfolding parse_from lines print
parse_from-print m [] sorted writable = sym (append-nil m)
parse_from-print m ((k, v) ∷ rest) sorted ((hk, he, hv), writable) =
    rw
      (
        lines-newline (k ++ equals ∷ v) (print rest) (has_newline-entry k v hk hv),
        parse_from,
        insert_line-entry m k v he,
        insert-last k v m rest sorted,
      )
      (parse_from-print (m ++ (k, v) ∷ []) rest
          (subst IsSorted (sym (append_assoc m ((k, v) ∷ []) rest)) sorted) writable
        ∙ append_assoc m ((k, v) ∷ []) rest)

-- Sorted entries with keys and values that can be written are read back from the file.
pub entries_of-print :
    (m : Entries) → IsSorted m → All IsWritable m → entries_of (some (print m)) ≡ m
unfolding entries_of
entries_of-print m sorted writable = parse_from-print [] m sorted writable

-- The value of a key in entries, empty if there is none.
pub lookup : Text → Entries → Text
lookup key [] = []
lookup key ((k, v) ∷ m) = let rest = lookup key m in if text_eq key k then v else rest

pub get_value-print :
    (key : Text) (m : Entries)
    → has_equals key ≡ false
    → All IsWritable m
    → get_value key (some (print m)) ≡ lookup key m
unfolding get_value lines print first_value lookup
get_value-print key [] he writable = refl
get_value-print key ((k, v) ∷ m) he ((hk, hke, hv), writable) =
    rw
      (
        lines-newline (k ++ equals ∷ v) (print m) (has_newline-entry k v hk hv),
        first_value,
        prefix_eq k key hke he,
      )
      (elim (Bool-cases (text_eq key k)) [
        | inl same ↦ rw (same, sym (text_eq→eq key k same)) (behind_key key)
        | inr differs ↦ rw differs (get_value-print key m he writable)
      ])
  where
    prefix_eq :
        (k' key' : Text)
        → has_equals k' ≡ false
        → has_equals key' ≡ false
        → starts_with (k' ++ equals ∷ v) (key' ++ equals ∷ []) ≡ text_eq key' k'
    prefix_eq [] [] h h' = refl
    prefix_eq [] (d ∷ key') h h' = ground arith
    prefix_eq (c ∷ k') [] h h' = ground arith
    prefix_eq (c ∷ k') (d ∷ key') h h' = ground (arith, prefix_eq k' key')

    behind_key : (k' : Text) → drop (length (k' ++ equals ∷ [])) (k' ++ equals ∷ v) ≡ v
    behind_key [] = refl
    behind_key (c ∷ k') = behind_key k'

pub lookup-insert_self : (key value : Text) (m : Entries) → lookup key (insert key value m) ≡ value
unfolding lookup insert
lookup-insert_self key value [] = rw text_eq_refl refl
lookup-insert_self key value ((k, v) ∷ m) =
    ground (arith, lookup-insert_self key value m, text_eq_refl key)

pub lookup-insert_ne :
    (key other value : Text) (m : Entries)
    → text_eq other key ≡ false
    → lookup other (insert key value m) ≡ lookup other m
unfolding lookup insert
lookup-insert_ne key other value [] ne = rw ne refl
lookup-insert_ne key other value ((k, v) ∷ m) ne = elim (Bool-cases (text_eq key k)) [
  | inl same ↦ rw (same, sym (text_eq→eq key k same), ne) refl
  | inr differs ↦ ground (arith, lookup-insert_ne key other value m)
]
