-- ===== src/Service/Config/Settings.antt =====
-- The settings that are read are those that were stored.
use musi_tui.Base.{
  suc, ◌≡◌, refl, ◌∙◌, sym, ap, true, false, List, [], ◌∷◌, none, some, ◌==◌, arith, All, inl, inr,
  Bool-cases,
}
use musi_tui.Base.Int.{ℤ, IsInt, pos, negsuc}
use musi_tui.Base.Text.{push_byte, lines, Text, text_lt, text_eq, take_until, drop_until}
use musi_tui.Base.Decimal.{to_string, to_string-all_digits, all_digits, stoi-to_string}
use musi_tui.Service.Config.{
  newline, equals, File, Entries, insert, insert_line, insert_split, parse_from, entries_of,
  get_value, set_value, get_theme, set_theme, get_visual, set_visual, theme_key, visual_key,
  root_key, get_root_path, set_root_path, parse_int_or,
}
use musi_tui.Service.Config.Order.{IsSorted, insert-IsSorted, IsSorted-nil}
use musi_tui.Service.Config.Entries.{
  IsWritable, has_newline, has_equals, entries_of-print, lookup, get_value-print,
  lookup-insert_self, lookup-insert_ne,
}

-- Entries as the code keeps them.
pub IsProper : Entries → Type 0
IsProper m = IsSorted m × All IsWritable m

insert-IsWritable :
    (key value : Text) (m : Entries)
    → IsWritable (key, value)
    → All IsWritable m
    → All IsWritable (insert key value m)
unfolding insert
insert-IsWritable key value [] h hm = (h, tt)
insert-IsWritable key value ((k, v) ∷ m) h (hk, hm) = elim (Bool-cases (text_eq key k)) [
  | inl same ↦ rw same (h, hm)
  | inr other ↦ elim (Bool-cases (text_lt key k)) [
    | inl before ↦ rw (other, before) (h, (hk, hm))
    | inr after ↦ rw (other, after) (hk, insert-IsWritable key value m h hm)
  ]
]

insert-IsProper :
    (key value : Text) (m : Entries)
    → IsWritable (key, value)
    → IsProper m
    → IsProper (insert key value m)
unfolding IsProper
insert-IsProper key value m h (sorted, writable) =
    (insert-IsSorted key value m sorted, insert-IsWritable key value m h writable)

lines_bare : (s : Text) → All (λ l. has_newline l ≡ false) (lines s)
unfolding lines
lines_bare [] = tt
lines_bare (c ∷ s) = elim (Bool-cases (c == newline)) [
  | inl ends ↦ rw ends (refl, lines_bare s)
  | inr more ↦ rw more (pushed more (lines s) (lines_bare s))
]
  where
    pushed :
        (c == newline) ≡ false
        → (ls : List Text) → All (λ l. has_newline l ≡ false) ls
        → All (λ l. has_newline l ≡ false) (push_byte c ls)
    pushed e [] hl = (ground arith, tt)
    pushed e (l ∷ ls) (h, hl) = (ground arith, hl)

insert_line-IsProper :
    (m : Entries) (l : Text) → has_newline l ≡ false → IsProper m → IsProper (insert_line m l)
insert_line-IsProper m l h proper = split (drop_until (λ c. c == equals) l) (rest_bare l h)
  where
    rest_bare :
        (s : Text) → has_newline s ≡ false → has_newline (drop_until (λ c. c == equals) s) ≡ false
    rest_bare [] e = refl
    rest_bare (c ∷ s) e = ground (arith, rest_bare s)

    key_bare :
        (s : Text) → has_newline s ≡ false → has_newline (take_until (λ c. c == equals) s) ≡ false
    key_bare [] e = refl
    key_bare (c ∷ s) e = ground (arith, key_bare s)

    key_plain : (s : Text) → has_equals (take_until (λ c. c == equals) s) ≡ false
    key_plain [] = refl
    key_plain (c ∷ s) = ground (arith, key_plain s)

    split :
        (d : Text)
        → has_newline d ≡ false
        → IsProper (insert_split (take_until (λ c. c == equals) l) d m)
    split [] e = proper
    split (d ∷ value) e =
        insert-IsProper (take_until (λ c. c == equals) l) value m
          (key_bare l h, key_plain l, ground arith) proper

parse_from-IsProper :
    (m : Entries) (ls : List Text)
    → All (λ l. has_newline l ≡ false) ls
    → IsProper m
    → IsProper (parse_from m ls)
unfolding parse_from
parse_from-IsProper m [] hl proper = proper
parse_from-IsProper m (l ∷ ls) (h, hl) proper =
    parse_from-IsProper (insert_line m l) ls hl (insert_line-IsProper m l h proper)

IsProper-nil : IsProper []
unfolding IsProper
IsProper-nil = (IsSorted-nil, tt)

-- Whatever the file holds, its entries are sorted and can be written.
entries_of-IsProper : (file : File) → IsProper (entries_of file)
unfolding entries_of
entries_of-IsProper none = IsProper-nil
entries_of-IsProper (some t) = parse_from-IsProper [] (lines t) (lines_bare t) IsProper-nil

module _ (key value : Text) (fits : IsWritable (key, value)) where
  stored-IsProper : (file : File) → IsProper (insert key value (entries_of file))
  stored-IsProper file = insert-IsProper key value (entries_of file) fits (entries_of-IsProper file)

  get_value-stored :
      (other : Text) (file : File)
      → has_equals other ≡ false
      → get_value other (set_value key value file)
        ≡ lookup other (insert key value (entries_of file))
  unfolding set_value IsProper
  get_value-stored other file plain =
      get_value-print other (insert key value (entries_of file)) plain (stored-IsProper file).1

  -- A value without a newline, stored under a key with neither `=` nor a newline, is what is read of
  -- that key, whatever the file was before.
  pub get_value-set_value : (file : File) → get_value key (set_value key value file) ≡ value
  get_value-set_value file =
      get_value-stored key file fits.1 ∙ lookup-insert_self key value (entries_of file)

  entries_of-set_value :
      (file : File) → entries_of (set_value key value file) ≡ insert key value (entries_of file)
  unfolding set_value IsProper
  entries_of-set_value file =
      let (sorted, writable) = stored-IsProper file in
      entries_of-print (insert key value (entries_of file)) sorted writable

-- In a file that the program has written, storing a value changes no other key's.
pub get_value-set_value_other :
    (key value key' value' other : Text) (file : File)
    → IsWritable (key, value)
    → IsWritable (key', value')
    → has_equals other ≡ false
    → text_eq other key ≡ false
    → get_value other (set_value key value (set_value key' value' file))
      ≡ get_value other (set_value key' value' file)
get_value-set_value_other key value key' value' other file fits fits' plain ne =
    let before = set_value key' value' file in
    get_value-stored key value fits other before plain
    ∙ lookup-insert_ne key other value (entries_of before) ne
    ∙ ap (lookup other) (entries_of-set_value key' value' fits' file)
    ∙ sym (get_value-stored key' value' fits' other file plain)

printed_bare : (z : ℤ) → has_newline (to_string z) ≡ false
unfolding to_string
printed_bare z = by_sign z
  where
    digits_bare : (s : Text) → all_digits s ≡ true → has_newline s ≡ false
    digits_bare [] h = refl
    digits_bare (c ∷ s) h = ground (arith, digits_bare s)

    by_sign : (y : ℤ) → has_newline (to_string y) ≡ false
    by_sign (pos n) = digits_bare (to_string (pos n)) (to_string-all_digits n).0
    by_sign (negsuc n) = digits_bare (to_string (pos (suc n))) (to_string-all_digits (suc n)).0

parse_int_or-to_string : (z : ℤ) → IsInt z → parse_int_or (to_string z) (pos 0) ≡ z
unfolding parse_int_or
parse_int_or-to_string z int = rw (parse_int_or, stoi-to_string z int) refl

-- A directory without a newline in its name, a theme and a visual, stored one after the other, are
-- what is read afterwards, whatever the file was before.
pub settings_persist :
    (path : Text) (theme visual : ℤ) (file : File)
    → has_newline path ≡ false
    → IsInt theme
    → IsInt visual
    → let after = set_visual visual (set_theme theme (set_root_path path file)) in
      (get_root_path after ≡ path) × (get_theme after ≡ theme) × (get_visual after ≡ visual)
unfolding get_root_path set_root_path get_theme set_theme get_visual set_visual
settings_persist path theme visual file bare int_theme int_visual =
    let fits_root : IsWritable (root_key, path) = (refl, refl, bare) in
    let fits_theme : IsWritable (theme_key, to_string theme) = (refl, refl, printed_bare theme) in
    let fits_visual : IsWritable (visual_key, to_string visual) =
      (refl, refl, printed_bare visual) in
    let rooted = set_value root_key path file in
    let themed = set_value theme_key (to_string theme) rooted in
    (
      get_value-set_value_other visual_key (to_string visual) theme_key (to_string theme) root_key
            rooted fits_visual fits_theme refl refl
          ∙ get_value-set_value_other theme_key (to_string theme) root_key path root_key file
              fits_theme fits_root refl refl
          ∙ get_value-set_value root_key path fits_root file,
      ap (λ s. parse_int_or s (pos 0))
            (get_value-set_value_other visual_key (to_string visual) theme_key (to_string theme)
                theme_key rooted fits_visual fits_theme refl refl
              ∙ get_value-set_value theme_key (to_string theme) fits_theme rooted)
          ∙ parse_int_or-to_string theme int_theme,
      ap (λ s. parse_int_or s (pos 0))
            (get_value-set_value visual_key (to_string visual) fits_visual themed)
          ∙ parse_int_or-to_string visual int_visual,
    )
