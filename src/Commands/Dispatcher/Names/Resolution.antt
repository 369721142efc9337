-- ===== src/Commands/Dispatcher/Names/Resolution.antt =====
-- What `resolveAlbum` and `pickIndex` find.
use musi_tui.Base.{
  ℕ, suc, ◌+◌, ◌<◌, ◌≤◌, ◌^◌, ◌≡◌, refl, ◌∙◌, sym, ap, Bool, true, false, List, [], ◌∷◌, arith, inl,
  inr, if◌then◌else◌, length, is_empty, any, Bool-cases, some, none,
}
use musi_tui.Base.Int.{pos}
use musi_tui.Base.Text.{Text, text_eq, text_eq→eq, text_eq_refl}
use musi_tui.Base.Decimal.{to_string, from_chars-to_string}
use musi_tui.Commands.Quoting.{iequals}
use musi_tui.Commands.Dispatcher.Names.{
  resolve_album, find_exact, find_unique, or_text, pick_index, find_name,
}

-- The names that equal `name` but for the case of letters.
pub matching : Text → List Text → List Text
matching name [] = []
matching name (n ∷ names) = if iequals n name then n ∷ matching name names else matching name names

pub the_only : List Text → Text
the_only [] = []
the_only (n ∷ []) = n
the_only (n ∷ m ∷ names) = []

find_exact-any :
    (name : Text) (names : List Text)
    → find_exact name names ≡ (if any (λ n. text_eq n name) names then some name else none)
unfolding find_exact
find_exact-any name [] = refl
find_exact-any name (n ∷ names) = elim (Bool-cases (text_eq n name)) [
  | inl e ↦ rw e (ap some (text_eq→eq n name e))
  | inr e ↦ rw e (find_exact-any name names)
]

find_unique-full :
    (name match : Text) (names : List Text)
    → is_empty match ≡ false
    → find_unique name match names ≡ (if is_empty (matching name names) then match else [])
unfolding find_unique matching
find_unique-full name match [] full = refl
find_unique-full name match (n ∷ names) full = elim (Bool-cases (iequals n name)) [
  | inl e ↦ rw (e, full) refl
  | inr e ↦ rw e (find_unique-full name match names full)
]

-- An empty name matches the empty name alone, and exactly.
iequals-full : (n name : Text) → text_eq n name ≡ false → iequals n name ≡ true → is_empty n ≡ false
unfolding iequals
iequals-full [] [] distinct e = cc
iequals-full [] (c ∷ s) distinct e = cc
iequals-full (c ∷ s) name distinct e = refl

the_only-cons :
    (n : Text) (names : List Text) → the_only (n ∷ names) ≡ (if is_empty names then n else [])
unfolding the_only
the_only-cons n [] = refl
the_only-cons n (m ∷ names) = refl

find_unique-only :
    (name : Text) (names : List Text)
    → any (λ n. text_eq n name) names ≡ false
    → find_unique name [] names ≡ the_only (matching name names)
unfolding find_unique matching the_only
find_unique-only name [] none_exact = refl
find_unique-only name (n ∷ names) none_exact = elim (Bool-cases (text_eq n name)) [
  | inl same ↦ absurd (ground arith)
  | inr distinct ↦ elim (Bool-cases (iequals n name)) [
    | inl e ↦ rw e (
        find_unique-full name n names (iequals-full n name distinct e)
        ∙ sym (the_only-cons n (matching name names)))
    | inr e ↦ rw e (find_unique-only name names (ground arith))
  ]
]

-- A name resolves to itself if an album has exactly that name, else to the one album whose name
-- equals it but for the case of letters, and to nothing if there is no such album or several.
pub resolve_album_lem :
    (names : List Text) (name : Text)
    → resolve_album names name
      ≡ (if any (λ n. text_eq n name) names then name else the_only (matching name names))
unfolding resolve_album
resolve_album_lem names name = elim (Bool-cases (any (λ n. text_eq n name) names)) [
  | inl e ↦ ap (λ o. or_text o (find_unique name [] names)) (find_exact-any name names) ∙ rw e refl
  | inr e ↦
      ap (λ o. or_text o (find_unique name [] names)) (find_exact-any name names)
      ∙ rw e (find_unique-only name names e)
]

any-matching :
    (test : Text → Bool) (name : Text) (names : List Text)
    → any test (matching name names) ≡ true
    → any test names ≡ true
unfolding matching
any-matching test name [] found = found
any-matching test name (n ∷ names) found = ground (arith, any-matching test name names)

any-the_only :
    (names : List Text)
    → is_empty (the_only names) ≡ false
    → any (text_eq (the_only names)) names ≡ true
unfolding the_only
any-the_only [] full = cc
any-the_only (n ∷ []) full = rw (text_eq_refl n) refl
any-the_only (n ∷ m ∷ names) full = cc

any_same :
    (name : Text) (names : List Text)
    → any (λ n. text_eq n name) names ≡ true
    → any (text_eq name) names ≡ true
any_same name [] found = found
any_same name (n ∷ names) found = elim (Bool-cases (text_eq n name)) [
  | inl e ↦ rw (text_eq→eq n name e, text_eq_refl name) refl
  | inr e ↦ ground (arith, any_same name names)
]

-- What a name resolves to, if anything, is one of the albums.
pub resolve_album_member :
    (names : List Text) (name : Text)
    → is_empty (resolve_album names name) ≡ false
    → any (text_eq (resolve_album names name)) names ≡ true
resolve_album_member names name full = elim (Bool-cases (any (λ n. text_eq n name) names)) [
  | inl e ↦ rw (resolve_album_lem names name, e) (any_same name names e)
  | inr e ↦
      rw (resolve_album_lem names name, e)
        (any-matching (text_eq (the_only (matching name names))) name names
          (any-the_only (matching name names) (rw (resolve_album_lem names name, e) at full)))
]

pub find_name_below :
    (arg : Text) (names : List Text) (i j : ℕ)
    → find_name arg names i ≡ some j
    → (i ≤ j) × (j < i + length names)
unfolding find_name
find_name_below arg [] i j found = cc
find_name_below arg (n ∷ names) i j found = ground (arith, find_name_below arg names (i + 1) j)

-- What `pickIndex` picks is an index of the list.
pub pick_index_below :
    (arg : Text) (names : List Text) (i : ℕ) → pick_index arg names ≡ some i → i < length names
unfolding pick_index
pick_index_below arg names i found = ground (arith, find_name_below arg names 0 i)

-- Every option is picked by its number, counted from 1.
pub pick_index-to_string :
    (names : List Text) (i : ℕ)
    → i < length names
    → length names < 2 ^ 31
    → pick_index (to_string (pos (suc i))) names ≡ some i
unfolding pick_index
pick_index-to_string names i low small =
    rw (from_chars-to_string (pos (suc i)) (omega arith)) (ground arith)
