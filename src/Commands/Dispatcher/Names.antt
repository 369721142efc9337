-- ===== src/Commands/Dispatcher/Names.antt =====
-- How src/commands/CommandDispatcher.cpp resolves what the user names: `pickIndex`, `resolveAlbum`,
-- and the lists of options.
pub mod Resolution
use musi_tui.Base.{
  ℕ, zero, suc, ◌+◌, Bool, true, false, ◌&&◌, List, [], ◌∷◌, ◌++◌, Option, none, some,
  if◌then◌else◌, length, get_or, is_empty, ltb,
}
use musi_tui.Base.Int.{ℤ, pos, negsuc, leb_ℤ}
use musi_tui.Base.Text.{Text, codes, text_eq}
use musi_tui.Base.Decimal.{from_chars, to_string_ℕ}
use musi_tui.Util.Json.{append_string}
use musi_tui.Commands.Quoting.{iequals}

abbrev pub themes : List Text
themes = codes "Fire" ∷ codes "BW" ∷ codes "PurpleRain" ∷ codes "Forest" ∷ []

abbrev pub visuals : List Text
visuals =
    codes "Spectrum" ∷ codes "Oscilloscope" ∷ codes "Mirrored" ∷ codes "Rolling" ∷ codes "Wave" ∷ []

-- The loop over the names, from index `i` on.
pub find_name : Text → List Text → ℕ → Option ℕ
find_name arg [] i = none
find_name arg (n ∷ names) i = if iequals arg n then some i else find_name arg names (i + 1)

-- The result of `pickIndex` for what `parseInt` made of its argument.
abbrev by_number : Option ℤ → ℕ → Option ℕ
by_number none size = none
by_number (some (negsuc n)) size = none
by_number (some (pos zero)) size = none
by_number (some (pos (suc n))) size = if ltb n size then some n else none

abbrev or_else : Option ℕ → Option ℕ → Option ℕ
or_else none b = b
or_else (some n) b = some n

unfoldable pub pick_index : Text → List Text → Option ℕ
unfolding find_name
pick_index arg names = or_else (by_number (from_chars arg) (length names)) (find_name arg names 0)

option_list_from : ℕ → List Text → Text
option_list_from i [] = []
option_list_from i (n ∷ names) =
    (if ltb 0 i then codes " " else [])
    ++ codes "["
    ++ to_string_ℕ (i + 1)
    ++ codes "]-"
    ++ n
    ++ option_list_from (i + 1) names

pub option_list : List Text → Text
unfolding option_list_from
option_list names = option_list_from 0 names

-- The names as JSON strings, parted by commas, appended to `out`.
pub append_names : Text → ℕ → List Text → Text
append_names out i [] = out
append_names out i (n ∷ names) =
    append_names (append_string (if ltb 0 i then out ++ codes "," else out) n) (i + 1) names

pub json_name_array : List Text → Text
unfolding append_names
json_name_array names = append_names (codes "[") 0 names ++ codes "]"

-- The lines of a numbered list of names, from index `i` on.
pub numbered_from : ℕ → List Text → Text
numbered_from i [] = []
numbered_from i (n ∷ names) =
    (if ltb 0 i then codes "\n" else [])
    ++ to_string_ℕ (i + 1)
    ++ codes ". "
    ++ n
    ++ numbered_from (i + 1) names

-- The first loop of `resolveAlbum`.
find_exact : Text → List Text → Option Text
find_exact name [] = none
find_exact name (n ∷ names) = if text_eq n name then some n else find_exact name names

-- The second loop, with the match so far. A second one is ambiguous.
find_unique : Text → Text → List Text → Text
find_unique name match [] = match
find_unique name match (n ∷ names) =
    let rest = find_unique name n names in
    let same = find_unique name match names in
    if iequals n name then (if is_empty match then rest else []) else same

abbrev or_text : Option Text → Text → Text
or_text none t = t
or_text (some s) t = s

-- `resolveAlbum` on the album names of the service.
unfoldable pub resolve_album : List Text → Text → Text
unfolding find_exact find_unique
resolve_album names name = or_text (find_exact name names) (find_unique name [] names)
