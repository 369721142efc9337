-- ===== src/Service/Config.antt =====
-- src/service/ConfigService.cpp: the settings in a file of lines `key=value`. The state is the text
-- of the file, if it exists; that it can be written is taken for granted.
pub mod Order
pub mod Entries
pub mod Settings
mod Tests
use musi_tui.Base.{
  ℕ, Bool, true, false, ◌&&◌, ◌||◌, List, [], ◌∷◌, ◌++◌, Option, none, some, ◌==◌, ltb,
  if◌then◌else◌, length, drop, any,
}
use musi_tui.Base.Int.{ℤ, pos}
use musi_tui.Base.Text.{Text, codes, text_eq, text_lt, lines, starts_with, take_until, drop_until}
use musi_tui.Base.Decimal.{to_string, stoi}
use musi_tui.Base.Path.{join_path}
use musi_tui.Commands.Dispatcher.{Config}

abbrev newline : ℕ
newline = 10

abbrev pub equals : ℕ
equals = b'='

abbrev pub File : Type 0
File = Option Text

first_value : Text → List Text → Text
first_value prefix [] = []
first_value prefix (l ∷ ls) =
    let rest = first_value prefix ls in
    if starts_with l prefix then drop (length prefix) l else rest

unfoldable pub get_value : Text → File → Text
unfolding lines first_value
get_value key none = []
get_value key (some t) = first_value (key ++ equals ∷ []) (lines t)

-- `std::map`: the entries, sorted by key.
abbrev pub Entries : Type 0
Entries = List (Text × Text)

-- `entries[key] = value`
pub insert : Text → Text → Entries → Entries
unfolding text_lt
insert key value [] = (key, value) ∷ []
insert key value ((k, v) ∷ m) =
    let rest = insert key value m in
    if text_eq key k
    then (key, value) ∷ m
    else if text_lt key k
    then (key, value) ∷ (k, v) ∷ m
    else (k, v) ∷ rest

abbrev insert_split : Text → Text → Entries → Entries
insert_split key [] m = m
insert_split key (e ∷ value) m = insert key value m

-- A line without `=` is passed over.
abbrev pub insert_line : Entries → Text → Entries
insert_line m l = insert_split (take_until (λ c. c == equals) l) (drop_until (λ c. c == equals) l) m

pub parse_from : Entries → List Text → Entries
parse_from m [] = m
parse_from m (l ∷ ls) = parse_from (insert_line m l) ls

pub print : Entries → Text
print [] = []
print ((k, v) ∷ m) = (k ++ equals ∷ v) ++ newline ∷ print m

pub entries_of : File → Entries
unfolding lines parse_from
entries_of none = []
entries_of (some t) = parse_from [] (lines t)

unfoldable pub set_value : Text → Text → File → File
unfolding entries_of insert print
set_value key value file = some (print (insert key value (entries_of file)))

abbrev zero_int : ℤ
zero_int = pos 0

unfoldable pub parse_int_or : Text → ℤ → ℤ
parse_int_or s fallback = elim (stoi s) [ none ↦ fallback | some n ↦ n ]

abbrev pub root_key : Text
root_key = codes "root_path"

abbrev pub theme_key : Text
theme_key = codes "theme"

abbrev pub visual_key : Text
visual_key = codes "visual"

unfoldable pub get_root_path : File → Text
unfolding get_value
get_root_path file = get_value root_key file

unfoldable pub set_root_path : Text → File → File
unfolding set_value
set_root_path path file = set_value root_key path file

unfoldable pub get_theme : File → ℤ
unfolding get_value parse_int_or
get_theme file = parse_int_or (get_value theme_key file) zero_int

unfoldable pub set_theme : ℤ → File → File
unfolding set_value
set_theme theme file = set_value theme_key (to_string theme) file

unfoldable pub get_visual : File → ℤ
unfolding get_value parse_int_or
get_visual file = parse_int_or (get_value visual_key file) zero_int

unfoldable pub set_visual : ℤ → File → File
unfolding set_value
set_visual visual file = set_value visual_key (to_string visual) file

-- Where the file is, by the home directory.
unfoldable pub config_file : Option Text → Text
unfolding join_path
config_file home = elim home [
  | none ↦ join_path (codes ".") (codes "config.txt")
  | some dir ↦
      join_path (join_path (join_path dir (codes ".config")) (codes "minimalmp3"))
        (codes "config.txt")
]

-- The implementation of the interface that the dispatcher drives.
unfoldable pub config_service : Config File
config_service = record {
  get_root_path = get_root_path;
  set_root_path = set_root_path;
  get_theme = get_theme;
  set_theme = set_theme;
  get_visual = get_visual;
  set_visual = set_visual;
}
