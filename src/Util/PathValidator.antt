-- ===== src/Util/PathValidator.antt =====
-- src/util/PathValidator.cpp, as built where paths are parted by `/`. The file system is a
-- parameter.
pub mod Utf8
pub mod Accepted
mod Tests
use Prim.Native.Nat.{bit_and}
use musi_tui.Base.{
  ℕ, zero, suc, Bool, true, false, not, ◌&&◌, ◌||◌, List, [], ◌∷◌, ◌++◌, Option, none, some, ◌==◌,
  ltb, leb, if◌then◌else◌, length, get_or, is_empty, any,
}
use musi_tui.Base.Text.{Text, codes, is_space, contains, drop_while, drop_while_back}

pub data ValidationError : Type 0 where
  no_error : ValidationError
  empty_path : ValidationError
  path_too_long : ValidationError
  contains_null_byte : ValidationError
  contains_path_traversal : ValidationError
  contains_control_characters : ValidationError
  contains_shell_metacharacters : ValidationError
  invalid_utf8 : ValidationError
  path_does_not_exist : ValidationError
  path_not_directory : ValidationError
  path_not_accessible : ValidationError

pub record Options : Type 0 where
  pub max_path_length : ℕ
  pub strict_mode : Bool
  pub allow_relative_paths : Bool
  pub require_exists : Bool
  pub require_directory : Bool

pub record ValidationResult : Type 0 where
  pub valid : Bool
  pub error : ValidationError
  pub sanitized_path : Text
  pub error_message : Text

-- `status` is `none` where the call fails, else it says whether the path is a directory.
pub record FileSystem : Type 0 where
  pub is_relative : Text → Bool
  pub exists : Text → Bool
  pub status : Text → Option Bool

pub get_error_message : ValidationError → Text
get_error_message no_error = codes "No error"
get_error_message empty_path = codes "Path cannot be empty"
get_error_message path_too_long = codes "Path exceeds maximum allowed length"
get_error_message contains_null_byte = codes "Path contains invalid null byte"
get_error_message contains_path_traversal = codes "Path contains invalid traversal sequence"
get_error_message contains_control_characters = codes "Path contains invalid control characters"
get_error_message contains_shell_metacharacters =
    codes "Path contains potentially dangerous characters"
get_error_message invalid_utf8 = codes "Path contains invalid UTF-8 encoding"
get_error_message path_does_not_exist = codes "Path does not exist"
get_error_message path_not_directory = codes "Path is not a directory"
get_error_message path_not_accessible = codes "Path is not accessible"

pub contains_null_byte_in : Text → Bool
contains_null_byte_in s = any (λ c. c == 0) s

pub contains_path_traversal_in : Text → Bool
contains_path_traversal_in s =
    contains s (codes "..")
    || contains s (codes "%2e%2e")
    || contains s (codes "%2E%2E")
    || contains s (codes "%252e")
    || contains s (codes "%252E")
    || contains s (codes "%c0%ae")
    || contains s (codes "%C0%AE")

-- Below the space and not a tab, or DEL.
abbrev pub is_control : ℕ → Bool
is_control c = (ltb c 32 && not (c == 9)) || c == 127

pub contains_control_characters_in : Text → Bool
contains_control_characters_in s = any is_control s

abbrev dangerous : Text
dangerous = codes "|;&$`\"'<>(){}[]!#*?\\~"

pub contains_shell_metacharacters_in : Text → Bool
contains_shell_metacharacters_in s =
    any (λ c. any (λ d. c == d) dangerous) s || any (λ c. c == 10) s || any (λ c. c == 13) s

abbrev is_continuation : ℕ → Bool
is_continuation b = bit_and b 0xC0 == 0x80

-- The number of bytes that follow the byte `c` in its sequence, where `s` is the rest of the text;
-- `none` if the sequence is not valid.
pub sequence_after : ℕ → Text → Option ℕ
sequence_after c s =
    let b1 = get_or s 0 0 in
    let b2 = get_or s 1 0 in
    let b3 = get_or s 2 0 in
    if leb c 0x7F
    then some 0
    else if bit_and c 0xE0 == 0xC0
    then if ltb (length s) 1 || not (is_continuation b1) || ltb c 0xC2 then none else some 1
    else if bit_and c 0xF0 == 0xE0
    then if ltb (length s) 2
        || not (is_continuation b1)
        || not (is_continuation b2)
        || (c == 0xE0 && ltb b1 0xA0)
      then none
      else some 2
    else if bit_and c 0xF8 == 0xF0
    then if ltb (length s) 3
        || not (is_continuation b1)
        || not (is_continuation b2)
        || not (is_continuation b3)
        || (c == 0xF0 && ltb b1 0x90)
        || ltb 0xF4 c
        || (c == 0xF4 && ltb 0x8F b1)
      then none
      else some 3
    else none

-- The loop of `isValidUtf8`; the first `skip` bytes belong to a sequence that has been looked at.
pub utf8_from : ℕ → Text → Bool
unfolding sequence_after
utf8_from skip [] = true
utf8_from (suc skip) (c ∷ s) = utf8_from skip s
utf8_from zero (c ∷ s) = elim (sequence_after c s) [ none ↦ false | some n ↦ utf8_from n s ]

pub is_valid_utf8 : Text → Bool
unfolding utf8_from
is_valid_utf8 s = utf8_from 0 s

pub trim_whitespace : Text → Text
trim_whitespace s = drop_while_back is_space (drop_while is_space s)

abbrev pub is_slash : ℕ → Bool
is_slash c = c == b'/' || c == b'\\'

-- The first byte stays, whatever it is.
pub normalize_path : Text → Text
normalize_path [] = []
normalize_path (c ∷ s) = c ∷ drop_while_back is_slash s

abbrev failed : ValidationError → ValidationResult
failed e = record {
  valid = false;
  error = e;
  sanitized_path = [];
  error_message = get_error_message e;
}

abbrev relative : ValidationResult
relative = record {
  valid = false;
  error = contains_path_traversal;
  sanitized_path = [];
  error_message = codes "Relative paths are not allowed";
}

module _ (fs : FileSystem) (options : Options) where
  -- The checks of a path against the file system.
  pub check_path : Text → Option ValidationError
  check_path path =
      if not options.require_exists
      then none
      else if not (fs.exists path)
      then some path_does_not_exist
      else elim (fs.status path) [
        | none ↦ some path_not_accessible
        | some is_directory ↦
            if options.require_directory && not is_directory then some path_not_directory else none
      ]

  -- The checks of the text itself.
  pub check_text : Text → Option ValidationError
  unfolding contains_null_byte_in contains_path_traversal_in contains_control_characters_in
  check_text s =
      if is_empty s
      then some empty_path
      else if ltb options.max_path_length (length s)
      then some path_too_long
      else if contains_null_byte_in s
      then some contains_null_byte
      else if contains_path_traversal_in s
      then some contains_path_traversal
      else if contains_control_characters_in s
      then some contains_control_characters
      else if options.strict_mode && contains_shell_metacharacters_in s
      then some contains_shell_metacharacters
      else if not (is_valid_utf8 s)
      then some invalid_utf8
      else none

  abbrev accepted : Text → ValidationResult
  accepted path = record {
    valid = true;
    error = no_error;
    sanitized_path = path;
    error_message = [];
  }

  unfoldable pub validate : Text → ValidationResult
  unfolding check_text check_path
  validate input =
      let trimmed = trim_whitespace input in
      let normalized = normalize_path trimmed in
      elim (check_text trimmed) [
        | some e ↦ failed e
        | none ↦
            if not options.allow_relative_paths && fs.is_relative normalized
            then relative
            else elim (check_path normalized) [ some e ↦ failed e | none ↦ accepted normalized ]
      ]
