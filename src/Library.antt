-- ===== src/Library.antt =====
-- src/library, and the choice of a decoder by src/decode/AudioDecoderFactory.cpp. The file system and
-- what the decoders find in a file are parameters.
pub mod Song
pub mod Album
pub mod Collection
pub mod Scanner
pub mod Sorting
pub mod Scanned
pub mod Example
mod Tests
use musi_tui.Base.{
  ℕ, Bool, true, false, ◌||◌, List, [], ◌∷◌, Option, none, some, if◌then◌else◌, map, get_elem?,
}
use musi_tui.Base.Int.{ℤ, pos, negsuc}
use musi_tui.Base.Text.{Text, codes, text_eq, to_lower}
use musi_tui.Base.Path.{extension}

-- What a directory holds, entry by entry.
pub record Entry : Type 0 where
  pub path : Text
  pub is_directory : Bool
  pub is_regular_file : Bool

-- What an opened decoder tells: the format, the length (0 if unknown), and how many frames each call
-- of `decodeFrames` gives.
pub record Decoded : Type 0 where
  pub sample_rate : ℕ
  pub channels : ℕ
  pub total_samples : ℕ
  pub frames : List ℕ

-- `entries` and `file_size` are `none` where the call throws, and `decoded` where no decoder opens
-- the file.
pub record Disk : Type 0 where
  pub exists : Text → Bool
  pub is_directory : Text → Bool
  pub entries : Text → Option (List Entry)
  pub file_size : Text → Option ℕ
  pub decoded : Text → Option Decoded

-- `kRegistry`, as far as its extensions go.
abbrev pub supported_extensions : List Text
supported_extensions = codes ".mp3" ∷ codes ".flac" ∷ codes ".wav" ∷ []

unfoldable pub lower_extension : Text → Text
lower_extension path = map to_lower (extension path)

listed : Text → List Text → Bool
listed ext [] = false
listed ext (e ∷ es) = text_eq e ext || listed ext es

unfoldable pub is_supported : Text → Bool
unfolding listed lower_extension
is_supported path = listed (lower_extension path) supported_extensions

-- Access by an index that may be out of range.
abbrev pub get_by_index : {A : Type 0} → List A → ℤ → Option A
get_by_index xs (pos n) = get_elem? xs n
get_by_index xs (negsuc n) = none
