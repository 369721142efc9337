-- ===== src/Library/Scanner.antt =====
-- src/library/LibraryScanner.cpp.
use musi_tui.Base.{
  Bool, true, false, not, ◌&&◌, ◌||◌, List, [], ◌∷◌, Option, none, some, ◌==◌, if◌then◌else◌,
}
use musi_tui.Base.Text.{Text, codes, contains}
use musi_tui.Base.Path.{filename}
use musi_tui.Util.PathValidator.{FileSystem, Options, validate}
use musi_tui.Library.{Entry, Disk, is_supported}
use musi_tui.Library.Album.{skeleton, new_playlist}
use musi_tui.Library.Collection.{MusicLibrary, empty, add_album, add_playlist}

-- Whether any entry is a directory, and whether any is an audio file.
unfoldable pub has_subdirectories : List Entry → Bool
has_subdirectories [] = false
has_subdirectories (e ∷ es) = e.is_directory || has_subdirectories es

unfoldable pub has_audio_files : List Entry → Bool
has_audio_files [] = false
has_audio_files (e ∷ es) = (e.is_regular_file && is_supported e.path) || has_audio_files es

abbrev first_is_dot : Text → Bool
first_is_dot [] = false
first_is_dot (c ∷ s) = c == b'.'

unfoldable pub is_hidden : Text → Bool
is_hidden path = first_is_dot (filename path)

unfoldable pub is_playlist_name : Text → Bool
is_playlist_name name =
    contains name (codes "Playlist")
    || contains name (codes "playlist")
    || contains name (codes "Mix")

-- A directory of audio files and no directories is taken; one that cannot be walked is passed over.
abbrev pub is_taken : Option (List Entry) → Bool
is_taken none = false
is_taken (some es) = not (has_subdirectories es) && has_audio_files es

abbrev pub default_creator : Text
default_creator = codes "User"

-- A playlist is loaded at once, and passed over if that throws; an album is left for later.
unfoldable pub add_directory : Disk → Text → MusicLibrary → MusicLibrary
add_directory disk dir_path library =
    if is_playlist_name (filename dir_path)
    then elim (new_playlist disk dir_path default_creator) [
      | none ↦ library
      | some p ↦ add_playlist p library
    ]
    else add_album (skeleton dir_path) library

unfoldable pub scan_entry : Disk → Bool → Entry → MusicLibrary → MusicLibrary
unfolding add_directory
scan_entry disk include_hidden e library =
    if not e.is_directory
    then library
    else if not include_hidden && is_hidden e.path
    then library
    else if is_taken (disk.entries e.path)
    then add_directory disk e.path library
    else library

unfoldable pub scan_entries : Disk → Bool → List Entry → MusicLibrary → MusicLibrary
unfolding scan_entry
scan_entries disk include_hidden [] library = library
scan_entries disk include_hidden (e ∷ es) library =
    scan_entries disk include_hidden es (scan_entry disk include_hidden e library)

-- `none` where walking through the root throws.
unfoldable pub scan_root : Disk → Bool → Text → Option MusicLibrary
unfolding scan_entries
scan_root disk include_hidden root =
    if not (disk.exists root) || not (disk.is_directory root)
    then some empty
    else elim (disk.entries root) [
      | none ↦ none
      | some es ↦ some (scan_entries disk include_hidden es empty)
    ]

abbrev pub scan_options : Options
scan_options = record {
  max_path_length = 4096;
  strict_mode = true;
  allow_relative_paths = false;
  require_exists = true;
  require_directory = true;
}

-- The library, and the error text of a refusal.
unfoldable pub scan_from_user_input :
    FileSystem → Disk → Bool → Text → Option (MusicLibrary × Option Text)
unfolding scan_root validate
scan_from_user_input fs disk include_hidden input =
    let result = validate fs scan_options input in
    if not result.valid
    then some (empty, some result.error_message)
    else elim (scan_root disk include_hidden result.sanitized_path) [
      | none ↦ none
      | some library ↦ some (library, none)
    ]
