-- ===== src/Tui/FileManager.antt =====
-- src/tui/FileManager.cpp: the two menus, of albums and of the songs of one. An index outside a
-- vector, which is undefined behaviour, is `none`.
pub mod Selection
mod Tests
use musi_tui.Base.{
  ℕ, suc, ◌+◌, ◌-◌, Bool, true, false, not, ◌&&◌, List, [], ◌∷◌, Option, none, some, ltb, leb, ◌==◌,
  if◌then◌else◌, length, is_empty, get_elem?,
}
use musi_tui.Base.Text.{Text}

-- What the queries of the library give: names, songs, loaded states and the version.
pub record Snapshot : Type 0 where
  pub album_names : List Text
  pub song_names : List (List Text)
  pub loaded_states : List Bool
  pub version : ℕ

pub record FileManager : Type 0 where
  pub albums : List Text
  pub songs_per_album : List (List Text)
  pub album_loaded : List Bool
  pub last_version : ℕ
  pub selected_album : ℕ
  pub selected_song : ℕ
  pub viewing_songs : Bool
  pub current_songs : List Text

-- The songs of the first album, if there is one.
abbrev first_songs : List Text → List (List Text) → Option (List Text)
first_songs [] songs = some []
first_songs (a ∷ albums) songs = get_elem? songs 0

abbrev shown : Snapshot → Option (List Text) → Option FileManager
shown q none = none
shown q (some songs) = some (record {
  albums = q.album_names;
  songs_per_album = q.song_names;
  album_loaded = q.loaded_states;
  last_version = q.version;
  selected_album = 0;
  selected_song = 0;
  viewing_songs = false;
  current_songs = songs;
})

-- The state at the start, and after a reload.
unfoldable pub reload : Snapshot → Option FileManager
reload q = shown q (first_songs q.album_names q.song_names)

-- The wheel of the mouse over a menu of `size` entries.
unfoldable pub wheel_up : ℕ → ℕ
wheel_up selected = selected - 1

unfoldable pub wheel_down : ℕ → ℕ → ℕ
wheel_down selected size = if ltb (selected + 1) size then selected + 1 else selected

-- The album and the index of the song that are to be played.
abbrev pub Asked : Type 0
Asked = Option (Text × ℕ)

abbrev enter : FileManager → Option (List Text) → Option Text → Option (FileManager × Asked)
enter f none album = none
enter f (some songs) none = none
enter f (some songs) (some album) =
    some
      (record f { current_songs = songs; viewing_songs = true; selected_song = 0 }, some (album, 0))

unfoldable pub album_return : FileManager → Option (FileManager × Asked)
album_return f =
    if is_empty f.albums
    then some (f, none)
    else enter f (get_elem? f.songs_per_album f.selected_album)
        (get_elem? f.albums f.selected_album)

abbrev choose : FileManager → Option Text → Option (FileManager × Asked)
choose f none = none
choose f (some album) = some (f, some (album, f.selected_song))

unfoldable pub song_return : FileManager → Option (FileManager × Asked)
song_return f =
    if is_empty f.current_songs
    then some (f, none)
    else choose f (get_elem? f.albums f.selected_album)

unfoldable pub song_backspace : FileManager → FileManager
song_backspace f = record f { viewing_songs = false }

-- The last entry, if the selection is behind it.
abbrev clamp_selection : ℕ → ℕ → ℕ
clamp_selection selected size = if leb size selected then size - 1 else selected

abbrev with_songs : FileManager → Option (List Text) → Option FileManager
with_songs f none = none
with_songs f (some songs) = some (record f {
  current_songs = songs;
  selected_song = clamp_selection f.selected_song (length songs);
})

-- A new version of the library, read into the menus.
unfoldable pub refresh : Snapshot → FileManager → Option FileManager
refresh q f =
    let read = record f {
      albums = q.album_names;
      songs_per_album = q.song_names;
      album_loaded = q.loaded_states;
      selected_album = clamp_selection f.selected_album (length q.album_names);
      last_version = q.version;
    } in
    if f.viewing_songs && not (is_empty q.album_names)
    then with_songs read (get_elem? q.song_names read.selected_album)
    else some read

-- What a frame does before it draws.
unfoldable pub before_frame : Bool → Snapshot → FileManager → Option FileManager
unfolding reload refresh
before_frame reload_flag q f =
    if reload_flag then reload q else if q.version == f.last_version then some f else refresh q f
