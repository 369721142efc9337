-- ===== src/Library/Album.antt =====
-- src/library/Album.cpp, src/library/Playlist.cpp and src/library/AlbumInfo.cpp. `std::sort` is an
-- insertion sort; the names in a directory differ, so there is one sorted order.
use musi_tui.Base.{
  Bool, true, false, not, ◌&&◌, ◌||◌, List, [], ◌∷◌, ◌++◌, Option, none, some, if◌then◌else◌,
  length,
}
use musi_tui.Base.Int.{ℤ, pos, leb_ℤ}
use musi_tui.Base.Text.{Text, codes, text_lt}
use musi_tui.Base.Path.{filename}
use musi_tui.Library.{Entry, Disk, is_supported, get_by_index}
use musi_tui.Library.Song.{Song, new_song, total_duration, hours_minutes_seconds}

pub data AlbumType : Type 0 where
  single : AlbumType
  ep : AlbumType
  studio_album : AlbumType

pub record Album : Type 0 where
  pub dir_path : Text
  pub title : Text
  pub artist : Text
  pub kind : AlbumType
  pub songs : List Song
  pub loaded : Bool

unfoldable pub skeleton : Text → Album
skeleton dir_path = record {
  dir_path = dir_path;
  title = filename dir_path;
  artist = codes "Unknown";
  kind = single;
  songs = [];
  loaded = false;
}

unfoldable pub classify_by_num_songs : ℤ → AlbumType
classify_by_num_songs n =
    if leb_ℤ n (pos 3) then single else if leb_ℤ n (pos 7) then ep else studio_album

abbrev pub name_of : Song → Text
name_of s = filename s.file_path

unfoldable pub insert_song : Song → List Song → List Song
insert_song s [] = s ∷ []
insert_song s (t ∷ songs) =
    let rest = insert_song s songs in
    if text_lt (name_of t) (name_of s) then t ∷ rest else s ∷ t ∷ songs

unfoldable pub sort_songs : List Song → List Song
unfolding insert_song
sort_songs [] = []
sort_songs (s ∷ songs) = insert_song s (sort_songs songs)

abbrev pub take_song : Option Song → List Song → List Song
take_song none songs = songs
take_song (some s) songs = s ∷ songs

abbrev pub is_song_file : Entry → Bool
is_song_file e = not e.is_directory && (e.is_regular_file && is_supported e.path)

-- The songs among the entries; one that throws is passed over.
unfoldable pub collect : Disk → Text → List Entry → List Song
collect disk title [] = []
collect disk title (e ∷ es) =
    let rest = collect disk title es in
    if is_song_file e then take_song (new_song disk e.path title) rest else rest

-- The songs after the call, from those before it; `none` where walking through the directory throws.
unfoldable pub load_songs_from_directory : Disk → Text → Text → List Song → Option (List Song)
unfolding sort_songs collect
load_songs_from_directory disk dir_path title songs =
    if not (disk.exists dir_path) || not (disk.is_directory dir_path)
    then some songs
    else elim (disk.entries dir_path) [
      | none ↦ none
      | some es ↦ some (sort_songs (songs ++ collect disk title es))
    ]

unfoldable pub load : Disk → Album → Option Album
load disk a = elim (load_songs_from_directory disk a.dir_path a.title a.songs) [
  | none ↦ none
  | some songs ↦
      some (record a {
        songs = songs;
        kind = classify_by_num_songs (pos (length songs));
        loaded = true;
      })
]

unfoldable pub new_album : Disk → Text → Option Album
unfolding load skeleton
new_album disk dir_path = load disk (skeleton dir_path)

unfoldable pub album_type_as_string : AlbumType → Text
album_type_as_string single = codes "Single"
album_type_as_string ep = codes "EP"
album_type_as_string studio_album = codes "Studio Album"

unfoldable pub album_total_duration : Album → Option ℤ
album_total_duration a = total_duration a.songs

unfoldable pub album_formatted_duration : Album → Option Text
album_formatted_duration a = elim (album_total_duration a) [
  | none ↦ none
  | some total ↦ some (hours_minutes_seconds total)
]

unfoldable pub album_song_by_index : Album → ℤ → Option Song
album_song_by_index a index = get_by_index a.songs index

pub record Playlist : Type 0 where
  pub dir_path : Text
  pub title : Text
  pub creator : Text
  pub songs : List Song

-- `none` where walking through the directory throws. It loads as an album does.
unfoldable pub new_playlist : Disk → Text → Text → Option Playlist
new_playlist disk dir_path creator =
    elim (load_songs_from_directory disk dir_path (filename dir_path) []) [
      | none ↦ none
      | some songs ↦ some (record {
        dir_path = dir_path;
        title = filename dir_path;
        creator = creator;
        songs = songs;
      })
    ]

unfoldable pub playlist_formatted_duration : Playlist → Option Text
playlist_formatted_duration p = elim (total_duration p.songs) [
  | none ↦ none
  | some total ↦ some (hours_minutes_seconds total)
]

unfoldable pub playlist_song_by_index : Playlist → ℤ → Option Song
playlist_song_by_index p index = get_by_index p.songs index
