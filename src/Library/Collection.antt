-- ===== src/Library/Collection.antt =====
-- src/library/MusicLibrary.cpp.
use musi_tui.Base.{ℕ, ◌+◌, List, [], ◌∷◌, ◌++◌, Option, none, some, if◌then◌else◌, length, set, map}
use musi_tui.Base.Int.{ℤ, pos, negsuc}
use musi_tui.Base.Text.{Text, text_eq}
use musi_tui.Library.{get_by_index}
use musi_tui.Library.Album.{Album, Playlist}

pub record MusicLibrary : Type 0 where
  pub albums : List Album
  pub playlists : List Playlist

abbrev pub empty : MusicLibrary
empty = record { albums = []; playlists = [] }

unfoldable pub add_album : Album → MusicLibrary → MusicLibrary
add_album a l = record l { albums = l.albums ++ a ∷ [] }

unfoldable pub add_playlist : Playlist → MusicLibrary → MusicLibrary
add_playlist p l = record l { playlists = l.playlists ++ p ∷ [] }

abbrev song_sum : List ℕ → ℕ
song_sum [] = 0
song_sum (n ∷ ns) = n + song_sum ns

-- Lists of fewer than 2 ^ 31 songs are taken for granted.
unfoldable pub get_total_songs : MusicLibrary → ℕ
get_total_songs l =
    song_sum (map (λ a. length a.songs) l.albums) + song_sum (map (λ p. length p.songs) l.playlists)

-- An index out of range changes nothing.
unfoldable pub replace_album : ℤ → Album → MusicLibrary → MusicLibrary
replace_album (pos n) a l = record l { albums = set l.albums n a }
replace_album (negsuc n) a l = l

unfoldable pub get_album_paths : MusicLibrary → List Text
get_album_paths l = map (λ a. a.dir_path) l.albums

unfoldable pub get_album_by_index : MusicLibrary → ℤ → Option Album
get_album_by_index l index = get_by_index l.albums index

unfoldable pub get_playlist_by_index : MusicLibrary → ℤ → Option Playlist
get_playlist_by_index l index = get_by_index l.playlists index

abbrev pub first_titled : Text → List Album → Option Album
first_titled title [] = none
first_titled title (a ∷ albums) =
    let rest = first_titled title albums in if text_eq a.title title then some a else rest

unfoldable pub find_album_by_title : MusicLibrary → Text → Option Album
find_album_by_title l title = first_titled title l.albums

abbrev playlist_titled : Text → List Playlist → Option Playlist
playlist_titled title [] = none
playlist_titled title (p ∷ playlists) =
    let rest = playlist_titled title playlists in if text_eq p.title title then some p else rest

unfoldable pub find_playlist_by_title : MusicLibrary → Text → Option Playlist
find_playlist_by_title l title = playlist_titled title l.playlists
