-- ===== src/Service/Library/Tests.antt =====
-- The theorems on the service at concrete inputs.
use musi_tui.Base.{
  ◌≡◌, ◌<◌, ◌*◌, ◌⊎◌, refl, true, false, List, [], ◌∷◌, some, map, length, is_empty,
}
use musi_tui.Base.Path.{filename}
use musi_tui.Base.Int.{pos}
use musi_tui.Base.Text.{Text, codes, text_lt}
use musi_tui.Library.{Disk, is_supported}
use musi_tui.Library.Example.{disk, low_entries}
use musi_tui.Library.Song.{Song, standard, new_song}
use musi_tui.Library.Album.{
  Album, single, skeleton, new_album, load_songs_from_directory, classify_by_num_songs,
}
use musi_tui.Library.Collection.{find_album_by_title, replace_album, get_album_paths}
use musi_tui.Player.Controller.{get_current_song}
use musi_tui.Service.Library.{
  LibraryService, deliver, start_background_load, play_song, claim, get_current_track_index,
}
use musi_tui.Service.Library.Playing.{play_song-current}
use musi_tui.Service.Library.Loaders.{Move, claims, delivers, move, moves}
use musi_tui.Service.Library.Completion.{background_load_ends}
use musi_tui.Service.Library.Example.{around, second, low, service}

found : find_album_by_title service.library (codes "Low") ≡ some low
unfolding find_album_by_title
found = refl

play_song-current_example :
    let after = play_song around (codes "Low") (pos 1) service in
    (after.controller.queue.playlist ≡ codes "/m/Low/b.mp3" ∷ codes "/m/Low/c.mp3" ∷ [])
    × (get_current_song after.controller ≡ codes "/m/Low/b.mp3")
    × (after.controller.current_album_name ≡ codes "Low")
    × (get_current_track_index after ≡ pos 0)
play_song-current_example =
    play_song-current around (codes "Low") 1 service low second found refl refl

abbrev read_song : Text → Text → Song
read_song path title = record {
  file_path = path;
  title = title;
  artist = codes "Unknown";
  album = codes "Low";
  kind = standard;
  duration_seconds = pos 200;
}

-- The album as its directory has it, in the order of the names.
abbrev read_album : Album
read_album = record {
  dir_path = codes "/m/Low";
  title = codes "Low";
  artist = codes "Unknown";
  kind = single;
  songs =
      read_song (codes "/m/Low/a.MP3") (codes "a")
      ∷ read_song (codes "/m/Low/b.mp3") (codes "b")
      ∷ [];
  loaded = true;
}

-- A disk where every directory holds the same two songs, and what its albums are.
abbrev same_everywhere : Disk
same_everywhere = record disk { entries = λ path. some low_entries }

abbrev song_in : Text → Song → Song
song_in path song = record song { album = filename path }

abbrev album_of : Text → Album
album_of path = record read_album {
  dir_path = path;
  title = filename path;
  songs =
      song_in path (read_song (codes "/m/Low/a.MP3") (codes "a"))
      ∷ song_in path (read_song (codes "/m/Low/b.mp3") (codes "b"))
      ∷ [];
}

all_read : (path : Text) → new_album same_everywhere path ≡ some (album_of path)
unfolding new_album load_songs_from_directory classify_by_num_songs is_supported new_song text_lt
all_read path = refl

-- Two albums, that two loaders take and deliver in the other order.
abbrev two_albums : LibraryService
two_albums = record service {
  library = record {
    albums = skeleton (codes "/m/Low") ∷ skeleton (codes "/m/High") ∷ [];
    playlists = [];
  };
}

abbrev schedule : List Move
schedule = claims ∷ claims ∷ delivers 1 ∷ delivers 0 ∷ []

abbrev loaded : LibraryService
loaded = record (start_background_load 8 two_albums) {
  library = record {
    albums = album_of (codes "/m/Low") ∷ album_of (codes "/m/High") ∷ [];
    playlists = [];
  };
  data_version = 3;
  load = some (record {
    paths = codes "/m/Low" ∷ codes "/m/High" ∷ [];
    workers = 2;
    next_album = 2;
    at_work = [];
  });
}

ran : moves same_everywhere schedule (start_background_load 8 two_albums) ≡ some loaded
unfolding moves deliver claim start_background_load get_album_paths skeleton new_album
    load_songs_from_directory replace_album classify_by_num_songs is_supported new_song text_lt
ran = refl

some_albums : is_empty (get_album_paths two_albums.library) ≡ false
unfolding get_album_paths
some_albums = refl

background_load_ends_example :
    ((length schedule < 2 * length two_albums.library.albums)
      × ((c : Move) × (u : LibraryService) × (move same_everywhere c loaded ≡ some u)))
    ⊎ ((length schedule ≡ 2 * length two_albums.library.albums)
        × (loaded.library.albums ≡ map album_of (get_album_paths two_albums.library)))
unfolding get_album_paths skeleton
background_load_ends_example =
    background_load_ends same_everywhere album_of 8 two_albums loaded schedule
      (all_read (codes "/m/Low"), (all_read (codes "/m/High"), tt)) some_albums ran
