-- ===== src/Tui/FileManager/Tests.antt =====
-- The menus over a library of two albums, and the theorem at a concrete input.
use musi_tui.Base.{◌≡◌, refl, true, false, [], ◌∷◌, none, some}
use musi_tui.Base.Text.{codes}
use musi_tui.Tui.FileManager.{
  Snapshot, FileManager, reload, album_return, refresh, song_return, before_frame,
}
use musi_tui.Tui.FileManager.Selection.{IsConsistent, Settles, handle, framed, handle-Settles}

abbrev two : Snapshot
two = record {
  album_names = codes "Low" ∷ codes "Heroes" ∷ [];
  song_names = (codes "a" ∷ codes "b" ∷ []) ∷ (codes "c" ∷ []) ∷ [];
  loaded_states = true ∷ false ∷ [];
  version = 2;
}

abbrev no_albums : Snapshot
no_albums = record { album_names = []; song_names = []; loaded_states = []; version = 3 }

-- The songs of the second album are on view.
abbrev viewing : FileManager
viewing = record {
  albums = codes "Low" ∷ codes "Heroes" ∷ [];
  songs_per_album = (codes "a" ∷ codes "b" ∷ []) ∷ (codes "c" ∷ []) ∷ [];
  album_loaded = true ∷ false ∷ [];
  last_version = 1;
  selected_album = 1;
  selected_song = 0;
  viewing_songs = true;
  current_songs = codes "c" ∷ [];
}

viewing-IsConsistent : IsConsistent viewing
viewing-IsConsistent = record { paired = refl; album_inside = refl; song_inside = refl }

handle-Settles_example : Settles (handle (framed false two) viewing)
handle-Settles_example = handle-Settles (framed false two) viewing viewing-IsConsistent refl

entered : album_return viewing ≡ some (viewing, some (codes "Heroes", 0))
unfolding album_return
entered = refl

-- The library empties while songs are on view: they stay in the menu, and Return on one of them looks
-- up an album that is not there.
abbrev emptied : FileManager
emptied = record viewing {
  albums = [];
  songs_per_album = [];
  album_loaded = [];
  selected_album = 0;
  last_version = 3;
}

out_of_range : (refresh no_albums viewing ≡ some emptied) × (song_return emptied ≡ none)
unfolding refresh song_return
out_of_range = (refl, refl)

-- Names of two albums with the songs of one: the queries are made one after the other.
torn : before_frame true (record two { song_names = [] }) viewing ≡ none
unfolding before_frame reload
torn = refl
