-- ===== src/Service/Library/Playing.antt =====
-- What a song that is asked for does to the queue, and what a refused root leaves.
use musi_tui.Base.{
  ℕ, zero, suc, ◌≡◌, refl, ◌∙◌, ap, true, false, List, [], ◌∷◌, Option, none, some, is_some, arith,
  inl, inr, Bool-cases, Option-cases, map, length, drop, get_elem?, leb, is_empty,
}
use musi_tui.Base.Int.{ℤ, pos, ◌+ℤ◌, ◌-ℤ◌}
use musi_tui.Base.Text.{Text}
use musi_tui.Library.Song.{Song}
use musi_tui.Library.Album.{Album}
use musi_tui.Library.Collection.{MusicLibrary, find_album_by_title}
use musi_tui.Library.Scanner.{scan_from_user_input}
use musi_tui.Player.Engine.{World, stop_playback}
use musi_tui.Player.Engine.Load.{load}
use musi_tui.Player.SongQueue.{SongQueue, get_current_song_path, load_playlist, skip_to, clear}
use musi_tui.Player.Controller.{
  Controller, set_current_album, load_album, load_and_play_song, play_song_at_index, stop,
  get_current_song, get_current_track_number,
}
use musi_tui.Commands.Dispatcher.Effects.{KeepsOnRefusal}
use musi_tui.Service.Library.{
  LibraryService, Around, play_song, start_album, adopt, set_root_path, get_current_track_index,
  library_service,
}

-- Loading and playing a song touches neither the queue nor the album's name.
load_and_play_song-queue :
    (world : World) (path : Text) (c : Controller)
    → ((load_and_play_song world path c).queue ≡ c.queue)
      × ((load_and_play_song world path c).current_album_name ≡ c.current_album_name)
unfolding load_and_play_song
load_and_play_song-queue world path c =
    elim (Bool-cases (load world path (stop_playback c.engine)).1) [
      | inl ok ↦ rw (ok, load_and_play_song) (refl, refl)
      | inr failed ↦ rw (failed, load_and_play_song) (refl, refl)
    ]

play_song_at_index-queue :
    (world : World) (index : ℤ) (c : Controller)
    → is_empty c.queue.playlist ≡ false
    → ((play_song_at_index world index c).queue ≡ (skip_to index c.queue).0)
      × ((play_song_at_index world index c).current_album_name ≡ c.current_album_name)
unfolding play_song_at_index
play_song_at_index-queue world index c held =
    elim (Bool-cases (is_empty (skip_to index c.queue).1)) [
      | inl unnamed ↦ rw (held, unnamed, play_song_at_index) (refl, refl)
      | inr named ↦
          rw (held, named, play_song_at_index)
            (load_and_play_song-queue world (skip_to index c.queue).1
              (record c { queue = (skip_to index c.queue).0 }))
    ]

-- The queue of a playlist that is at its first song.
abbrev at_first : List Text → SongQueue → SongQueue
at_first paths q = (skip_to (pos 0) (load_playlist paths q)).0

first_song :
    (world : World) (p : Text) (ps : List Text) (c : Controller)
    → let c' = play_song_at_index world (pos 0) (load_album (p ∷ ps) c) in
      (c'.queue ≡ at_first (p ∷ ps) (clear c.queue))
      × (c'.current_album_name ≡ c.current_album_name)
unfolding load_album stop load_playlist
first_song world p ps c = play_song_at_index-queue world (pos 0) (load_album (p ∷ ps) c) refl

at_first-current :
    (p : Text) (ps : List Text) (q : SongQueue)
    → (get_current_song_path (at_first (p ∷ ps) q) ≡ p)
      × ((at_first (p ∷ ps) q).current_index ≡ pos 0)
      × ((at_first (p ∷ ps) q).playlist ≡ p ∷ ps)
unfolding skip_to load_playlist get_current_song_path
at_first-current p ps q = ground arith

-- The songs from an index on begin with the song at it.
drop-get :
    (songs : List Song) (n : ℕ) {song : Song}
    → get_elem? songs n ≡ some song
    → (rest : List Song) × (drop n songs ≡ song ∷ rest)
drop-get [] n h = cc
drop-get (s ∷ songs) zero h = (songs, cc)
drop-get (s ∷ songs) (suc n) h = drop-get songs n h

found_inside :
    (songs : List Song) (n : ℕ) {song : Song}
    → get_elem? songs n ≡ some song
    → leb (length songs) n ≡ false
found_inside [] n h = cc
found_inside (s ∷ songs) zero h = ground arith
found_inside (s ∷ songs) (suc n) h = ground (arith, found_inside songs n h)

-- What holds of a controller that plays a song of an album.
abbrev PlaysFrom : List Text → Text → Text → Controller → Type 0
PlaysFrom paths song album_name c =
    (c.queue.playlist ≡ paths)
    × (get_current_song c ≡ song)
    × (c.current_album_name ≡ album_name)
    × (get_current_track_number c ≡ pos 1)

start_album-PlaysFrom :
    (around : Around) (album_name : Text) (n : ℕ) (a : Album) (song : Song) (c : Controller)
    → get_elem? a.songs n ≡ some song
    → PlaysFrom
        (map (λ t. t.file_path) (drop n a.songs))
        song.file_path
        album_name
        (start_album around album_name a n c)
unfolding start_album get_current_song get_current_track_number set_current_album
start_album-PlaysFrom around album_name n a song c here =
    let (rest, from_here) = drop-get a.songs n here in
    let paths = map (λ t. t.file_path) rest in
    let (queue, name) =
      first_song around.world song.file_path paths (set_current_album album_name c) in
    let (current, index, playlist) =
      at_first-current song.file_path paths (clear (set_current_album album_name c).queue) in
    rw from_here (
      ap (λ q. q.playlist) queue ∙ playlist,
      ap get_current_song_path queue ∙ current,
      name,
      ap (λ q. q.current_index +ℤ pos 1) queue ∙ ap (λ i. i +ℤ pos 1) index,
    )

-- A song of an album that is loaded, asked for by its place: the playlist is the songs of the album
-- from there on, the song is the current one, and the album is the one named. The index of the
-- current track is 0, whatever place was asked for.
pub play_song-current :
    (around : Around) (album_name : Text) (n : ℕ) (s : LibraryService) (a : Album) (song : Song)
    → find_album_by_title s.library album_name ≡ some a
    → a.loaded ≡ true
    → get_elem? a.songs n ≡ some song
    → let after = play_song around album_name (pos n) s in
      (after.controller.queue.playlist ≡ map (λ t. t.file_path) (drop n a.songs))
      × (get_current_song after.controller ≡ song.file_path)
      × (after.controller.current_album_name ≡ album_name)
      × (get_current_track_index after ≡ pos 0)
unfolding get_current_track_index play_song start_album
play_song-current around album_name n s a song found loaded here =
    let chosen : play_song around album_name (pos n) s
        ≡ record s { controller = start_album around album_name a n s.controller } =
      rw (play_song, found, loaded, found_inside a.songs n here) refl in
    let (playlist, current, name, number) =
      start_album-PlaysFrom around album_name n a song s.controller here in
    (
      ap (λ t. t.controller.queue.playlist) chosen ∙ playlist,
      ap (λ t. get_current_song t.controller) chosen ∙ current,
      ap (λ t. t.controller.current_album_name) chosen ∙ name,
      ap get_current_track_index chosen ∙ ap (λ t. t -ℤ pos 1) number,
    )

adopt_refused :
    (hw : ℕ) (scanned : MusicLibrary) (error : Option Text) (s : LibraryService)
    → is_some (adopt hw scanned error s).1 ≡ true
    → (adopt hw scanned error s).0 ≡ s
unfolding adopt
adopt_refused hw scanned (some error) s h = refl
adopt_refused hw scanned none s h = cc

-- A root that is refused leaves the service as it was.
pub library_service-KeepsOnRefusal :
    (around : Around) (exception_text : Text)
    → KeepsOnRefusal (library_service around exception_text)
unfolding library_service set_root_path
library_service-KeepsOnRefusal around exception_text path s refused =
    elim (Option-cases (scan_from_user_input around.files around.disk false path)) [
      | inl thrown ↦
          let threw : set_root_path around path s ≡ none = rw (set_root_path, thrown) refl in
          rw (library_service, threw) refl
      | inr (r, scanned) ↦
          let done : set_root_path around path s
              ≡ some (adopt around.hardware_concurrency r.0 r.1 s) =
            rw (set_root_path, scanned) refl in
          rw (library_service, done)
            (adopt_refused around.hardware_concurrency r.0 r.1 s
              (rw (library_service, done) at refused))
    ]
