-- ===== src/Service/Library.antt =====
-- src/service/LibraryService.cpp: the library and the playback behind one interface. The mutex makes
-- each access to the library one step. The threads that load albums run between the calls.
pub mod Playing
pub mod Loading
pub mod Loaders
pub mod Completion
pub mod Example
mod Tests
use musi_tui.Base.{
  ℕ, suc, ◌+◌, ◌%◌, ◌^◌, Bool, true, false, not, ◌||◌, List, [], ◌∷◌, ◌++◌, Option, none, some,
  ◌==◌, leb, ltb, min, ◌&&◌, if◌then◌else◌, map, length, drop, is_empty, get_or, get_elem?,
}
use musi_tui.Base.Int.{ℤ, pos, negsuc, ◌-ℤ◌}
use musi_tui.Base.Text.{Text, codes}
use musi_tui.Base.Path.{stem}
use musi_tui.Library.{Disk, get_by_index}
use musi_tui.Library.Album.{Album, new_album}
use musi_tui.Library.Collection.{MusicLibrary, find_album_by_title, get_album_paths, replace_album}
use musi_tui.Library.Scanner.{scan_from_user_input}
use musi_tui.Util.PathValidator.{FileSystem}
use musi_tui.Player.Engine.{World, say, complain}
use musi_tui.Player.Controller.{
  Controller, set_current_album, load_album, play_song_at_index, is_playing as controller_playing,
  previous, next, play, pause, set_volume as set_controller_volume, get_volume as controller_volume,
  set_output_device as set_controller_device, get_current_song, get_next_song_path,
  get_current_track_number,
}
use musi_tui.Commands.Dispatcher.{Service}

-- The load in the background: the paths that it was started with, the number of threads that load,
-- the next index that one of them takes, and the indices that they are at work on.
pub record Load : Type 0 where
  pub paths : List Text
  pub workers : ℕ
  pub next_album : ℕ
  pub at_work : List ℕ

pub record LibraryService : Type 0 where
  pub library : MusicLibrary
  pub controller : Controller
  pub data_version : ℕ
  pub load : Option Load

-- What surrounds a call: the engine's world, the file system, the output devices, and what
-- `hardware_concurrency` answers.
pub record Around : Type 0 where
  pub world : World
  pub files : FileSystem
  pub disk : Disk
  pub devices : List Text
  pub hardware_concurrency : ℕ

abbrev pub on_controller : (Controller → Controller) → LibraryService → LibraryService
on_controller f s = record s { controller = f s.controller }

abbrev pub tell : Text → LibraryService → LibraryService
tell message s = on_controller (λ c. record c { engine = say message c.engine }) s

unfoldable pub get_album_names : LibraryService → List Text
get_album_names s = map (λ a. a.title) s.library.albums

unfoldable pub get_album_loaded_states : LibraryService → List Bool
get_album_loaded_states s = map (λ a. a.loaded) s.library.albums

abbrev titles : Option Album → List Text
titles none = []
titles (some a) = map (λ song. song.title) a.songs

unfoldable pub get_song_names : LibraryService → Text → List Text
get_song_names s album_name = titles (find_album_by_title s.library album_name)

unfoldable pub get_all_song_names : LibraryService → List (List Text)
get_all_song_names s = map (λ a. map (λ song. song.title) a.songs) s.library.albums

abbrev pub next_version : ℕ → ℕ
next_version v = (v + 1) % 2 ^ 32

abbrev pub worker_count : ℕ → ℕ → ℕ
worker_count hw albums = min albums (if ltb hw 2 then 2 else if ltb 4 hw then 4 else hw)

-- The list that a load begins with, and its threads; an earlier load has been stopped.
unfoldable pub start_background_load : ℕ → LibraryService → LibraryService
start_background_load hw s =
    let paths = get_album_paths s.library in
    if is_empty paths
    then s
    else tell (codes "Tip: keep albums small for a faster launch") (record s {
      load = some (record {
        paths = paths;
        workers = worker_count hw (length paths);
        next_album = 0;
        at_work = [];
      });
    })

-- The loaders have been joined.
unfoldable pub stop_background_load : LibraryService → LibraryService
stop_background_load s = record s { load = none }

-- A loader that is not at work takes the next index.
unfoldable pub claim : LibraryService → LibraryService
claim s = elim s.load [
  | none ↦ s
  | some l ↦
      if ltb (length l.at_work) l.workers && ltb l.next_album (length l.paths)
      then record s {
        load =
            some (record l { next_album = suc l.next_album; at_work = l.next_album ∷ l.at_work });
      }
      else s
]

abbrev pub without : ℕ → List ℕ → List ℕ
without i [] = []
without i (j ∷ js) = if i == j then js else j ∷ without i js

abbrev pub work_done : ℕ → Option Load → Option Load
work_done i none = none
work_done i (some l) = some (record l { at_work = without i l.at_work })

-- A loader that is at work on index `i` has read its album, and puts it into the library; `none`
-- where reading throws, which ends the program.
unfoldable pub deliver : Disk → Load → ℕ → LibraryService → Option LibraryService
deliver disk l i s = elim (new_album disk (get_or l.paths i [])) [
  | none ↦ none
  | some full ↦ some (record s {
    library = replace_album (pos i) full s.library;
    data_version = next_version s.data_version;
    load = work_done i s.load;
  })
]

-- A library that was scanned takes the place of the old one, unless the scan was refused.
unfoldable pub adopt :
    ℕ → MusicLibrary → Option Text → LibraryService → LibraryService × Option Text
unfolding start_background_load stop_background_load
adopt hw scanned (some error) s = (s, some error)
adopt hw scanned none s = (
  start_background_load hw (record (stop_background_load s) {
    library = scanned;
    data_version = next_version s.data_version;
  }),
  none,
)

-- `Album still loading…`, in UTF-8
abbrev still_loading : Text
still_loading = codes "Album still loading" ++ 226 ∷ 128 ∷ 166 ∷ []

module _ (around : Around) where
  -- The playlist is the songs from the chosen one on.
  unfoldable pub start_album : Text → Album → ℕ → Controller → Controller
  start_album album_name album index c = play_song_at_index around.world (pos 0) (
      load_album (map (λ song. song.file_path) (drop index album.songs))
        (set_current_album album_name c))

  abbrev play_in : Text → Album → ℤ → LibraryService → LibraryService
  play_in album_name album (negsuc n) s = if album.loaded then s else tell still_loading s
  play_in album_name album (pos n) s =
      if not album.loaded
      then tell still_loading s
      else if leb (length album.songs) n
      then s
      else on_controller (start_album album_name album n) s

  unfoldable pub play_song : Text → ℤ → LibraryService → LibraryService
  unfolding start_album
  play_song album_name index s = elim (find_album_by_title s.library album_name) [
    | none ↦ s
    | some album ↦ play_in album_name album index s
  ]

  -- The new state, and the error text of a refusal; `none` where the scan throws.
  unfoldable pub set_root_path : Text → LibraryService → Option (LibraryService × Option Text)
  unfolding adopt
  set_root_path path s = elim (scan_from_user_input around.files around.disk false path) [
    | none ↦ none
    | some scanned ↦ some (adopt around.hardware_concurrency scanned.0 scanned.1 s)
  ]

  abbrev switch_device : Option Text → LibraryService → LibraryService
  switch_device none s =
      on_controller
        (λ c. record c { engine = complain (codes "Output device no longer available") c.engine }) s
  switch_device (some name) s = on_controller (λ c. (set_controller_device around.world name c).0) s

  unfoldable pub set_output_device : ℤ → LibraryService → LibraryService
  set_output_device index s = switch_device (get_by_index around.devices index) s

abbrev song_label : Text → Text
song_label path = if is_empty path then [] else stem path

unfoldable pub get_current_song_name : LibraryService → Text
get_current_song_name s = song_label (get_current_song s.controller)

unfoldable pub get_next_song_name : LibraryService → Text
get_next_song_name s = song_label (get_next_song_path s.controller)

unfoldable pub get_current_track_index : LibraryService → ℤ
get_current_track_index s = get_current_track_number s.controller -ℤ pos 1

-- The implementation of the interface that the dispatcher drives. A scan that throws, which reaches
-- the caller as an exception, counts as a refusal with the text of the exception.
unfoldable pub library_service : Around → Text → Service LibraryService
library_service around exception_text = record {
  get_album_names = get_album_names;
  get_album_loaded_states = get_album_loaded_states;
  get_song_names = get_song_names;
  get_current_album = λ s. s.controller.current_album_name;
  get_current_song_name = get_current_song_name;
  get_next_song_name = get_next_song_name;
  get_current_track_index = get_current_track_index;
  get_volume = λ s. controller_volume s.controller;
  is_playing = λ s. controller_playing s.controller;
  list_output_devices = λ s. around.devices;
  resume_playback = on_controller (play around.world);
  stop_playback = on_controller pause;
  next_song = on_controller (next around.world);
  prev_song = on_controller (previous around.world);
  play_song = play_song around;
  set_volume = λ percent. on_controller (set_controller_volume percent);
  set_output_device = set_output_device around;
  set_root_path =
      λ path s. elim (set_root_path around path s) [ none ↦ (s, some exception_text) | some r ↦ r ];
}
