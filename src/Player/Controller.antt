-- ===== src/Player/Controller.antt =====
-- src/player/PlaybackController.cpp over the engine and the queue, with the events that it
-- publishes. The bus is shared with the engine, whose state holds it. `monitoring` says that the
-- thread of the auto-advance manager runs.
pub mod Invariant
pub mod Steps
pub mod Driven
mod Tests
use musi_tui.Base.{
  ℕ, Bool, true, false, ◌&&◌, List, [], ◌∷◌, ◌++◌, if◌then◌else◌, length, is_empty, not,
}
use musi_tui.Base.Int.{ℤ, pos, ◌+ℤ◌}
use musi_tui.Base.Text.{Text, codes}
use musi_tui.Base.Decimal.{to_string, to_string_ℕ}
use musi_tui.Player.Engine.{
  Engine, World, State, playing, stopped, paused, say, complain, stop_playback, is_in_playing,
  has_reached_end_of_stream, pause as pause_engine, set_volume as set_engine_volume,
}
use musi_tui.Player.Engine.Load.{load}
use musi_tui.Player.Engine.Play.{play as play_engine}
use musi_tui.Player.Engine.Device.{set_output_device as set_engine_device}
use musi_tui.Player.SongQueue.{
  SongQueue, load_playlist, get_current_song_path, clear, skip_to, next as next_in_queue,
  previous as previous_in_queue, get_next_song_path as queue_next_song_path,
}

pub data PlaybackEventType : Type 0 where
  song_started : PlaybackEventType
  song_paused : PlaybackEventType
  song_resumed : PlaybackEventType
  song_stopped : PlaybackEventType
  song_finished : PlaybackEventType
  album_finished : PlaybackEventType
  track_changed : PlaybackEventType
  load_failed : PlaybackEventType

pub record PlaybackEvent : Type 0 where
  pub kind : PlaybackEventType
  pub song_path : Text
  pub track_number : ℤ
  pub total_tracks : ℕ
  pub message : Text

pub record Controller : Type 0 where
  pub engine : Engine
  pub queue : SongQueue
  pub monitoring : Bool
  pub events : List PlaybackEvent
  pub current_album : List Text
  pub current_album_name : Text

unfoldable pub set_current_album : Text → Controller → Controller
set_current_album name c = record c { current_album_name = name }

unfoldable pub is_playing : Controller → Bool
is_playing c = is_in_playing c.engine.state

unfoldable pub get_volume : Controller → ℤ
get_volume c = c.engine.volume

unfoldable pub get_current_song : Controller → Text
get_current_song c = get_current_song_path c.queue

unfoldable pub get_next_song_path : Controller → Text
get_next_song_path c = queue_next_song_path c.queue

unfoldable pub get_current_track_number : Controller → ℤ
get_current_track_number c = c.queue.current_index +ℤ pos 1

abbrev pub bare : PlaybackEventType → PlaybackEvent
bare kind = record {
  kind = kind;
  song_path = [];
  track_number = pos 0;
  total_tracks = 0;
  message = [];
}

abbrev on_engine : (Engine → Engine) → Controller → Controller
on_engine f c = record c { engine = f c.engine }

abbrev publish : PlaybackEvent → Controller → Controller
publish event c = record c { events = c.events ++ event ∷ [] }

-- An event about a song, with the place of the current one in the queue.
abbrev song_event : PlaybackEventType → Text → Controller → PlaybackEvent
song_event kind path c = record {
  kind = kind;
  song_path = path;
  track_number = c.queue.current_index +ℤ pos 1;
  total_tracks = length c.queue.playlist;
  message = [];
}

abbrev is_in_paused : State → Bool
is_in_paused paused = true
is_in_paused playing = false
is_in_paused stopped = false

unfoldable pub stop : Controller → Controller
stop c = publish (bare song_stopped) (record c {
  engine = stop_playback c.engine;
  queue = clear c.queue;
  monitoring = false;
  current_album = [];
})

-- The playlist has run out.
unfoldable pub finish_album : Controller → Controller
finish_album c = publish (bare album_finished) (record c {
  engine = stop_playback (say (codes "End of album reached") c.engine);
  queue = clear c.queue;
})

unfoldable pub pause : Controller → Controller
pause c = publish (bare song_paused) (on_engine pause_engine c)

unfoldable pub set_volume : ℤ → Controller → Controller
set_volume percent c = on_engine (set_engine_volume percent) c

unfoldable pub should_auto_advance : Controller → Bool
should_auto_advance c = is_in_playing c.engine.state && has_reached_end_of_stream c.engine

unfoldable pub load_album : List Text → Controller → Controller
unfolding stop
load_album paths c =
    let stopped_first = stop c in
    let held = record stopped_first {
      current_album = paths;
      queue = load_playlist paths stopped_first.queue;
    } in
    if is_empty paths
    then held
    else publish (bare track_changed) (record held {
      engine =
          say (codes "Album loaded: " ++ to_string_ℕ (length paths) ++ codes " tracks") held.engine;
      monitoring = true;
    })

module _ (world : World) where
  unfoldable pub load_and_play_song : Text → Controller → Controller
  load_and_play_song path c =
      let (loaded, ok) = load world path (stop_playback c.engine) in
      let name = world.filename path in
      if not ok
      then publish
          (record {
            kind = load_failed;
            song_path = path;
            track_number = pos 0;
            total_tracks = 0;
            message = codes "Failed to load song";
          })
          (record c { engine = complain (codes "Failed to load: " ++ name) loaded })
      else publish (song_event song_started path c)
          (record c { engine = play_engine world (say (codes "Now playing: " ++ name) loaded) })

  unfoldable pub play : Controller → Controller
  unfolding load_and_play_song
  play c =
      let song = get_current_song_path c.queue in
      if is_empty c.queue.playlist
      then on_engine (complain (codes "No album loaded")) c
      else if is_in_paused c.engine.state
      then publish (bare song_resumed) (on_engine (play_engine world) c)
      else if is_empty song
      then on_engine (complain (codes "No current song")) c
      else load_and_play_song song c

  unfoldable pub next : Controller → Controller
  unfolding load_and_play_song finish_album
  next c =
      let (queue, song) = next_in_queue c.queue in
      let moved = record c { queue = queue } in
      if is_empty song
      then finish_album moved
      else publish (song_event track_changed song moved) (load_and_play_song song moved)

  unfoldable pub previous : Controller → Controller
  unfolding load_and_play_song
  previous c =
      let (queue, song) = previous_in_queue c.queue in
      let moved = record c { queue = queue } in
      if is_empty song
      then on_engine (say (codes "Already at first song")) moved
      else publish (song_event track_changed song moved) (load_and_play_song song moved)

  unfoldable pub play_song_at_index : ℤ → Controller → Controller
  unfolding load_and_play_song
  play_song_at_index index c =
      let (queue, song) = skip_to index c.queue in
      let moved = record c { queue = queue } in
      if is_empty c.queue.playlist
      then on_engine (complain (codes "No album loaded")) c
      else if is_empty song
      then on_engine (complain (codes "Invalid index: " ++ to_string index)) moved
      else load_and_play_song song moved

  unfoldable pub handle_auto_advance : Controller → Controller
  unfolding load_and_play_song finish_album
  handle_auto_advance c =
      let (queue, song) = next_in_queue c.queue in
      let moved = record c { queue = queue; engine = say (codes "Auto-advancing...") c.engine } in
      if is_empty song
      then finish_album moved
      else publish (bare song_finished) (load_and_play_song song moved)

  unfoldable pub set_output_device : Text → Controller → Controller × Bool
  set_output_device name c =
      let (engine, ok) = set_engine_device world name c.engine in (record c { engine = engine }, ok)
