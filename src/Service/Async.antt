-- ===== src/Service/Async.antt =====
-- src/service/AsyncLibraryService.cpp: the calls that change playback are handed to the queue of
-- commands; the others go straight to the service behind it.
pub mod Equivalence
mod Tests
use musi_tui.Base.{List, [], ◌∷◌}
use musi_tui.Base.Int.{ℤ}
use musi_tui.Base.Text.{Text}
use musi_tui.Commands.Dispatcher.{Service}
use musi_tui.Commands.Queue.{CommandQueue, enqueue}

-- The commands that it hands in.
pub data ServiceCommand : Type 0 where
  play_song : Text → ℤ → ServiceCommand
  prev_song : ServiceCommand
  next_song : ServiceCommand
  resume_playback : ServiceCommand
  stop_playback : ServiceCommand
  set_volume : ℤ → ServiceCommand
  set_output_device : ℤ → ServiceCommand

module _ {S : Type 0} (real : Service S) where
  -- What a command does when it runs.
  unfoldable pub run_command : ServiceCommand → S → S
  run_command (play_song album index) s = real.play_song album index s
  run_command prev_song s = real.prev_song s
  run_command next_song s = real.next_song s
  run_command resume_playback s = real.resume_playback s
  run_command stop_playback s = real.stop_playback s
  run_command (set_volume percent) s = real.set_volume percent s
  run_command (set_output_device index) s = real.set_output_device index s

  unfoldable pub async_service : Service (CommandQueue ServiceCommand S)
  async_service = record {
    get_album_names = λ q. real.get_album_names q.world;
    get_album_loaded_states = λ q. real.get_album_loaded_states q.world;
    get_song_names = λ q album. real.get_song_names q.world album;
    get_current_album = λ q. real.get_current_album q.world;
    get_current_song_name = λ q. real.get_current_song_name q.world;
    get_next_song_name = λ q. real.get_next_song_name q.world;
    get_current_track_index = λ q. real.get_current_track_index q.world;
    get_volume = λ q. real.get_volume q.world;
    is_playing = λ q. real.is_playing q.world;
    list_output_devices = λ q. real.list_output_devices q.world;
    resume_playback = enqueue resume_playback;
    stop_playback = enqueue stop_playback;
    next_song = enqueue next_song;
    prev_song = enqueue prev_song;
    play_song = λ album index. enqueue (play_song album index);
    set_volume = λ percent. enqueue (set_volume percent);
    set_output_device = λ index. enqueue (set_output_device index);
    set_root_path = λ path q.
        let (s, error) = real.set_root_path path q.world in (record q { world = s }, error);
  }
