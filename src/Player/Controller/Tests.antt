-- ===== src/Player/Controller/Tests.antt =====
-- A controller that plays a short album to its end.
use musi_tui.Base.{refl, Bool, true, [], ◌∷◌, List, none, some}
use musi_tui.Base.Text.{Text, codes}
use musi_tui.Player.Engine.{World, init as new_engine}
use musi_tui.Player.Engine.Invariant.{init-IsValid}
use musi_tui.Player.SongQueue.{init as new_queue, get_current_song_path}
use musi_tui.Player.SongQueue.Cursor.{init-IsValid as init_queue-IsValid}
use musi_tui.Player.Controller.{
  Controller, load_album, play_song_at_index, handle_auto_advance, pause,
}
use musi_tui.Player.Controller.Driven.{
  IsSound, untouched, album, picked, advanced, paused_once, Driven-IsSound,
}
use musi_tui.Base.Int.{pos}

-- A world in which every file opens and no device does.
abbrev silent : World
silent = record {
  decoder_factory = λ p. true;
  decoder_open = λ p.
      some (record { format = record { sample_rate = 44100; channels = 2 }; total_samples = 100 });
  sink_factory = true;
  sdl = record {
    audio_ok = true;
    open_audio_device = λ f name. none;
    new_audio_stream = λ a b. true;
    get_error = codes "No device";
  };
  filename = λ p. p;
  prefill = [];
}

abbrev fresh : Controller
fresh = record {
  engine = new_engine;
  queue = new_queue;
  monitoring = Bool.false;
  events = [];
  current_album = [];
  current_album_name = [];
}

abbrev songs : List Text
songs = codes "/m/a.mp3" ∷ codes "/m/b.mp3" ∷ []

fresh-IsSound : IsSound fresh
unfolding new_queue new_engine get_current_song_path
fresh-IsSound = record {
  formed = record { engine = init-IsValid; queue = init_queue-IsValid };
  in_step = record {
    songs = tt;
    plays = λ h. cc;
    same_album = λ h. cc;
    monitored = refl;
    announced = tt;
  };
}

Driven-IsSound_example : IsSound (
    pause (handle_auto_advance silent (play_song_at_index silent (pos 1) (load_album songs fresh))))
Driven-IsSound_example = Driven-IsSound fresh-IsSound (
    paused_once
      (advanced silent (picked silent (pos 1) (album songs (refl, (refl, tt)) untouched))))
