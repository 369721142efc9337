-- ===== src/Service/Library/Example.antt =====
-- A service for the tests: an album of three songs that is loaded, and an engine with no device.
use musi_tui.Base.{true, false, [], ◌∷◌, none, some}
use musi_tui.Base.Int.{pos}
use musi_tui.Base.Text.{Text, codes}
use musi_tui.Library.Example.{disk}
use musi_tui.Library.Song.{Song, standard}
use musi_tui.Library.Album.{Album, single}
use musi_tui.Player.Engine.{World, init as new_engine}
use musi_tui.Player.SongQueue.{init as new_queue}
use musi_tui.Service.Library.{LibraryService, Around}

abbrev silent : World
silent = record {
  decoder_factory = λ p. true;
  decoder_open = λ p.
      some (record { format = record { sample_rate = 44100; channels = 2 }; total_samples = 100 });
  sink_factory = true;
  sdl = record {
    audio_ok = true;
    open_audio_device = λ f name. none;
    new_audio_stream = λ a b. true;
    get_error = codes "No device";
  };
  filename = λ p. p;
  prefill = [];
}

abbrev pub around : Around
around = record {
  world = silent;
  files = record { is_relative = λ p. false; exists = λ p. true; status = λ p. some true };
  disk = disk;
  devices = codes "Speakers" ∷ [];
  hardware_concurrency = 8;
}

abbrev song : Text → Song
song path = record {
  file_path = path;
  title = path;
  artist = [];
  album = codes "Low";
  kind = standard;
  duration_seconds = pos 200;
}

abbrev pub second : Song
second = song (codes "/m/Low/b.mp3")

abbrev pub low : Album
low = record {
  dir_path = codes "/m/Low";
  title = codes "Low";
  artist = [];
  kind = single;
  songs = song (codes "/m/Low/a.mp3") ∷ second ∷ song (codes "/m/Low/c.mp3") ∷ [];
  loaded = true;
}

abbrev pub service : LibraryService
service = record {
  library = record { albums = low ∷ []; playlists = [] };
  controller = record {
    engine = new_engine;
    queue = new_queue;
    monitoring = false;
    events = [];
    current_album = [];
    current_album_name = [];
  };
  data_version = 1;
  load = some (record { paths = codes "/m/Low" ∷ []; workers = 1; next_album = 0; at_work = [] });
}
