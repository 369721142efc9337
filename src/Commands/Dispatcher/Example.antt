-- ===== src/Commands/Dispatcher/Example.antt =====
-- A small service for the tests.
use musi_tui.Base.{ℕ, true, false, [], ◌∷◌, Option, none, some}
use musi_tui.Base.Int.{ℤ, pos, negsuc}
use musi_tui.Base.Text.{Text, codes}
use musi_tui.Commands.Dispatcher.{Service, Config, World}

-- The volume, and the last song asked for.
pub record Player : Type 0 where
  pub level : ℕ
  pub asked : Option (Text × ℤ)

abbrev pub fixture : Service Player
fixture = record {
  get_album_names = λ s. codes "Abbey Road" ∷ codes "abbey road" ∷ codes "Low" ∷ [];
  get_album_loaded_states = λ s. true ∷ true ∷ true ∷ [];
  get_song_names = λ s a. codes "one" ∷ codes "two" ∷ codes "three" ∷ [];
  get_current_album = λ s. [];
  get_current_song_name = λ s. [];
  get_next_song_name = λ s. [];
  get_current_track_index = λ s. negsuc 0;
  get_volume = λ s. pos s.level;
  is_playing = λ s. false;
  list_output_devices = λ s. codes "Speakers" ∷ [];
  resume_playback = λ s. s;
  stop_playback = λ s. s;
  next_song = λ s. s;
  prev_song = λ s. s;
  play_song = λ a i s. record s { asked = some (a, i) };
  set_volume = λ v s. s;
  set_output_device = λ d s. s;
  set_root_path = λ p s. (s, some (codes "Path does not exist"));
}

abbrev pub settings : Config (ℤ × ℤ)
settings = record {
  get_root_path = λ c. [];
  set_root_path = λ p c. c;
  get_theme = λ c. c.0;
  set_theme = λ t c. (t, c.1);
  get_visual = λ c. c.1;
  set_visual = λ v c. (c.0, v);
}

abbrev pub world : World Player (ℤ × ℤ)
world = record { service = record { level = 40; asked = none }; config = (pos 0, pos 0); ui = [] }
