-- ===== src/Commands/Dispatcher.antt =====
-- The interfaces that src/commands/CommandDispatcher.cpp drives: `ILibraryService` and
-- `IConfigService` (src/service), as records of operations on the state of an implementation, and
-- `IUiBridge` (src/commands/IUiBridge.h), as the list of calls made on it.
pub mod Names
pub mod Queries
pub mod Playing
pub mod Settings
pub mod Execute
pub mod Effects
pub mod Ranges
pub mod Addressing
pub mod Example
mod Tests
use musi_tui.Base.{ℕ, Bool, List, [], ◌∷◌, ◌++◌, Option}
use musi_tui.Base.Int.{ℤ}
use musi_tui.Base.Text.{Text}
use musi_tui.Commands.Result.{CommandResult}

-- The methods of `ILibraryService` that the dispatcher calls. `set_root_path` returns the error
-- text of a refusal.
pub record Service (S : Type 0) : Type 0 where
  pub get_album_names : S → List Text
  pub get_album_loaded_states : S → List Bool
  pub get_song_names : S → Text → List Text
  pub get_current_album : S → Text
  pub get_current_song_name : S → Text
  pub get_next_song_name : S → Text
  pub get_current_track_index : S → ℤ
  pub get_volume : S → ℤ
  pub is_playing : S → Bool
  pub list_output_devices : S → List Text
  pub resume_playback : S → S
  pub stop_playback : S → S
  pub next_song : S → S
  pub prev_song : S → S
  pub play_song : Text → ℤ → S → S
  pub set_volume : ℤ → S → S
  pub set_output_device : ℤ → S → S
  pub set_root_path : Text → S → S × Option Text

pub record Config (C : Type 0) : Type 0 where
  pub get_root_path : C → Text
  pub set_root_path : Text → C → C
  pub get_theme : C → ℤ
  pub set_theme : ℤ → C → C
  pub get_visual : C → ℤ
  pub set_visual : ℤ → C → C

pub data UiCall : Type 0 where
  apply_theme : ℕ → UiCall
  apply_visual : ℕ → UiCall
  library_changed : UiCall
  request_quit : UiCall

pub record World (S C : Type 0) : Type 0 where
  pub service : S
  pub config : C
  pub ui : List UiCall

abbrev pub on_service : {S C : Type 0} → (S → S) → World S C → World S C
on_service f w = record w { service = f w.service }

abbrev pub on_config : {S C : Type 0} → (C → C) → World S C → World S C
on_config f w = record w { config = f w.config }

abbrev pub on_ui : {S C : Type 0} → UiCall → World S C → World S C
on_ui call w = record w { ui = w.ui ++ call ∷ [] }

-- What a handler leaves and returns.
abbrev pub Outcome : Type 0 → Type 0 → Type 0
Outcome S C = World S C × CommandResult
