-- ===== src/Commands/Dispatcher/Execute.antt =====
-- `CommandDispatcher::execute` of src/commands/CommandDispatcher.cpp.
use musi_tui.Base.{◌||◌, ◌++◌, Option, some, if◌then◌else◌, is_empty}
use musi_tui.Base.Text.{Text, codes, text_eq, take_until, drop_until}
use musi_tui.Commands.Result.{success, failure}
use musi_tui.Commands.Quoting.{trim}
use musi_tui.Commands.Dispatcher.{Service, Config, World, Outcome, request_quit, on_service, on_ui}
use musi_tui.Commands.Dispatcher.Queries.{help, status, albums, songs}
use musi_tui.Commands.Dispatcher.Playing.{is_blank, play, volume}
use musi_tui.Commands.Dispatcher.Settings.{output, theme, visual, root}

-- The verbs that `execute` tells apart, in the order of its tests.
pub data Verb : Type 0 where
  empty_verb : Verb
  help_verb : Verb
  status_verb : Verb
  albums_verb : Verb
  songs_verb : Verb
  play_verb : Verb
  stop_verb : Verb
  next_verb : Verb
  prev_verb : Verb
  volume_verb : Verb
  output_verb : Verb
  theme_verb : Verb
  visual_verb : Verb
  root_verb : Verb
  quit_verb : Verb
  unknown_verb : Verb

unfoldable pub verb_of : Text → Verb
verb_of v =
    if is_empty v
    then empty_verb
    else if text_eq v (codes "help")
    then help_verb
    else if text_eq v (codes "status")
    then status_verb
    else if text_eq v (codes "albums")
    then albums_verb
    else if text_eq v (codes "songs")
    then songs_verb
    else if text_eq v (codes "play")
    then play_verb
    else if text_eq v (codes "stop") || text_eq v (codes "pause")
    then stop_verb
    else if text_eq v (codes "next")
    then next_verb
    else if text_eq v (codes "prev")
    then prev_verb
    else if text_eq v (codes "volume")
    then volume_verb
    else if text_eq v (codes "output")
    then output_verb
    else if text_eq v (codes "theme") || text_eq v (codes "themes")
    then theme_verb
    else if text_eq v (codes "visual") || text_eq v (codes "visuals")
    then visual_verb
    else if text_eq v (codes "root") || text_eq v (codes "RootConfig")
    then root_verb
    else if text_eq v (codes "quit") || text_eq v (codes "q")
    then quit_verb
    else unknown_verb

module _ {S C : Type 0} (service : Service S) (config : Config C) where
  -- `none` is the overflow in `volume`.
  unfoldable pub run_verb : Verb → Text → Text → World S C → Option (Outcome S C)
  run_verb empty_verb v args w = some (w, failure (codes "Empty command"))
  run_verb help_verb v args w = some (w, help)
  run_verb status_verb v args w = some (w, status service config w)
  run_verb albums_verb v args w = some (w, albums service config w)
  run_verb songs_verb v args w = some (w, songs service config args w)
  run_verb play_verb v args w = some (play service args w)
  run_verb stop_verb v args w = some (on_service service.stop_playback w, success (codes "Stopped"))
  run_verb next_verb v args w = some (on_service service.next_song w, success (codes "Next track"))
  run_verb prev_verb v args w =
      some (on_service service.prev_song w, success (codes "Previous track"))
  run_verb volume_verb v args w = volume service args w
  run_verb output_verb v args w = some (output service config args w)
  run_verb theme_verb v args w = some (theme service config args w)
  run_verb visual_verb v args w = some (visual service config args w)
  run_verb root_verb v args w = some (root service config args w)
  run_verb quit_verb v args w = some (on_ui request_quit w, success (codes "Quitting"))
  run_verb unknown_verb v args w = some (w, failure (codes "Unknown command: " ++ v))

  unfoldable pub execute : Text → World S C → Option (Outcome S C)
  unfolding run_verb
  execute line w =
      let trimmed = trim line in
      let v = take_until is_blank trimmed in
      run_verb (verb_of v) v (trim (drop_until is_blank trimmed)) w
