-- ===== src/Commands/Dispatcher/Effects.antt =====
-- What a command may do to the service, the configuration and the screen.
use musi_tui.Base.{
  ◌≡◌, refl, Bool, true, false, not, ◌&&◌, arith, is_some, Option, subst, some, none,
}
use musi_tui.Base.Text.{Text}
use musi_tui.Commands.Quoting.{single_arg}
use musi_tui.Commands.Result.{CommandResult}
use musi_tui.Commands.Dispatcher.{Service, Config, World, Outcome}
use musi_tui.Commands.Dispatcher.Queries.{songs}
use musi_tui.Commands.Dispatcher.Playing.{
  play, volume, play_request, request_of, Request, track_of, refused,
}
use musi_tui.Commands.Dispatcher.Settings.{output, theme, visual, root}
use musi_tui.Commands.Dispatcher.Execute.{
  Verb, empty_verb, help_verb, status_verb, albums_verb, songs_verb, play_verb, stop_verb,
  next_verb, prev_verb, volume_verb, output_verb, theme_verb, visual_verb, root_verb, quit_verb,
  unknown_verb, execute, run_verb,
}

-- A result that reports an action, and not an answer or a failure.
abbrev pub acted : CommandResult → Bool
acted r = r.ok && not r.read_only

-- Unless it reports an action, the outcome leaves the world as it was.
abbrev Honest : {S C : Type 0} → World S C → Option (Outcome S C) → Type 0
Honest w none = Unit
Honest w (some o) = acted o.1 ≡ false → o.0 ≡ w

module _ {S C : Type 0} (service : Service S) where
  play_request-Honest : (r : Request) (w : World S C) → Honest w (some (play_request service r w))
  unfolding play_request
  play_request-Honest (refused message) w = ground arith
  play_request-Honest (track_of album track) w = ground arith

  play-Honest : (args : Text) (w : World S C) → Honest w (some (play service args w))
  unfolding play
  play-Honest args w =
      ground (arith, play_request-Honest (request_of (service.get_album_names w.service) args) w)

  volume-Honest : (args : Text) (w : World S C) → Honest w (volume service args w)
  unfolding volume
  volume-Honest args w = ground arith

-- A refused root leaves the service as it was.
abbrev pub KeepsOnRefusal : {S : Type 0} → Service S → Type 0
KeepsOnRefusal {S = S} service =
    (path : Text) (s : S)
    → is_some (service.set_root_path path s).1 ≡ true
    → (service.set_root_path path s).0 ≡ s

module _ {S C : Type 0} (service : Service S) (config : Config C) where
  output-Honest : (args : Text) (w : World S C) → Honest w (some (output service config args w))
  unfolding output
  output-Honest args w = ground arith

  theme-Honest : (args : Text) (w : World S C) → Honest w (some (theme service config args w))
  unfolding theme
  theme-Honest args w = ground arith

  visual-Honest : (args : Text) (w : World S C) → Honest w (some (visual service config args w))
  unfolding visual
  visual-Honest args w = ground arith

  songs-reads : (args : Text) (w : World S C) → acted (songs service config args w) ≡ false
  unfolding songs
  songs-reads args w = ground arith

  root-Honest :
      (args : Text) (w : World S C)
      → KeepsOnRefusal service
      → Honest w (some (root service config args w))
  unfolding root
  root-Honest args w keeps = ground (arith, keeps (single_arg args) w.service)

  run_verb-Honest :
      (verb : Verb) (v args : Text) (w : World S C)
      → KeepsOnRefusal service
      → Honest w (run_verb service config verb v args w)
  unfolding run_verb
  run_verb-Honest empty_verb v args w keeps = λ unacted. refl
  run_verb-Honest help_verb v args w keeps = λ unacted. refl
  run_verb-Honest status_verb v args w keeps = λ unacted. refl
  run_verb-Honest albums_verb v args w keeps = λ unacted. refl
  run_verb-Honest songs_verb v args w keeps = λ unacted. refl
  run_verb-Honest play_verb v args w keeps = play-Honest service args w
  run_verb-Honest stop_verb v args w keeps = cc
  run_verb-Honest next_verb v args w keeps = cc
  run_verb-Honest prev_verb v args w keeps = cc
  run_verb-Honest volume_verb v args w keeps = volume-Honest service args w
  run_verb-Honest output_verb v args w keeps = output-Honest args w
  run_verb-Honest theme_verb v args w keeps = theme-Honest args w
  run_verb-Honest visual_verb v args w keeps = visual-Honest args w
  run_verb-Honest root_verb v args w keeps = root-Honest args w keeps
  run_verb-Honest quit_verb v args w keeps = cc
  run_verb-Honest unknown_verb v args w keeps = λ unacted. refl

  -- A command that answers a query or reports a failure changes nothing, neither the service nor
  -- the configuration nor the screen, if the service keeps its state where it refuses a root.
  pub execute_unacted :
      (line : Text) {w w' : World S C} {r : CommandResult}
      → KeepsOnRefusal service
      → execute service config line w ≡ some (w', r)
      → acted r ≡ false
      → w' ≡ w
  unfolding execute
  execute_unacted line {w} {w'} {r} keeps ran unacted =
      subst (Honest w) ran (run_verb-Honest _ _ _ w keeps) unacted
