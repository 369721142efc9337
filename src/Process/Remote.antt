-- ===== src/Process/Remote.antt =====
-- `handleRemote` of src/App.cpp: a request to the player with a screen. The thread of the screen
-- executes it; the thread of the control server waits two seconds for the result.
use musi_tui.Base.{◌==◌, Bool, ◌++◌, Option, none, some, if◌then◌else◌}
use musi_tui.Base.Text.{Text, codes, take_until}
use musi_tui.Events.Bus.{Bus, push, info, error}
use musi_tui.Commands.Result.{CommandResult, failure, to_json}
use musi_tui.Commands.Dispatcher.{Service, Config, World}
use musi_tui.Commands.Dispatcher.Execute.{execute}

-- The state of the program as far as requests go: the dispatcher's world, and the bus.
pub record App (S C : Type 0) : Type 0 where
  pub world : World S C
  pub bus : Bus

-- The first line of a message.
abbrev pub summary : Text → Text
summary message = take_until (λ c. c == 10) message

abbrev pub announce : CommandResult → Bus → Bus
announce r bus =
    if r.read_only
    then bus
    else push (codes "ctl: " ++ summary r.message) (if r.ok then info else error) bus

module _ {S C : Type 0} (service : Service S) (config : Config C) where
  -- What the thread of the screen does; `none` is an overflow in `volume`.
  unfoldable pub run_posted : Text → App S C → Option (App S C × CommandResult)
  run_posted line app = elim (execute service config line app.world) [
    | none ↦ none
    | some (w, r) ↦ some (record { world = w; bus = announce r app.bus }, r)
  ]

  abbrev too_late : Text
  too_late = to_json (failure (codes "Player did not respond in time"))

  -- The reply, by whether the result is there in time; the command is executed all the same.
  unfoldable pub handle_remote : Bool → Text → App S C → Option (App S C × Text)
  unfolding run_posted
  handle_remote in_time line app = elim (run_posted line app) [
    | none ↦ none
    | some (app', r) ↦ some (app', if in_time then to_json r else too_late)
  ]
