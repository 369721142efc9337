-- ===== src/Tui/UserInputs.antt =====
-- src/tui/UserInputs.cpp: the command line, its guided prompts and the messages above it. Time is in
-- milliseconds. What an event does to the text is FTXUI's, where it is not handled here.
pub mod Prompts
pub mod Messages
mod Tests
use musi_tui.Base.{
  ℕ, suc, ◌+◌, ◌-◌, Bool, true, false, not, ◌&&◌, ◌||◌, List, [], ◌∷◌, ◌++◌, Option, none, some,
  ltb, leb, if◌then◌else◌, length, is_empty, drop, map,
}
use musi_tui.Base.Text.{Text, codes, text_eq, lines}
use musi_tui.Commands.Result.{CommandResult}
use musi_tui.Commands.Quoting.{quote_arg}
use musi_tui.Commands.Dispatcher.{Service, Config, World}
use musi_tui.Commands.Dispatcher.Execute.{execute}
use musi_tui.Tui.UserInputs.Prompts.{build_device_list_prompt}

pub data InputMode : Type 0 where
  command : InputMode
  root_config : InputMode
  theme_config : InputMode
  output_device : InputMode
  visuals_config : InputMode
  volume_mode : InputMode

pub data MsgType : Type 0 where
  system : MsgType
  user : MsgType
  error : MsgType

pub record ChatMessage : Type 0 where
  pub text : Text
  pub kind : MsgType
  pub timestamp : ℕ

-- The events that the code tells apart.
pub data Key : Type 0 where
  escape : Key
  return_key : Key
  arrow_left : Key
  arrow_right : Key
  character : Key
  other_key : Key

pub record UserInputs (S C : Type 0) : Type 0 where
  pub content : Text
  pub mode : InputMode
  pub chat_log : List ChatMessage
  pub world : World S C

-- The state at the start.
unfoldable pub init : {S C : Type 0} → ℕ → World S C → UserInputs S C
init now w = record {
  content = [];
  mode = command;
  chat_log =
      record { text = codes "Type 'help' for commands"; kind = system; timestamp = now } ∷ [];
  world = w;
}

unfoldable pub mode_label : InputMode → Text
mode_label root_config = codes "RootConfig"
mode_label theme_config = codes "Themes"
mode_label output_device = codes "Output"
mode_label visuals_config = codes "Visuals"
mode_label volume_mode = codes "Volume"
mode_label command = []

abbrev pub log_limit : ℕ
log_limit = 8

-- The newest messages, as many as fit.
unfoldable pub keep_newest : List ChatMessage → List ChatMessage
keep_newest log = drop (length log - log_limit) log

unfoldable pub add_msg : ℕ → MsgType → Text → List ChatMessage → List ChatMessage
unfolding keep_newest
add_msg now kind text log =
    keep_newest (log ++ record { text = text; kind = kind; timestamp = now } ∷ [])

unfoldable pub add_all : ℕ → MsgType → List Text → List ChatMessage → List ChatMessage
unfolding add_msg
add_all now kind [] log = log
add_all now kind (t ∷ ts) log = add_all now kind ts (add_msg now kind t log)

abbrev result_kind : CommandResult → MsgType
result_kind r = if r.ok then system else error

-- What a bare word in command mode does.
pub data Word : Type 0 where
  opens : InputMode → Text → Word
  asks_devices : Word
  tells : Text → Word
  runs : Word

unfoldable pub word_of : Text → Word
word_of inp =
    if text_eq inp (codes "RootConfig")
    then opens root_config (codes "Enter new root path (Esc to cancel):")
    else if text_eq inp (codes "themes")
    then opens theme_config (codes "[1]-Fire [2]-BW [3]-PurpleRain [4]-Forest (Esc to cancel)")
    else if text_eq inp (codes "output")
    then asks_devices
    else if text_eq inp (codes "visuals")
    then opens visuals_config
        (codes "[1]-Spectrum [2]-Oscilloscope [3]-Mirrored [4]-Rolling [5]-Wave (Esc to cancel)")
    else if text_eq inp (codes "volume")
    then opens volume_mode (codes "Volume: Left/Right arrows to adjust, Esc to exit")
    else if text_eq inp (codes "help")
    then tells
        (codes "play, stop, next, prev, status, albums, volume, output, visuals, themes, quit/q")
    else if text_eq inp (codes "fileHelp")
    then tells (codes "Albums: Up/Down, Enter=select, Backspace=back")
    else runs

abbrev pub is_command : InputMode → Bool
is_command command = true
is_command _ = false

abbrev pub is_volume : InputMode → Bool
is_volume volume_mode = true
is_volume _ = false

abbrev pub is_escape : Key → Bool
is_escape escape = true
is_escape _ = false

-- What the renderer does to the messages before it draws: what the bus holds comes in, and old
-- messages at the front go, but not the last one.
abbrev age_limit : MsgType → ℕ
age_limit user = 2000
age_limit system = 6000
age_limit error = 6000

unfoldable pub expire : ℕ → List ChatMessage → List ChatMessage
expire now [] = []
expire now (m ∷ []) = m ∷ []
expire now (m ∷ n ∷ log) =
    let rest = expire now (n ∷ log) in
    if ltb (age_limit m.kind) (now - m.timestamp) then rest else m ∷ n ∷ log

unfoldable pub add_notes : ℕ → List (Text × MsgType) → List ChatMessage → List ChatMessage
unfolding add_msg
add_notes now [] log = log
add_notes now (n ∷ notes) log = add_notes now notes (add_msg now n.1 n.0 log)

unfoldable pub before_frame : ℕ → List (Text × MsgType) → List ChatMessage → List ChatMessage
unfolding expire add_notes
before_frame now notes log = expire now (add_notes now notes log)

module _ {S C : Type 0} (service : Service S) (config : Config C) (now : ℕ) where
  abbrev pub say : MsgType → Text → UserInputs S C → UserInputs S C
  say kind text u = record u { chat_log = add_msg now kind text u.chat_log }

  -- `none` is the overflow in `volume`.
  unfoldable pub run_command : Text → UserInputs S C → Option (UserInputs S C)
  run_command line u = elim (execute service config line u.world) [
    | none ↦ none
    | some r ↦ some (record u {
      world = r.0;
      chat_log = add_all now (result_kind r.1) (lines r.1.message) u.chat_log;
    })
  ]

  -- A command whose result is not shown.
  abbrev pub run_silently : Text → UserInputs S C → Option (UserInputs S C × Bool)
  run_silently line u = elim (execute service config line u.world) [
    | none ↦ none
    | some r ↦ some (record u { world = r.0 }, true)
  ]

  abbrev pub ask_devices : List Text → UserInputs S C → UserInputs S C
  ask_devices [] u = say error (codes "No output devices found.") u
  ask_devices (d ∷ devices) u =
      say system (build_device_list_prompt (d ∷ devices) ++ codes " (Esc to cancel)")
        (record u { mode = output_device })

  unfoldable pub act_on : Word → UserInputs S C → Option (UserInputs S C)
  act_on (opens mode prompt) u = some (say system prompt (record u { mode = mode }))
  act_on asks_devices u = some (ask_devices (service.list_output_devices u.world.service) u)
  act_on (tells text) u = some (say system text u)
  act_on runs u = run_command u.content u

  abbrev pub back_to_command : Option (UserInputs S C) → Option (UserInputs S C)
  back_to_command none = none
  back_to_command (some u) = some (record u { mode = command })

  -- The `switch` over the mode when a line is entered.
  unfoldable pub enter_line : InputMode → UserInputs S C → Option (UserInputs S C)
  unfolding act_on
  enter_line command u = act_on (word_of u.content) u
  enter_line root_config u = back_to_command (run_command (codes "root " ++ quote_arg u.content) u)
  enter_line theme_config u =
      back_to_command (run_command (codes "theme " ++ quote_arg u.content) u)
  enter_line output_device u =
      back_to_command (run_command (codes "output " ++ quote_arg u.content) u)
  enter_line visuals_config u =
      back_to_command (run_command (codes "visual " ++ quote_arg u.content) u)
  enter_line volume_mode u = some u

  abbrev pub entered : Option (UserInputs S C) → Option (UserInputs S C × Bool)
  entered none = none
  entered (some u) = some (record u { content = [] }, true)

  -- In volume mode.
  abbrev pub adjust : Key → UserInputs S C → Option (UserInputs S C × Bool)
  adjust arrow_right u = run_silently (codes "volume +5") u
  adjust arrow_left u = run_silently (codes "volume -5") u
  adjust character u = some (u, true)
  adjust return_key u = some (u, true)
  adjust escape u = some (u, false)
  adjust other_key u = some (u, false)

  -- In the other modes.
  abbrev pub type_in : Key → UserInputs S C → Option (UserInputs S C × Bool)
  type_in return_key u =
      if is_empty u.content
      then some (u, false)
      else entered (enter_line u.mode (say user u.content u))
  type_in _ u = some (u, false)

  abbrev pub cancel : UserInputs S C → UserInputs S C
  cancel u = record (say system (codes "Cancelled " ++ mode_label u.mode) u) {
    mode = command;
    content = [];
  }

  -- The handler of an event: the new state, and whether the event goes no further.
  unfoldable pub handle : Key → UserInputs S C → Option (UserInputs S C × Bool)
  unfolding enter_line
  handle key u =
      if is_escape key && not (is_command u.mode)
      then some (cancel u, true)
      else if is_volume u.mode
      then adjust key u
      else type_in key u
