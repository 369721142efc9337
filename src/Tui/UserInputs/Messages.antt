-- ===== src/Tui/UserInputs/Messages.antt =====
-- The messages stay few.
use musi_tui.Base.{
  ℕ, ◌-◌, ◌≤◌, ◌≡◌, subst, Bool, not, ◌&&◌, List, [], ◌∷◌, ◌++◌, Option, none, some, arith, inl,
  inr, Bool-cases, Option-cases, length, length-drop, is_empty,
}
use musi_tui.Base.Text.{Text, codes, lines}
use musi_tui.Commands.Dispatcher.{Service, Config, World}
use musi_tui.Commands.Dispatcher.Execute.{execute}
use musi_tui.Tui.UserInputs.{
  ChatMessage, MsgType, InputMode, command, root_config, theme_config, output_device,
  visuals_config, volume_mode, Key, escape, return_key, arrow_left, arrow_right, character,
  other_key, UserInputs, init, keep_newest, add_msg, add_all, add_notes, expire, before_frame,
  log_limit, Word, opens, asks_devices, tells, runs, ask_devices, say, user, back_to_command,
  entered, type_in, adjust, run_silently, act_on, run_command, enter_line, is_escape, is_command,
  is_volume, handle, word_of,
}

-- A log that keeps to its limit.
abbrev IsShort : List ChatMessage → Type 0
IsShort log = length log ≤ log_limit

add_msg-IsShort :
    (now : ℕ) (kind : MsgType) (t : Text) (log : List ChatMessage)
    → IsShort (add_msg now kind t log)
unfolding add_msg keep_newest
add_msg-IsShort now kind t log = omega (
  arith,
  length-drop (length (log ++ record { text = t; kind = kind; timestamp = now } ∷ []) - log_limit)
      (log ++ record { text = t; kind = kind; timestamp = now } ∷ []),
)

add_all-IsShort :
    (now : ℕ) (kind : MsgType) (ts : List Text) (log : List ChatMessage)
    → IsShort log
    → IsShort (add_all now kind ts log)
unfolding add_all
add_all-IsShort now kind [] log h = h
add_all-IsShort now kind (t ∷ ts) log h =
    add_all-IsShort now kind ts (add_msg now kind t log) (add_msg-IsShort now kind t log)

add_notes-IsShort :
    (now : ℕ) (notes : List (Text × MsgType)) (log : List ChatMessage)
    → IsShort log
    → IsShort (add_notes now notes log)
unfolding add_notes
add_notes-IsShort now [] log h = h
add_notes-IsShort now (n ∷ notes) log h =
    add_notes-IsShort now notes (add_msg now n.1 n.0 log) (add_msg-IsShort now n.1 n.0 log)

length-expire : (now : ℕ) (log : List ChatMessage) → length (expire now log) ≤ length log
unfolding expire
length-expire now [] = omega arith
length-expire now (m ∷ []) = omega arith
length-expire now (m ∷ n ∷ log) = ground (arith, length-expire now (n ∷ log))

before_frame-IsShort :
    (now : ℕ) (notes : List (Text × MsgType)) (log : List ChatMessage)
    → IsShort log
    → IsShort (before_frame now notes log)
unfolding before_frame
before_frame-IsShort now notes log h =
    omega (arith, length-expire now (add_notes now notes log), add_notes-IsShort now notes log h)

module _ {S C : Type 0} (service : Service S) (config : Config C) (now : ℕ) where
  -- Whatever comes out keeps to the limit.
  KeepsShort : Option (UserInputs S C) → Type 0
  KeepsShort none = Unit
  KeepsShort (some u) = IsShort u.chat_log

  KeepsShortBoth : Option (UserInputs S C × Bool) → Type 0
  KeepsShortBoth none = Unit
  KeepsShortBoth (some r) = IsShort r.0.chat_log

  run_command-KeepsShort :
      (line : Text) (u : UserInputs S C)
      → IsShort u.chat_log
      → KeepsShort (run_command service config now line u)
  unfolding run_command KeepsShort
  run_command-KeepsShort line u h = elim (Option-cases (execute service config line u.world)) [
    | inl overflow ↦ rw (overflow, run_command) tt
    | inr (r, ran) ↦ rw (ran, run_command) (add_all-IsShort now _ (lines r.1.message) u.chat_log h)
  ]

  ask_devices-KeepsShort :
      (devices : List Text) (u : UserInputs S C)
      → IsShort (ask_devices service config now devices u).chat_log
  ask_devices-KeepsShort [] u = add_msg-IsShort now _ _ u.chat_log
  ask_devices-KeepsShort (d ∷ devices) u = add_msg-IsShort now _ _ u.chat_log

  act_on-KeepsShort :
      (word : Word) (u : UserInputs S C)
      → IsShort u.chat_log
      → KeepsShort (act_on service config now word u)
  unfolding act_on KeepsShort
  act_on-KeepsShort (opens mode prompt) u h = add_msg-IsShort now _ prompt u.chat_log
  act_on-KeepsShort asks_devices u h =
      ask_devices-KeepsShort (service.list_output_devices u.world.service) u
  act_on-KeepsShort (tells text) u h = add_msg-IsShort now _ text u.chat_log
  act_on-KeepsShort runs u h = run_command-KeepsShort u.content u h

  back_to_command-KeepsShort :
      (o : Option (UserInputs S C))
      → KeepsShort o
      → KeepsShort (back_to_command service config now o)
  unfolding KeepsShort
  back_to_command-KeepsShort none h = tt
  back_to_command-KeepsShort (some u) h = h

  prompted-KeepsShort :
      (line : Text) (u : UserInputs S C)
      → IsShort u.chat_log
      → KeepsShort (back_to_command service config now (run_command service config now line u))
  prompted-KeepsShort line u h =
      back_to_command-KeepsShort (run_command service config now line u)
        (run_command-KeepsShort line u h)

  enter_line-KeepsShort :
      (mode : InputMode) (u : UserInputs S C)
      → IsShort u.chat_log
      → KeepsShort (enter_line service config now mode u)
  unfolding enter_line KeepsShort
  enter_line-KeepsShort command u h = act_on-KeepsShort (word_of u.content) u h
  enter_line-KeepsShort root_config u h = prompted-KeepsShort _ u h
  enter_line-KeepsShort theme_config u h = prompted-KeepsShort _ u h
  enter_line-KeepsShort output_device u h = prompted-KeepsShort _ u h
  enter_line-KeepsShort visuals_config u h = prompted-KeepsShort _ u h
  enter_line-KeepsShort volume_mode u h = h

  entered-KeepsShort :
      (o : Option (UserInputs S C)) → KeepsShort o → KeepsShortBoth (entered service config now o)
  unfolding KeepsShort KeepsShortBoth
  entered-KeepsShort none h = tt
  entered-KeepsShort (some u) h = h

  type_in-KeepsShort :
      (key : Key) (u : UserInputs S C)
      → IsShort u.chat_log
      → KeepsShortBoth (type_in service config now key u)
  unfolding KeepsShortBoth
  type_in-KeepsShort return_key u h = elim (Bool-cases (is_empty u.content)) [
    | inl nothing ↦ rw nothing h
    | inr line ↦
        let told = say service config now user u.content u in
        rw line (
          entered-KeepsShort (enter_line service config now u.mode told)
            (enter_line-KeepsShort u.mode told (add_msg-IsShort now user u.content u.chat_log)))
  ]
  type_in-KeepsShort escape u h = h
  type_in-KeepsShort arrow_left u h = h
  type_in-KeepsShort arrow_right u h = h
  type_in-KeepsShort character u h = h
  type_in-KeepsShort other_key u h = h

  run_silently-KeepsShort :
      (line : Text) (u : UserInputs S C)
      → IsShort u.chat_log
      → KeepsShortBoth (run_silently service config now line u)
  unfolding KeepsShortBoth
  run_silently-KeepsShort line u h = elim (Option-cases (execute service config line u.world)) [
    | inl overflow ↦ rw (KeepsShortBoth, overflow) tt
    | inr (r, ran) ↦ rw (KeepsShortBoth, ran) h
  ]

  adjust-KeepsShort :
      (key : Key) (u : UserInputs S C)
      → IsShort u.chat_log
      → KeepsShortBoth (adjust service config now key u)
  unfolding KeepsShortBoth
  adjust-KeepsShort arrow_right u h = run_silently-KeepsShort (codes "volume +5") u h
  adjust-KeepsShort arrow_left u h = run_silently-KeepsShort (codes "volume -5") u h
  adjust-KeepsShort character u h = h
  adjust-KeepsShort return_key u h = h
  adjust-KeepsShort escape u h = h
  adjust-KeepsShort other_key u h = h

  -- A log of at most eight messages has at most eight after every event.
  handle-KeepsShort :
      (key : Key) (u : UserInputs S C)
      → IsShort u.chat_log
      → KeepsShortBoth (handle service config now key u)
  unfolding handle KeepsShortBoth
  handle-KeepsShort key u h = elim (Bool-cases (is_escape key && not (is_command u.mode))) [
    | inl cancels ↦ rw (cancels, handle) (add_msg-IsShort now _ _ u.chat_log)
    | inr goes_on ↦ elim (Bool-cases (is_volume u.mode)) [
      | inl volume ↦ rw (goes_on, volume, handle) (adjust-KeepsShort key u h)
      | inr typing ↦ rw (goes_on, typing, handle) (type_in-KeepsShort key u h)
    ]
  ]

-- What a user and the screen can do, from the start: a key, an edit of the line by FTXUI, or a frame.
-- `handle` has no result only where `volume` overflows.
pub data Session {S C : Type 0} (service : Service S) (config : Config C)
    : UserInputs S C → Type 0 where
  started : (now : ℕ) (w : World S C) → Session service config (init now w)
  keyed :
      {u u' : UserInputs S C} {taken : Bool} (now : ℕ) (key : Key)
      → Session service config u
      → handle service config now key u ≡ some (u', taken)
      → Session service config u'
  edited :
      {u : UserInputs S C} (line : Text)
      → Session service config u
      → Session service config (record u { content = line })
  framed :
      {u : UserInputs S C} (now : ℕ) (notes : List (Text × MsgType))
      → Session service config u
      → Session service config (record u { chat_log = before_frame now notes u.chat_log })

-- At any time, the command line shows at most eight messages.
pub Session-IsShort :
    {S C : Type 0} {service : Service S} {config : Config C} {u : UserInputs S C}
    → Session service config u
    → length u.chat_log ≤ 8
unfolding KeepsShortBoth
Session-IsShort (started now w) = unfold init in omega arith
Session-IsShort {service = service} {config = config} (keyed {u = u} now key before done) =
    subst (KeepsShortBoth service config now) done
      (handle-KeepsShort service config now key u (Session-IsShort before))
Session-IsShort (edited line before) = Session-IsShort before
Session-IsShort (framed {u = u} now notes before) =
    before_frame-IsShort now notes u.chat_log (Session-IsShort before)
