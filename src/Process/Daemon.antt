-- ===== src/Process/Daemon.antt =====
-- src/Daemon.cpp: the player without a screen. Its dispatcher, over any service and configuration,
-- answers the control server; `quit` and the signals wake the main thread through the pipe `stop_`.
pub mod Control
use musi_tui.Base.{
  ℕ, Bool, true, false, not, List, [], ◌∷◌, ◌++◌, Option, none, some, if◌then◌else◌,
}
use musi_tui.Base.Text.{Text, codes}
use musi_tui.Events.Bus.{Bus, Notification, NotifyLevel, info, error}
use musi_tui.Commands.Result.{CommandResult, to_json}
use musi_tui.Commands.Dispatcher.{
  Service, Config, World, UiCall, apply_theme, apply_visual, library_changed, request_quit,
}
use musi_tui.Commands.Dispatcher.Execute.{execute}
use musi_tui.Ipc.SocketIo.{newline}
use musi_tui.Ipc.Server.{Handled, responded}
use musi_tui.Process.SelfPipe.{SelfPipe, notify}

pub record Daemon (S C : Type 0) : Type 0 where
  pub world : World S C
  pub stop : SelfPipe

-- `IUiBridge` of the daemon.
unfoldable pub on_ui_call : UiCall → SelfPipe → SelfPipe
on_ui_call (apply_theme index) stop = stop
on_ui_call (apply_visual index) stop = stop
on_ui_call library_changed stop = stop
on_ui_call request_quit stop = notify stop

unfoldable pub on_ui_calls : List UiCall → SelfPipe → SelfPipe
unfolding on_ui_call
on_ui_calls [] stop = stop
on_ui_calls (call ∷ calls) stop = on_ui_calls calls (on_ui_call call stop)

module _ {S C : Type 0} (service : Service S) (config : Config C) where
  abbrev quiet : Daemon S C → World S C
  quiet d = record d.world { ui = [] }

  abbrev bridged : World S C → Daemon S C → Daemon S C
  bridged w d = record { world = record w { ui = [] }; stop = on_ui_calls w.ui d.stop }

  -- A request: the command is executed, and its calls on the screen are answered.
  unfoldable pub handle_request : Text → Daemon S C → Option (Daemon S C × CommandResult)
  handle_request request d = elim (execute service config request (quiet d)) [
    | none ↦ none
    | some (w, r) ↦ some (bridged w d, r)
  ]

  -- The handler of the control server. After an overflow in `volume` nothing is known: `none`.
  unfoldable pub daemon_handler : Text → Option (Daemon S C) → Option (Daemon S C) × Handled
  unfolding handle_request
  daemon_handler request none = (none, responded [])
  daemon_handler request (some d) = elim (handle_request request d) [
    | none ↦ (none, responded [])
    | some (d', r) ↦ (some d', responded (to_json r))
  ]

-- What `poll` on the pipe answers.
pub data Polled : Type 0 where
  ready : Polled
  timed_out : Polled
  interrupted : Polled
  failed : Polled

abbrev pub ends : Polled → Bool
ends ready = true
ends timed_out = false
ends interrupted = false
ends failed = true

abbrev prefix : NotifyLevel → Text
prefix info = []
prefix error = codes "error: "

-- `drainNotifications`: what is logged of the pending notifications.
unfoldable pub drain_notifications : Bus → Text
drain_notifications [] = []
drain_notifications (n ∷ bus) = prefix n.level ++ (n.message ++ newline ∷ drain_notifications bus)

pub record Ended : Type 0 where
  pub code : ℕ
  pub out : Text
  pub err : Text

abbrev log_then : Text → Option Text → Option Text
log_then logged none = none
log_then logged (some more) = some (logged ++ more)

-- The loop: each answer of `poll`, with what is pending on the bus then. What is logged before the
-- loop ends, `none` while it goes on.
unfoldable pub poll_loop : List (Polled × Bus) → Option Text
unfolding drain_notifications
poll_loop [] = none
poll_loop ((polled, bus) ∷ rest) =
    let later = log_then (drain_notifications bus) (poll_loop rest) in
    if ends polled then some (drain_notifications bus) else later

-- `run`, with the error of the control server if it does not listen.
unfoldable pub run : Option Text → Text → List (Polled × Bus) → Option Ended
unfolding poll_loop
run (some error_text) path polls = some (record {
  code = 1;
  out = [];
  err = codes "musiTui: cannot start daemon: " ++ (error_text ++ newline ∷ []);
})
run none path polls = elim (poll_loop polls) [
  | none ↦ none
  | some logged ↦ some (record {
    code = 0;
    out =
        codes "musiTui daemon listening on "
        ++ (path ++ newline ∷ (codes "musiTui daemon stopped" ++ newline ∷ []));
    err = logged;
  })
]
