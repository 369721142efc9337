-- ===== src/Events/Bus.antt =====
-- src/events/NotificationBus.h. The mutex makes each call one step.
use musi_tui.Base.{List, [], ◌∷◌, ◌++◌}
use musi_tui.Base.Text.{Text}

pub data NotifyLevel : Type 0 where
  info : NotifyLevel
  error : NotifyLevel

pub record Notification : Type 0 where
  pub message : Text
  pub level : NotifyLevel

-- The pending notifications.
abbrev pub Bus : Type 0
Bus = List Notification

abbrev pub push : Text → NotifyLevel → Bus → Bus
push message level bus = bus ++ record { message = message; level = level } ∷ []

-- The new bus, and what was pending.
abbrev pub drain : Bus → Bus × List Notification
drain bus = ([], bus)
