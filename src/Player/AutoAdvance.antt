-- ===== src/Player/AutoAdvance.antt =====
-- src/player/AutoAdvanceManager.cpp, with what src/player/PlaybackController.cpp starts it with: a
-- thread that polls whether the song is over, and hands the step to the next song to the queue of
-- commands. Its polls and the steps of the worker interleave.
pub mod Polling
pub mod Skips
mod Tests
use musi_tui.Base.{Bool, true, false, ◌&&◌, if◌then◌else◌}
use musi_tui.Player.Engine.{World}
use musi_tui.Player.Controller.{Controller, should_auto_advance, handle_auto_advance}
use musi_tui.Commands.Queue.{CommandQueue, enqueue}

-- The one command that the manager hands in, among those of the service.
pub data PlayerCommand : Type 0 where
  auto_advance : PlayerCommand
  service_call : (Controller → Controller) → PlayerCommand

unfoldable pub run_player_command : World → PlayerCommand → Controller → Controller
run_player_command world auto_advance c = handle_auto_advance world c
run_player_command world (service_call f) c = f c

-- One round of `monitorLoop`, while the thread runs.
unfoldable pub monitor_round :
    Bool → CommandQueue PlayerCommand Controller → CommandQueue PlayerCommand Controller
monitor_round enabled q =
    if q.world.monitoring && (enabled && should_auto_advance q.world)
    then enqueue auto_advance q
    else q
