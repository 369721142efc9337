-- ===== src/Commands/Queue.antt =====
-- src/commands/CommandQueue.cpp: commands from any thread, run by one worker. Each step of the
-- worker and each call from another thread is one step here, and they interleave in any order.
pub mod Order
mod Tests
use musi_tui.Base.{Bool, true, false, List, [], ◌∷◌, ◌++◌, if◌then◌else◌}

-- Where the worker stands: at the loop's condition, in the wait, in a command, or behind the loop.
pub data Worker (C : Type 0) : Type 0 where
  checking : Worker C
  waiting : Worker C
  running : C → Worker C
  finished : Worker C

-- `world` is what the commands work on.
pub record CommandQueue (C W : Type 0) : Type 0 where
  pub queue : List C
  pub worker : Worker C
  pub stop_requested : Bool
  pub world : W

abbrev pub init : {C W : Type 0} → W → CommandQueue C W
init world = record { queue = []; worker = checking; stop_requested = false; world = world }

abbrev pub enqueue : {C W : Type 0} → C → CommandQueue C W → CommandQueue C W
enqueue cmd q = record q { queue = q.queue ++ cmd ∷ [] }

abbrev pub request_stop : {C W : Type 0} → CommandQueue C W → CommandQueue C W
request_stop q = record q { stop_requested = true }

module _ {C W : Type 0} (run : C → W → W) where
  -- The wait ends when a command is there, or a stop is asked for.
  abbrev pub end_wait : List C → CommandQueue C W → CommandQueue C W
  end_wait [] q = if q.stop_requested then record q { worker = finished } else q
  end_wait (cmd ∷ rest) q = record q { queue = rest; worker = running cmd }

  pub step_at : Worker C → CommandQueue C W → CommandQueue C W
  step_at checking q = record q { worker = if q.stop_requested then finished else waiting }
  step_at waiting q = end_wait q.queue q
  step_at (running cmd) q = record q { worker = checking; world = run cmd q.world }
  step_at finished q = q

  -- One step of `workerLoop`.
  unfoldable pub worker_step : CommandQueue C W → CommandQueue C W
  unfolding step_at
  worker_step q = step_at q.worker q
