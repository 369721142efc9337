-- ===== src/Commands/Queue/Tests.antt =====
-- A worker with commands that count.
use musi_tui.Base.{ℕ, ◌+◌, ◌*◌, ◌≡◌, refl, false, [], ◌∷◌, List}
use musi_tui.Commands.Queue.{init, checking, worker_step}
use musi_tui.Commands.Queue.Order.{
  Event, came, worker_moved, stop_asked, commands, moves, perform_all, run_all, IsAccounted,
  worker_order, worker_drains,
}

abbrev push_digit : ℕ → ℕ → ℕ
push_digit d n = n * 10 + d

-- The second command comes while the first one runs.
abbrev busy : List (Event ℕ)
busy = came 1 ∷ worker_moved ∷ worker_moved ∷ came 2 ∷ worker_moved ∷ stop_asked ∷ worker_moved ∷ []

worker_order_example :
    IsAccounted push_digit 0 (commands busy) (perform_all push_digit busy (init 0))
worker_order_example = worker_order push_digit 0 busy

-- A stop leaves what has not begun.
stopped : (perform_all push_digit busy (init 0)).queue ≡ 2 ∷ []
unfolding perform_all worker_step
stopped = refl

worker_drains_example :
    perform_all push_digit
      (moves (3 * 2))
      (record { queue = 3 ∷ 4 ∷ []; worker = checking; stop_requested = false; world = 7 })
    ≡ init (run_all push_digit (3 ∷ 4 ∷ []) 7)
worker_drains_example = worker_drains push_digit 7 (3 ∷ 4 ∷ [])
