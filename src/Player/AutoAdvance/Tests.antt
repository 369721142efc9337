-- ===== src/Player/AutoAdvance/Tests.antt =====
-- A song that ends while the worker is busy, and the theorem at a concrete input.
use musi_tui.Base.{◌≡◌, refl, true, [], ◌∷◌, arith}
use musi_tui.Base.Text.{codes}
use musi_tui.Player.Engine.{init as new_engine, playing}
use musi_tui.Player.SongQueue.{init as new_queue, load_playlist}
use musi_tui.Player.Controller.{Controller}
use musi_tui.Commands.Queue.{init}
use musi_tui.Commands.Queue.Order.{perform_all, moves}
use musi_tui.Service.Library.Example.{around}
use musi_tui.Player.AutoAdvance.{run_player_command}
use musi_tui.Player.AutoAdvance.Polling.{polls}
use musi_tui.Player.AutoAdvance.Skips.{polls_skip}
use musi_tui.Base.Int.{pos}

-- The first of three songs is over.
abbrev over : Controller
over = record {
  engine = record new_engine { state = playing; silent_callbacks = 5 };
  queue = load_playlist (codes "a" ∷ codes "b" ∷ codes "c" ∷ []) new_queue;
  monitoring = true;
  events = [];
  current_album = [];
  current_album_name = [];
}

-- Two polls before the worker comes to the first step: the second song is passed over.
polls_skip_example :
    let after = perform_all (run_player_command around.world) (moves 6) (polls 2 (init over)) in
    (after.queue ≡ []) × (after.world.queue ≡ record over.queue { current_index = pos 2 })
unfolding load_playlist
polls_skip_example =
    polls_skip around.world 2 0 over refl refl (omega arith) (refl, (refl, (refl, tt))) refl
      (omega arith)
