-- ===== src/Service/Async/Tests.antt =====
-- Calls through the queue, on a service with one album.
use musi_tui.Base.{◌≡◌, ◌*◌, [], ◌∷◌, List}
use musi_tui.Base.Int.{pos}
use musi_tui.Base.Text.{codes}
use musi_tui.Commands.Queue.{init}
use musi_tui.Commands.Queue.Order.{moves, perform_all}
use musi_tui.Service.Library.{library_service}
use musi_tui.Service.Library.Example.{around, service}
use musi_tui.Service.Async.{play_song, next_song, set_volume, run_command, async_service}
use musi_tui.Service.Async.Equivalence.{
  ServiceCall, playback, set_root_path, call_all, call_all-async,
}

abbrev calls : List ServiceCall
calls =
    playback (play_song (codes "Low") (pos 1))
    ∷ playback (set_volume (pos 40))
    ∷ set_root_path (codes "/music")
    ∷ playback next_song
    ∷ []

call_all-async_example :
    let real = library_service around (codes "error") in
    perform_all
      (run_command real)
      (moves (3 * 3))
      (call_all (async_service real) calls (init service))
    ≡ init (
        call_all real
          (set_root_path (codes "/music")
            ∷ playback (play_song (codes "Low") (pos 1))
            ∷ playback (set_volume (pos 40))
            ∷ playback next_song
            ∷ [])
          service)
call_all-async_example = call_all-async (library_service around (codes "error")) calls service
