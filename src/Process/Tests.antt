-- ===== src/Process/Tests.antt =====
-- The theorems on the player's surroundings at concrete inputs.
use mathlib.Core.List.Perm
use musi_tui.Base.{◌≡◌, refl, true, false, List, [], ◌∷◌, ◌++◌, some, arith}
use musi_tui.Base.Int.{ℤ}
use musi_tui.Base.Text.{Text, codes}
use musi_tui.Base.Decimal.{to_string}
use musi_tui.Library.{Entry}
use musi_tui.Commands.Result.{to_json}
use musi_tui.Commands.Quoting.{build_request, quote_arg}
use musi_tui.Commands.Dispatcher.Example.{Player, fixture, settings, world}
use musi_tui.Commands.Dispatcher.Names.{resolve_album}
use musi_tui.Ipc.SocketIo.{Recv, newline}
use musi_tui.Ipc.SocketIo.Lines.{delivers, stream}
use musi_tui.Ipc.SocketIo.Sending.{progresses, takes}
use musi_tui.Ipc.SocketIo.Channel.{Carries}
use musi_tui.Ipc.Server.{serve}
use musi_tui.Ipc.Client.{run_control_client}
use musi_tui.Ipc.Client.Exchange.{printed}
use musi_tui.Ipc.Example.{ones, one_by_one, in_tmp, client, connects}
use musi_tui.Process.Daemon.{Daemon, daemon_handler}
use musi_tui.Process.Daemon.Control.{
  play_args, play_line, playing, found_in, songs_of, played, daemon_plays,
}
use musi_tui.Process.Watcher.{Look, run}
use musi_tui.Process.Watcher.Reports.{run_reports}
use musi_tui.Process.Main.{main_mode, control}

abbrev daemon : Daemon Player (ℤ × ℤ)
daemon = record { world = world; stop = record { valid = true; pending = 0; capacity = 65536 } }

abbrev asked : Text
asked = codes "play \"Abbey Road\" 2"

abbrev answered : Text
answered = codes "{\"ok\":true,\"message\":\"Playing two (Abbey Road)\"}"

resolved : found_in fixture settings daemon (codes "Abbey Road") ≡ codes "Abbey Road"
unfolding resolve_album
resolved = refl

line_of_play : play_line (codes "Abbey Road") 1 ≡ asked
unfolding build_request quote_arg to_string
line_of_play = refl

reply_of_play :
    to_json (
      playing
        (songs_of fixture settings daemon (codes "Abbey Road"))
        (found_in fixture settings daemon (codes "Abbey Road"))
        1)
    ≡ answered
unfolding to_json resolve_album
reply_of_play = refl

there : Carries (asked ++ newline ∷ []) (ones 20) (one_by_one (asked ++ newline ∷ []))
unfolding Carries progresses takes delivers stream
there = (refl, omega arith, refl, refl)

back : Carries (answered ++ newline ∷ []) (ones 60) (one_by_one (answered ++ newline ∷ []))
unfolding Carries progresses takes delivers stream
back = (refl, omega arith, refl, refl)

abbrev calls : List Recv
calls = one_by_one (answered ++ newline ∷ [])

daemon_plays_example :
    (serve
        (daemon_handler fixture settings)
        true
        (one_by_one (asked ++ newline ∷ []))
        (ones 60)
        (some daemon)
      ≡ some
          (some (played fixture settings daemon (codes "Abbey Road") 1), answered ++ newline ∷ []))
    × (run_control_client 1000 108
          (client (ones 20) calls)
          in_tmp
          (play_args (codes "Abbey Road") 1)
        ≡ some (
          printed false (
              playing
                (songs_of fixture settings daemon (codes "Abbey Road"))
                (codes "Abbey Road")
                1),
          asked ++ newline ∷ [],
        ))
unfolding build_request quote_arg to_json resolve_album to_string
daemon_plays_example =
    daemon_plays fixture settings 1000 108 (client (ones 20) calls) in_tmp (codes "Abbey Road") 1
      daemon (one_by_one (asked ++ newline ∷ [])) (ones 60) refl refl (omega arith) (omega arith)
      refl refl (omega arith) (connects (ones 20) calls) there back (omega arith) (omega arith)

abbrev directory : Text → Entry
directory path = record { path = path; is_directory = true; is_regular_file = false }

abbrev low : Entry
low = directory (codes "/m/Low")

abbrev high : Entry
high = directory (codes "/m/High")

abbrev look : List Entry → Look
look entries = record { root = codes "/m"; listing = λ path. entries }

abbrev quiet : List Look
quiet = look (high ∷ low ∷ []) ∷ []

run_reports_example : run (look (low ∷ high ∷ [])) (quiet ++ look (low ∷ []) ∷ []) ≡ codes "/m" ∷ []
unfolding run
run_reports_example =
    run_reports (look (low ∷ high ∷ [])) quiet (look (low ∷ [])) [] (codes "High")
      ((refl, Perm.swap high low []), tt) refl refl

remote_mode : main_mode (codes "ctl" ∷ codes "next" ∷ []) ≡ control (codes "next" ∷ [])
unfolding main_mode
remote_mode = refl
