-- ===== src/Process/Daemon/Control.antt =====
-- The headless player under `musiTui ctl`: from the shell to the service and back.
use musi_tui.Base.{
  ℕ, suc, ◌≤◌, ◌<◌, ◌^◌, ◌≡◌, refl, true, false, List, [], ◌∷◌, ◌++◌, none, some, length, get_or,
  is_empty, All,
}
use musi_tui.Base.Int.{pos}
use musi_tui.Base.Text.{Text, codes}
use musi_tui.Base.Decimal.{to_string}
use musi_tui.Commands.Result.{CommandResult, success, to_json}
use musi_tui.Util.Json.RoundTrip.{IsByte}
use musi_tui.Commands.Quoting.{build_request, needs_quotes}
use musi_tui.Commands.Dispatcher.{Service, Config}
use musi_tui.Commands.Dispatcher.Names.{resolve_album}
use musi_tui.Commands.Dispatcher.Addressing.{execute-build_request}
use musi_tui.Ipc.SocketIo.{Recv, Send, newline, has_newline, k_max_line}
use musi_tui.Ipc.SocketIo.Channel.{Carries}
use musi_tui.Ipc.Server.{responded, SocketLocation, serve}
use musi_tui.Ipc.Client.{ClientCalls, connect_error, run_control_client}
use musi_tui.Ipc.Client.Exchange.{printed, run_control_client-served}
use musi_tui.Process.Daemon.{Daemon, daemon_handler, on_ui_calls}

abbrev pub play_args : Text → ℕ → List Text
play_args album i = codes "play" ∷ album ∷ to_string (pos (suc i)) ∷ []

abbrev pub play_line : Text → ℕ → Text
play_line album i = (build_request [] false (play_args album i)).0

abbrev pub playing : List Text → Text → ℕ → CommandResult
playing song_names found i =
    success (codes "Playing " ++ get_or song_names i [] ++ codes " (" ++ found ++ codes ")")

module _ {S C : Type 0} (service : Service S) (config : Config C) where
  abbrev pub found_in : Daemon S C → Text → Text
  found_in d album = resolve_album (service.get_album_names d.world.service) album

  abbrev pub songs_of : Daemon S C → Text → List Text
  songs_of d album = service.get_song_names d.world.service (found_in d album)

  -- The daemon after it has played a song.
  abbrev pub played : Daemon S C → Text → ℕ → Daemon S C
  played d album i = record d {
    world = record d.world {
      service = service.play_song (found_in d album) (pos i) d.world.service;
      ui = [];
    };
  }

  handler-play :
      (album : Text) (i : ℕ) (d : Daemon S C)
      → needs_quotes album ≡ true
      → is_empty (found_in d album) ≡ false
      → i < length (songs_of d album)
      → suc i < 2 ^ 31
      → daemon_handler service config (play_line album i) (some d) ≡ (
        some (played d album i),
        responded (to_json (playing (songs_of d album) (found_in d album) i)),
      )
  unfolding daemon_handler on_ui_calls
  handler-play album i d quotes known low small =
      let executed =
        execute-build_request service config album i (record d.world { ui = [] }) quotes known low
          small in
      rw (daemon_handler, executed) refl

  -- `musiTui ctl play <album> <number>` with a headless player: the album's name has to be quoted and
  -- resolves to an album that has such a song; the request holds no newline and at most 4096 bytes,
  -- and so does the reply, whose message is bytes; the connection is made, and each side's calls take
  -- and bring what is sent, cut anywhere. Then the player's service plays that song of that album,
  -- once, and the client prints what is playing and exits with 0.
  pub daemon_plays :
      (euid sun_path_size : ℕ) (calls : ClientCalls) (location : SocketLocation) (album : Text)
      (i : ℕ) (d : Daemon S C) (server_recvs : List Recv) (server_sends : List Send)
      → needs_quotes album ≡ true
      → is_empty (found_in d album) ≡ false
      → i < length (songs_of d album)
      → suc i < 2 ^ 31
      → is_empty (play_line album i) ≡ false
      → has_newline (play_line album i) ≡ false
      → length (play_line album i) ≤ k_max_line
      → connect_error euid sun_path_size calls location ≡ none
      → Carries (play_line album i ++ newline ∷ []) calls.sends server_recvs
      → Carries
          (to_json (playing (songs_of d album) (found_in d album) i) ++ newline ∷ [])
          server_sends
          calls.recvs
      → All IsByte (playing (songs_of d album) (found_in d album) i).message
      → length (to_json (playing (songs_of d album) (found_in d album) i)) ≤ k_max_line
      → (serve (daemon_handler service config) true server_recvs server_sends (some d)
          ≡ some (
            some (played d album i),
            to_json (playing (songs_of d album) (found_in d album) i) ++ newline ∷ [],
          ))
        × (run_control_client euid sun_path_size calls location (play_args album i)
            ≡ some (
              printed
                  (build_request [] false (play_args album i)).1
                  (playing (songs_of d album) (found_in d album) i),
              play_line album i ++ newline ∷ [],
            ))
  daemon_plays euid size calls location album i d recvs sends quotes known low small asked bare fits
        connects there back bytes short =
      run_control_client-served (daemon_handler service config) euid size calls location
        (play_args album i) (some d) (some (played d album i))
        (playing (songs_of d album) (found_in d album) i) recvs sends asked bare fits connects there
        back (handler-play album i d quotes known low small) bytes refl short
