-- ===== src/Ipc/Client.antt =====
-- src/ipc/ControlClient.cpp: `musiTui ctl`. What the system calls answer is an argument.
pub mod Exchange
use musi_tui.Base.{
  ℕ, Bool, true, false, not, List, [], ◌∷◌, ◌++◌, Option, none, some, if◌then◌else◌, is_empty,
}
use musi_tui.Base.Text.{Text, codes, starts_with}
use musi_tui.Util.Json.{Found, found, missing, throws, find_string}
use musi_tui.Commands.Quoting.{build_request}
use musi_tui.Ipc.SocketIo.{
  Recv, Send, ReadResult, line, too_long, read_error, newline, read_line, send_all,
}
use musi_tui.Ipc.Server.{SocketLocation, PathCalls, ensure_private_dir, make_address, or_else_error}

-- What a request meets on its way.
pub record ClientCalls : Type 0 where
  pub parent : PathCalls
  pub parent_path : Text
  pub socket_ok : Bool
  pub connect_ok : Bool
  pub strerror : Text
  pub sends : List Send
  pub recvs : List Recv

-- The response, or the error text.
pub data Exchanged : Type 0 where
  answered : Text → Exchanged
  unreachable : Text → Exchanged

abbrev no_response : Exchanged
no_response = unreachable (codes "no response from player")

-- An empty line is no response.
unfoldable pub accept_line : ReadResult → Exchanged
accept_line (line []) = no_response
accept_line (line (c ∷ s)) = answered (c ∷ s)
accept_line too_long = no_response
accept_line read_error = no_response

-- The errors in front of the exchange.
unfoldable pub connect_error : ℕ → ℕ → ClientCalls → SocketLocation → Option Text
connect_error euid sun_path_size calls location =
    or_else_error
      (if location.private_dir
        then ensure_private_dir calls.parent euid calls.parent_path false
        else none)
      (or_else_error (make_address sun_path_size location.path) (
        if not calls.socket_ok
        then some (codes "socket: " ++ calls.strerror)
        else if not calls.connect_ok
        then some (location.path ++ codes ": " ++ calls.strerror)
        else none))

-- The result, and what has gone out; `none` while it waits.
unfoldable pub send_control_request :
    ℕ → ℕ → ClientCalls → SocketLocation → Text → Option (Exchanged × Text)
unfolding connect_error accept_line
send_control_request euid sun_path_size calls location request =
    elim (connect_error euid sun_path_size calls location) [
      | some error ↦ some (unreachable error, [])
      | none ↦ elim (send_all (request ++ newline ∷ []) calls.sends) [
        | none ↦ none
        | some sent ↦
            if not sent.0
            then some (unreachable (codes "send: " ++ calls.strerror), sent.1)
            else elim (read_line calls.recvs) [
              | none ↦ none
              | some result ↦ some (accept_line result, sent.1)
            ]
      ]
    ]

-- How the client ends: the exit code, and the texts on the two outputs.
pub record Exit : Type 0 where
  pub code : ℕ
  pub out : Text
  pub err : Text

abbrev exit_ok : ℕ
exit_ok = 0

abbrev pub exit_rejected : ℕ
exit_rejected = 1

abbrev pub exit_unreachable : ℕ
exit_unreachable = 2

abbrev usage : Text
usage =
    codes
      "usage: musiTui ctl [--json] <command> [args...]\n       musiTui ctl help    list commands\n"

-- What is printed of a response; `none` where an escape in it makes `std::stoi` throw.
unfoldable pub message_of : Text → Option Text
message_of response = elim (find_string response (codes "message")) [
  | found message ↦ some message
  | missing ↦ some response
  | throws ↦ none
]

-- With `--json`, the message is not looked for.
abbrev exit_with : Bool → Bool → Text → Option Text → Option Exit
exit_with true ok response message = some (record {
  code = if ok then exit_ok else exit_rejected;
  out = response ++ newline ∷ [];
  err = [];
})
exit_with false ok response none = none
exit_with false true response (some message) =
    some (record { code = exit_ok; out = message ++ newline ∷ []; err = [] })
exit_with false false response (some message) =
    some (record { code = exit_rejected; out = []; err = message ++ newline ∷ [] })

unfoldable pub report : Bool → Exchanged → Option Exit
unfolding message_of
report raw_json (unreachable error) = some (record {
  code = exit_unreachable;
  out = [];
  err =
      codes "musiTui is not running or not reachable ("
      ++ error
      ++ codes
          ").\nStart it with `musiTui` in a terminal or `musiTui --daemon` in the background.\n";
})
report raw_json (answered response) =
    exit_with raw_json (starts_with response (codes "{\"ok\":true")) response (message_of response)

-- How the client ends, and what it has sent; `none` while it waits, or where it throws.
unfoldable pub run_control_client :
    ℕ → ℕ → ClientCalls → SocketLocation → List Text → Option (Exit × Text)
unfolding send_control_request report
run_control_client euid sun_path_size calls location args =
    let (request, raw_json) = build_request [] false args in
    if is_empty request
    then some (record { code = exit_rejected; out = []; err = usage }, [])
    else elim (send_control_request euid sun_path_size calls location request) [
      | none ↦ none
      | some exchanged ↦ elim (report raw_json exchanged.0) [
        | none ↦ none
        | some exit ↦ some (exit, exchanged.1)
      ]
    ]
