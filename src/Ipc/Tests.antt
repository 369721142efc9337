-- ===== src/Ipc/Tests.antt =====
-- An exchange over the control socket, and the theorems at concrete inputs.
use musi_tui.Base.{
  ℕ, zero, suc, ◌≤◌, ◌<◌, ◌≡◌, refl, Bool, true, false, List, [], ◌∷◌, ◌++◌, none, some, arith,
  length,
}
use musi_tui.Base.Text.{Text, codes}
use musi_tui.Base.Decimal.{to_string_ℕ}
use musi_tui.Commands.Quoting.{build_request, quote_arg}
use musi_tui.Commands.Result.{success, to_json}
use musi_tui.Ipc.SocketIo.{
  Recv, received, recv_interrupted, closed, line, read_line, newline, Send, taken, send_interrupted,
  send_all,
}
use musi_tui.Ipc.SocketIo.Lines.{delivers, stream, read_line-stream}
use musi_tui.Ipc.SocketIo.Sending.{progresses, takes}
use musi_tui.Ipc.SocketIo.Channel.{Carries}
use musi_tui.Ipc.Server.{
  PathCalls, BindCalls, Handled, responded, resolve_socket_path, bind_socket, ensure_private_dir,
  make_address, check_existing, serve, respond,
}
use musi_tui.Ipc.Server.Binding.{IsPrivate, IsReplaceable, bind_socket_safe}
use musi_tui.Ipc.Client.{unreachable, send_control_request, run_control_client}
use musi_tui.Ipc.Server.Loop.{Turn, accepted, poll_interrupted, woken, idle, run}
use musi_tui.Ipc.Server.Turns.{Visits, conversation, run_in_order}
use musi_tui.Ipc.Example.{ones, private, in_tmp, client, connects}
use musi_tui.Ipc.Client.Exchange.{send_control_request-too_long, printed, run_control_client-served}

abbrev letters : ℕ → Text
letters zero = []
letters (suc n) = b'a' ∷ letters n

abbrev in_two : List Recv
in_two = received b'n' (codes "e") ∷ recv_interrupted ∷ received b'x' (codes "t\nrest") ∷ []

read_line-stream_example : read_line (in_two ++ closed ∷ []) ≡ some (line (codes "next"))
unfolding delivers stream
read_line-stream_example = read_line-stream in_two [] refl

abbrev broken : List Send
broken = taken 2 ∷ send_interrupted ∷ taken 1 ∷ []

sent_part : send_all (codes "abc") broken ≡ some (true, codes "abc")
unfolding send_all
sent_part = refl

abbrev free : PathCalls
free = record { mkdir_ok = true; lstat = none; strerror = [] }

resolves : resolve_socket_path (λ name. none) 1000 ≡ in_tmp
unfolding resolve_socket_path to_string_ℕ
resolves = refl

abbrev binding : BindCalls
binding = record {
  parent = private;
  parent_path = codes "/tmp/musitui-1000";
  at_path = free;
  probe_connects = false;
  socket_ok = true;
  bind_ok = true;
  strerror = [];
}

binds : bind_socket 1000 108 binding in_tmp ≡ none
unfolding bind_socket ensure_private_dir make_address check_existing
binds = refl

bind_socket_safe_example :
    IsPrivate 1000 private.lstat × IsReplaceable false none × (length in_tmp.path < 108)
bind_socket_safe_example = bind_socket_safe 1000 108 binding in_tmp binds refl

abbrev counting : Text → ℕ → ℕ × Handled
counting request w = (suc w, responded (to_json (success (codes "Next track"))))

abbrev asks : List Recv
asks = received b'n' (codes "ex") ∷ received b't' (codes "\n") ∷ []

abbrev wire : Text
wire = codes "{\"ok\":true,\"message\":\"Next track\"}"

wire_of_success : to_json (success (codes "Next track")) ≡ wire
unfolding to_json
wire_of_success = refl

abbrev replies : List Recv
replies =
    received b'{' (codes "\"ok\":true,\"message\":\"Next tra") ∷ received b'c' (codes "k\"}\n") ∷ []

carried_request : Carries (codes "next\n") (ones 5) asks
unfolding Carries progresses takes delivers stream
carried_request = (refl, omega arith, refl, refl)

carried_reply : Carries (to_json (success (codes "Next track")) ++ newline ∷ []) (ones 40) replies
unfolding Carries progresses takes delivers stream to_json
carried_reply = (refl, omega arith, refl, refl)

short_reply : length (to_json (success (codes "Next track"))) ≤ 4096
unfolding to_json
short_reply = omega arith

run_control_client-served_example :
    (serve counting true asks (ones 40) 7
      ≡ some (8, to_json (success (codes "Next track")) ++ newline ∷ []))
    × (run_control_client 1000 108 (client (ones 5) replies) in_tmp (codes "next" ∷ [])
        ≡ some (printed false (success (codes "Next track")), codes "next\n"))
unfolding build_request quote_arg
run_control_client-served_example =
    run_control_client-served counting 1000 108 (client (ones 5) replies) in_tmp (codes "next" ∷ [])
      7 8 (success (codes "Next track")) asks (ones 40) refl refl (omega arith)
      (connects (ones 5) replies) carried_request carried_reply refl (omega arith) refl short_reply

abbrev album_list : List Recv
album_list = received b'a' (letters 4096 ++ newline ∷ []) ∷ []

long_reply : Carries (letters 4097 ++ newline ∷ []) (ones 4098) album_list
unfolding Carries progresses takes delivers stream
long_reply = (refl, omega arith, refl, refl)

abbrev listing : Text → ℕ → ℕ × Handled
listing request w = (suc w, responded (letters 4097))

send_control_request-too_long_example :
    (serve listing true asks (ones 4098) 7 ≡ some (8, letters 4097 ++ newline ∷ []))
    × (send_control_request 1000 108 (client (ones 5) album_list) in_tmp (codes "next")
        ≡ some (unreachable (codes "no response from player"), codes "next\n"))
send_control_request-too_long_example =
    send_control_request-too_long listing 1000 108 (client (ones 5) album_list) in_tmp
      (codes "next") (letters 4097) 7 8 asks (ones 4098) (connects (ones 5) album_list)
      carried_request long_reply refl (omega arith) refl refl (omega arith)

-- Two clients, with an interruption between them, and a stop.
abbrev turns : List (Bool × Turn)
turns =
    (false, accepted (record { peer_is_same_user = true; recvs = asks; sends = ones 40 }))
    ∷ (false, poll_interrupted)
    ∷ (false, accepted (record { peer_is_same_user = true; recvs = asks; sends = ones 40 }))
    ∷ []

visits : Visits counting turns (codes "next" ∷ codes "next" ∷ []) 7
unfolding Visits respond progresses takes delivers stream to_json
visits = (
  record {
    same_user = refl;
    clean = refl;
    sent = refl;
    bare = refl;
    short = omega arith;
    healthy = refl;
    enough = omega arith;
  },
  (
    record {
      same_user = refl;
      clean = refl;
      sent = refl;
      bare = refl;
      short = omega arith;
      healthy = refl;
      enough = omega arith;
    },
    tt,
  ),
)

run_in_order_example :
    run counting (turns ++ (true, woken) ∷ []) (idle counting 7)
    ≡ some (record {
      world = 9;
      replies = (wire ++ newline ∷ []) ∷ (wire ++ newline ∷ []) ∷ [];
      opened = 2;
      closed = 2;
    })
unfolding conversation respond to_json
run_in_order_example =
    run_in_order counting turns [] woken (codes "next" ∷ codes "next" ∷ []) 7 visits
