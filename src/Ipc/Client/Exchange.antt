-- ===== src/Ipc/Client/Exchange.antt =====
-- A request of the client, over both sockets, and the reply of the server.
use musi_tui.Base.{
  ℕ, ◌≤◌, ◌<◌, ◌≡◌, refl, ◌∙◌, ap, Bool, true, false, List, [], ◌∷◌, ◌++◌, some, none, arith,
  length, is_empty, All, if◌then◌else◌,
}
use musi_tui.Base.Text.{Text, codes}
use musi_tui.Ipc.SocketIo.{Recv, Send, line, too_long, k_max_line, newline, has_newline}
use musi_tui.Ipc.SocketIo.Lines.{verdict}
use musi_tui.Ipc.SocketIo.Channel.{Carries, carried, arrives}
use musi_tui.Commands.Result.{CommandResult, to_json}
use musi_tui.Commands.Result.Wire.{
  find_string-to_json, to_json-one_line, starts_with-to_json, is_empty-to_json,
}
use musi_tui.Commands.Quoting.{build_request}
use musi_tui.Util.Json.RoundTrip.{IsByte}
use musi_tui.Ipc.Server.{SocketLocation, Handled, responded, respond, answer, serve}
use musi_tui.Ipc.Client.{
  ClientCalls, Exit, exit_rejected, report, message_of, exit_with, answered, unreachable,
  accept_line, connect_error, send_control_request, run_control_client,
}

verdict_short : (l : Text) → length l ≤ k_max_line → verdict l ≡ line l
verdict_short l h = ground arith

-- The client's end of an exchange, whatever the length of the reply.
pub send_control_request-reply :
    (euid sun_path_size : ℕ) (calls : ClientCalls) (location : SocketLocation)
    (request reply : Text) (server_recvs : List Recv) (server_sends : List Send)
    → connect_error euid sun_path_size calls location ≡ none
    → Carries (request ++ newline ∷ []) calls.sends server_recvs
    → Carries (reply ++ newline ∷ []) server_sends calls.recvs
    → has_newline reply ≡ false
    → send_control_request euid sun_path_size calls location request
      ≡ some (accept_line (verdict reply), request ++ newline ∷ [])
unfolding send_control_request
send_control_request-reply euid size calls location request reply sr ss connects there back bare =
    rw
      (
        connects,
        carried (request ++ newline ∷ []) calls.sends sr there,
        arrives reply ss calls.recvs back bare,
        send_control_request,
      )
      refl

-- What `ctl` prints of a result, and how it exits, when the reply arrives.
pub printed : Bool → CommandResult → Exit
printed true r = record {
  code = if r.ok then 0 else exit_rejected;
  out = to_json r ++ newline ∷ [];
  err = [];
}
printed false r =
    if r.ok
    then record { code = 0; out = r.message ++ newline ∷ []; err = [] }
    else record { code = exit_rejected; out = []; err = r.message ++ newline ∷ [] }

report-to_json :
    (raw : Bool) (r : CommandResult)
    → All IsByte r.message
    → report raw (answered (to_json r)) ≡ some (printed raw r)
unfolding report message_of printed
report-to_json true r bytes = rw starts_with-to_json refl
report-to_json false r bytes =
    let message : message_of (to_json r) ≡ some r.message =
      rw (message_of, find_string-to_json r bytes) refl in
    rw (starts_with-to_json, message) (by_flag r.ok r.message)
  where
    by_flag :
        (ok : Bool) (message : Text)
        → exit_with false ok (to_json r) (some message)
          ≡ some (
              if ok
              then record { code = 0; out = message ++ newline ∷ []; err = [] }
              else record { code = exit_rejected; out = []; err = message ++ newline ∷ [] })
    by_flag true message = refl
    by_flag false message = refl

accept-to_json :
    (r : CommandResult)
    → length (to_json r) ≤ k_max_line
    → accept_line (verdict (to_json r)) ≡ answered (to_json r)
unfolding accept_line
accept-to_json r fits = not_empty (to_json r) (is_empty-to_json r) fits
  where
    not_empty :
        (t : Text)
        → is_empty t ≡ false
        → length t ≤ k_max_line
        → accept_line (verdict t) ≡ answered t
    not_empty [] h fits' = cc
    not_empty (c ∷ t) h fits' = ground arith

-- From the shell to the handler and back.
module _ {W : Type 0} (handler : Text → W → W × Handled) where
  pub serve-request :
      (request reply : Text) (w w' : W) (client_recvs : List Recv) (client_sends : List Send)
      (server_recvs : List Recv) (server_sends : List Send)
      → Carries (request ++ newline ∷ []) client_sends server_recvs
      → Carries (reply ++ newline ∷ []) server_sends client_recvs
      → has_newline request ≡ false
      → length request ≤ k_max_line
      → handler request w ≡ (w', responded reply)
      → serve handler true server_recvs server_sends w ≡ some (w', reply ++ newline ∷ [])
  unfolding serve answer respond
  serve-request request reply w w' cr cs sr ss there back bare fits handled =
      let response : respond handler request w ≡ (w', reply ++ newline ∷ []) =
        rw (respond, handled, handled) refl in
      let replied : answer handler (verdict request) w ≡ (w', some (reply ++ newline ∷ [])) =
        rw (verdict_short request fits, answer, response) refl in
      rw
        (
          arrives request cs sr there bare,
          serve,
          replied,
          carried (reply ++ newline ∷ []) ss cr back,
          replied,
        )
        refl

  -- A request without a newline and of at most 4096 bytes, for which the handler has a reply of more
  -- than 4096 bytes on one line; the connection is made, and each side's calls take and bring what is
  -- sent, cut anywhere. Then the server has carried the request out, once, and sent all of the reply,
  -- and the client reports that the player does not respond.
  pub send_control_request-too_long :
      (euid sun_path_size : ℕ) (calls : ClientCalls) (location : SocketLocation)
      (request reply : Text) (w w' : W) (server_recvs : List Recv) (server_sends : List Send)
      → connect_error euid sun_path_size calls location ≡ none
      → Carries (request ++ newline ∷ []) calls.sends server_recvs
      → Carries (reply ++ newline ∷ []) server_sends calls.recvs
      → has_newline request ≡ false
      → length request ≤ k_max_line
      → handler request w ≡ (w', responded reply)
      → has_newline reply ≡ false
      → k_max_line < length reply
      → (serve handler true server_recvs server_sends w ≡ some (w', reply ++ newline ∷ []))
        × (send_control_request euid sun_path_size calls location request
            ≡ some (unreachable (codes "no response from player"), request ++ newline ∷ []))
  unfolding accept_line
  send_control_request-too_long euid size calls location request reply w w' sr ss connects there
        back asked fits handled bare long =
      (
        serve-request request reply w w' calls.recvs calls.sends sr ss there back asked fits
            handled,
        send_control_request-reply euid size calls location request reply sr ss connects there back
              bare
            ∙ ap (λ r. some (accept_line r, request ++ newline ∷ [])) (too_long_verdict reply long),
      )
    where
      too_long_verdict : (l : Text) → k_max_line < length l → verdict l ≡ too_long
      too_long_verdict l h = ground arith

  -- `ctl` from the shell to the player and back. The request that the arguments make holds no newline
  -- and at most 4096 bytes, the connection is made, each side's calls take and bring what is sent, cut
  -- anywhere, and the handler answers with a result whose wire form has at most 4096 bytes, data on
  -- one line and bytes in its message. Then the handler has run once, on that request; and the client
  -- prints the reply, or its message, on the output that fits, and exits with 0 exactly if the
  -- command succeeded.
  pub run_control_client-served :
      (euid sun_path_size : ℕ) (calls : ClientCalls) (location : SocketLocation) (args : List Text)
      (w w' : W) (r : CommandResult) (server_recvs : List Recv) (server_sends : List Send)
      → is_empty (build_request [] false args).0 ≡ false
      → has_newline (build_request [] false args).0 ≡ false
      → length (build_request [] false args).0 ≤ k_max_line
      → connect_error euid sun_path_size calls location ≡ none
      → Carries ((build_request [] false args).0 ++ newline ∷ []) calls.sends server_recvs
      → Carries (to_json r ++ newline ∷ []) server_sends calls.recvs
      → handler (build_request [] false args).0 w ≡ (w', responded (to_json r))
      → All IsByte r.message
      → has_newline r.data_text ≡ false
      → length (to_json r) ≤ k_max_line
      → (serve handler true server_recvs server_sends w ≡ some (w', to_json r ++ newline ∷ []))
        × (run_control_client euid sun_path_size calls location args
            ≡ some (
              printed (build_request [] false args).1 r,
              (build_request [] false args).0 ++ newline ∷ [],
            ))
  unfolding run_control_client
  run_control_client-served euid size calls location args w w' r sr ss asked bare fits connects
        there back handled bytes one_line short =
      let request = (build_request [] false args).0 in
      let exchanged =
        send_control_request-reply euid size calls location request (to_json r) sr ss connects there
          back (to_json-one_line r one_line)
        ∙ ap (λ e. some (e, request ++ newline ∷ [])) (accept-to_json r short) in
      (
        serve-request request (to_json r) w w' calls.recvs calls.sends sr ss there back bare fits
            handled,
        rw
            (
              asked,
              exchanged,
              report-to_json (build_request [] false args).1 r bytes,
              run_control_client,
            )
            refl,
      )
