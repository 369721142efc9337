-- ===== src/Ipc/Server/Turns.antt =====
-- Clients are served one at a time, in the order in which they connect.
use musi_tui.Base.{
  ◌+◌, ◌≤◌, ◌≡◌, refl, sym, ap, ◌∙◌, Bool, true, false, List, [], ◌∷◌, ◌++◌, some, append-nil,
  append_assoc, length, arith,
}
use musi_tui.Base.Text.{Text}
use musi_tui.Ipc.SocketIo.{newline, has_newline, read_line, line, k_max_line}
use musi_tui.Ipc.SocketIo.Lines.{delivers, stream, verdict, read_line-sent}
use musi_tui.Ipc.SocketIo.Sending.{progresses, takes, send_all_finishes}
use musi_tui.Ipc.Server.{Handled, respond, answer, serve}
use musi_tui.Ipc.Server.Loop.{
  Connection, Turn, poll_interrupted, poll_failed, woken, not_readable, accept_failed, accepted,
  Served, idle, run,
}

verdict_short : (l : Text) → length l ≤ k_max_line → verdict l ≡ line l
verdict_short l h = ground arith

-- The client is this user's and sends the request; its socket takes the reply.
pub record Asks (c : Connection) (request reply : Text) : Type 0 where
  pub same_user : c.peer_is_same_user ≡ true
  pub clean : delivers c.recvs ≡ true
  pub sent : stream c.recvs ≡ request ++ newline ∷ []
  pub bare : has_newline request ≡ false
  pub short : length request ≤ k_max_line
  pub healthy : progresses c.sends ≡ true
  pub enough : length reply ≤ takes c.sends

module _ {W : Type 0} (handler : Text → W → W × Handled) where
  -- What the handler makes of requests, one after the other.
  unfoldable pub conversation : List Text → W → W × List Text
  conversation [] w = (w, [])
  conversation (request ∷ requests) w =
      let (w', reply) = respond handler request w in
      let (w'', replies) = conversation requests w' in (w'', reply ∷ replies)

  -- No stop is requested and `poll` does not break; the clients that are accepted send these
  -- requests.
  unfoldable pub Visits : List (Bool × Turn) → List Text → W → Type 0
  Visits [] [] w = Unit
  Visits [] (request ∷ requests) w = ⊥
  Visits ((true, turn) ∷ turns) requests w = ⊥
  Visits ((false, poll_interrupted) ∷ turns) requests w = Visits turns requests w
  Visits ((false, poll_failed) ∷ turns) requests w = ⊥
  Visits ((false, woken) ∷ turns) requests w = Visits turns requests w
  Visits ((false, not_readable) ∷ turns) requests w = Visits turns requests w
  Visits ((false, accept_failed) ∷ turns) requests w = Visits turns requests w
  Visits ((false, accepted c) ∷ turns) [] w = ⊥
  Visits ((false, accepted c) ∷ turns) (request ∷ requests) w =
      Asks c request (respond handler request w).1
      × Visits turns requests (respond handler request w).0

  serve-Asks :
      (c : Connection) (request : Text) (w : W)
      → Asks c request (respond handler request w).1
      → serve handler c.peer_is_same_user c.recvs c.sends w ≡ some (respond handler request w)
  unfolding serve answer
  serve-Asks c request w asks =
      let reply = (respond handler request w).1 in
      let read : read_line c.recvs ≡ some (line request) =
        ap read_line (sym (append-nil c.recvs))
        ∙ read_line-sent c.recvs [] request asks.clean asks.sent asks.bare
        ∙ ap some (verdict_short request asks.short) in
      rw (asks.same_user, serve, read, send_all_finishes reply c.sends asks.healthy asks.enough)
        refl

  -- What a conversation adds to what was served before.
  abbrev served : Served W → List Text → Served W
  served s requests = record {
    world = (conversation requests s.world).0;
    replies = s.replies ++ (conversation requests s.world).1;
    opened = s.opened + length requests;
    closed = s.closed + length requests;
  }

  run-Visits :
      (turns rest : List (Bool × Turn)) (turn : Turn) (requests : List Text) (s : Served W)
      → Visits turns requests s.world
      → run handler (turns ++ (true, turn) ∷ rest) s ≡ some (served s requests)
  unfolding run Visits conversation
  run-Visits [] rest turn [] s v = ap some (ground (arith, append-nil s.replies))
  run-Visits [] rest turn (request ∷ requests) s v = absurd v
  run-Visits ((true, t) ∷ turns) rest turn requests s v = absurd v
  run-Visits ((false, poll_interrupted) ∷ turns) rest turn requests s v =
      run-Visits turns rest turn requests s v
  run-Visits ((false, poll_failed) ∷ turns) rest turn requests s v = absurd v
  run-Visits ((false, woken) ∷ turns) rest turn requests s v =
      run-Visits turns rest turn requests s v
  run-Visits ((false, not_readable) ∷ turns) rest turn requests s v =
      run-Visits turns rest turn requests s v
  run-Visits ((false, accept_failed) ∷ turns) rest turn requests s v =
      run-Visits turns rest turn requests s v
  run-Visits ((false, accepted c) ∷ turns) rest turn [] s v = absurd v
  run-Visits ((false, accepted c) ∷ turns) rest turn (request ∷ requests) s (asks, v) =
      let (w, reply) = respond handler request s.world in
      let after : Served W = record {
        world = w;
        replies = s.replies ++ reply ∷ [];
        opened = s.opened + 1;
        closed = s.closed + 1;
      } in
      rw (serve-Asks c request s.world asks, run)
        (run-Visits turns rest turn requests after v
          ∙ ap some
              (ground (arith, append_assoc s.replies (reply ∷ []) (conversation requests w).1)))

  -- Clients connect one after the other, with wake-ups, interruptions and failing `accept`s between
  -- them, until a stop is requested. Where `poll` does not fail, each client belongs to this user,
  -- sends, cut anywhere, a line of at most 4096 bytes, and takes the whole reply: each is answered by
  -- the handler, in the order in which they connected and before the next is looked at; every socket
  -- is closed; and no client that connects after the stop is served.
  pub run_in_order :
      (turns rest : List (Bool × Turn)) (turn : Turn) (requests : List Text) (w : W)
      → Visits turns requests w
      → run handler (turns ++ (true, turn) ∷ rest) (idle handler w)
        ≡ some (record {
          world = (conversation requests w).0;
          replies = (conversation requests w).1;
          opened = length requests;
          closed = length requests;
        })
  run_in_order turns rest turn requests w v =
      run-Visits turns rest turn requests (idle handler w) v ∙ ap some (ground arith)
