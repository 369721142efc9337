-- ===== src/Ipc/Server/Loop.antt =====
-- `run` of src/ipc/ControlServer.cpp: the loop of the server's thread, and its destructor. What `poll`
-- and `accept` answer, and what the connections do, is a list of turns.
use musi_tui.Base.{ℕ, ◌+◌, Bool, true, false, List, [], ◌∷◌, ◌++◌, Option, none, some}
use musi_tui.Base.Text.{Text}
use musi_tui.Ipc.SocketIo.{Recv, Send}
use musi_tui.Ipc.Server.{Handled, serve}

-- A client: whether it is this user's, and what its connection answers.
pub record Connection : Type 0 where
  pub peer_is_same_user : Bool
  pub recvs : List Recv
  pub sends : List Send

-- What a turn of the loop meets: `poll` interrupted or broken; a wake-up; a wake-up of the socket
-- with nothing to read; or a client, which `accept` may lose.
pub data Turn : Type 0 where
  poll_interrupted : Turn
  poll_failed : Turn
  woken : Turn
  not_readable : Turn
  accept_failed : Turn
  accepted : Connection → Turn

-- The handler's world, what has gone out to each client, and the clients whose sockets were opened
-- and closed.
pub record Served (W : Type 0) : Type 0 where
  pub world : W
  pub replies : List Text
  pub opened : ℕ
  pub closed : ℕ

module _ {W : Type 0} (handler : Text → W → W × Handled) where
  abbrev pub idle : W → Served W
  idle w = record { world = w; replies = []; opened = 0; closed = 0 }

  abbrev after_client : Served W → W × Text → Served W
  after_client s (w, reply) = record {
    world = w;
    replies = s.replies ++ reply ∷ [];
    opened = s.opened + 1;
    closed = s.closed + 1;
  }

  -- The turns, each with whether a stop has been requested when it begins. The result is `none` while
  -- the thread waits: for a turn, or for a client.
  unfoldable pub run : List (Bool × Turn) → Served W → Option (Served W)
  run [] s = none
  run ((true, turn) ∷ turns) s = some s
  run ((false, poll_interrupted) ∷ turns) s = run turns s
  run ((false, poll_failed) ∷ turns) s = some s
  run ((false, woken) ∷ turns) s = run turns s
  run ((false, not_readable) ∷ turns) s = run turns s
  run ((false, accept_failed) ∷ turns) s = run turns s
  run ((false, accepted c) ∷ turns) s =
      elim (serve handler c.peer_is_same_user c.recvs c.sends s.world) [
        | none ↦ none
        | some outcome ↦ run turns (after_client s outcome)
      ]
