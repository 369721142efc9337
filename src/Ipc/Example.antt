-- ===== src/Ipc/Example.antt =====
-- Connections for the tests: calls that take a byte each, and a directory that is private.
use musi_tui.Base.{ℕ, zero, suc, ◌≡◌, refl, true, false, List, [], ◌∷◌, none, some}
use musi_tui.Base.Text.{Text, codes}
use musi_tui.Ipc.SocketIo.{Recv, received, Send, taken}
use musi_tui.Ipc.Server.{SocketLocation, PathCalls, ensure_private_dir, make_address}
use musi_tui.Ipc.Client.{ClientCalls, connect_error}

abbrev pub ones : ℕ → List Send
ones zero = []
ones (suc n) = taken 1 ∷ ones n

-- The bytes of a text, one to a call.
abbrev pub one_by_one : Text → List Recv
one_by_one [] = []
one_by_one (c ∷ s) = received c [] ∷ one_by_one s

abbrev pub private : PathCalls
private = record {
  mkdir_ok = true;
  lstat = some (record { is_directory = true; is_socket = false; owner = 1000; mode = 0o700 });
  strerror = [];
}

abbrev pub in_tmp : SocketLocation
in_tmp = record { path = codes "/tmp/musitui-1000/musitui.sock"; private_dir = true }

abbrev pub client : List Send → List Recv → ClientCalls
client sends recvs = record {
  parent = private;
  parent_path = codes "/tmp/musitui-1000";
  socket_ok = true;
  connect_ok = true;
  strerror = [];
  sends = sends;
  recvs = recvs;
}

pub connects :
    (sends : List Send) (recvs : List Recv)
    → connect_error 1000 108 (client sends recvs) in_tmp ≡ none
unfolding connect_error ensure_private_dir make_address
connects sends recvs = refl
