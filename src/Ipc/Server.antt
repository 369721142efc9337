-- ===== src/Ipc/Server.antt =====
-- `serve`, `bindSocket` and `errorResponse` of src/ipc/ControlServer.cpp, and src/ipc/SocketPath.cpp.
-- What the system calls answer is an argument; `poll` and the handling of descriptors are left out.
pub mod Binding
pub mod Loop
pub mod Turns
use Prim.Native.Nat.{bit_and}
use musi_tui.Base.{
  ℕ, Bool, true, false, not, ◌&&◌, ◌||◌, List, [], ◌∷◌, ◌++◌, Option, none, some, ◌==◌, leb,
  if◌then◌else◌, length, is_empty,
}
use musi_tui.Base.Text.{Text, codes, drop_while_back, starts_with}
use musi_tui.Base.Path.{join_path}
use musi_tui.Base.Decimal.{to_string_ℕ}
use musi_tui.Util.Json.{quote}
use musi_tui.Ipc.SocketIo.{
  Recv, Send, ReadResult, line, too_long, read_error, newline, read_line, send_all,
}

pub record SocketLocation : Type 0 where
  pub path : Text
  pub private_dir : Bool

abbrev present : Option Text → Option Text
present none = none
present (some []) = none
present (some (c ∷ s)) = some (c ∷ s)

-- `getenv`, where an empty variable counts as none.
abbrev non_empty_env : (Text → Option Text) → Text → Option Text
non_empty_env getenv name = present (getenv name)

unfoldable pub resolve_socket_path : (Text → Option Text) → ℕ → SocketLocation
unfolding join_path
resolve_socket_path getenv uid = elim (non_empty_env getenv (codes "MUSITUI_SOCKET")) [
  | some custom ↦ record { path = custom; private_dir = false }
  | none ↦ elim (non_empty_env getenv (codes "XDG_RUNTIME_DIR")) [
    | some runtime ↦ record { path = join_path runtime (codes "musitui.sock"); private_dir = false }
    | none ↦
        let base = in_tmp (non_empty_env getenv (codes "TMPDIR")) in
        record {
          path =
              join_path (join_path base (codes "musitui-" ++ to_string_ℕ uid))
                (codes "musitui.sock");
          private_dir = true;
        }
  ]
]
  where
    in_tmp : Option Text → Text
    in_tmp none = codes "/tmp"
    in_tmp (some dir) = dir

-- What `lstat` tells of a directory: whether it is one, its owner, and its mode bits.
pub record Stat : Type 0 where
  pub is_directory : Bool
  pub is_socket : Bool
  pub owner : ℕ
  pub mode : ℕ

-- The calls on a path: whether `mkdir` leaves a directory there (made, or there before), `lstat`,
-- and the text of the last error.
pub record PathCalls : Type 0 where
  pub mkdir_ok : Bool
  pub lstat : Option Stat
  pub strerror : Text

-- The error, if the directory may not be used.
unfoldable pub ensure_private_dir : PathCalls → ℕ → Text → Bool → Option Text
ensure_private_dir calls euid dir create =
    if create && not calls.mkdir_ok
    then some (codes "cannot create " ++ dir ++ codes ": " ++ calls.strerror)
    else elim calls.lstat [
      | none ↦ some (dir ++ codes ": " ++ calls.strerror)
      | some st ↦
          if not st.is_directory || not (st.owner == euid) || not (bit_and st.mode 0o077 == 0)
          then some (dir ++ codes " is not a private directory owned by this user")
          else none
    ]

-- `makeAddress`, with the size of `sun_path` on the platform.
unfoldable pub make_address : ℕ → Text → Option Text
make_address sun_path_size native =
    if is_empty native || leb sun_path_size (length native)
    then some (codes "socket path too long: " ++ native)
    else none

-- What `bindSocket` meets: the calls on the parent directory and on the path itself, whether a
-- probe connects, whether a socket is made, and whether it is bound.
pub record BindCalls : Type 0 where
  pub parent : PathCalls
  pub parent_path : Text
  pub at_path : PathCalls
  pub probe_connects : Bool
  pub socket_ok : Bool
  pub bind_ok : Bool
  pub strerror : Text

-- What stands in the way of the path: an error, if it may not be replaced.
unfoldable pub check_existing : BindCalls → Text → Option Text
check_existing calls path = elim calls.at_path.lstat [
  | none ↦ none
  | some st ↦
      if not st.is_socket
      then some (path ++ codes " exists and is not a socket")
      else if calls.probe_connects
      then some (codes "another musiTui instance owns " ++ path)
      else none
]

abbrev pub or_else_error : Option Text → Option Text → Option Text
or_else_error none next = next
or_else_error (some error) next = some error

abbrev dir_error : ℕ → BindCalls → SocketLocation → Option Text
dir_error euid calls location =
    if location.private_dir
    then ensure_private_dir calls.parent euid calls.parent_path true
    else none

abbrev listen_error : BindCalls → SocketLocation → Option Text
listen_error calls location =
    if not calls.socket_ok
    then some (codes "socket: " ++ calls.strerror)
    else if not calls.bind_ok
    then some (location.path ++ codes ": " ++ calls.strerror)
    else none

-- The error, or `none` if the server listens.
unfoldable pub bind_socket : ℕ → ℕ → BindCalls → SocketLocation → Option Text
bind_socket euid sun_path_size calls location = or_else_error (dir_error euid calls location) (
    or_else_error (make_address sun_path_size location.path)
      (or_else_error (check_existing calls location.path) (listen_error calls location)))

unfoldable pub error_response : Text → Text
error_response message = codes "{\"ok\":false,\"message\":" ++ quote message ++ b'}' ∷ newline ∷ []

-- What the handler does: it returns the response, or throws.
pub data Handled : Type 0 where
  responded : Text → Handled
  threw : Text → Handled

module _ {W : Type 0} (handler : Text → W → W × Handled) where
  unfoldable pub respond : Text → W → W × Text
  unfolding error_response
  respond request w =
      let (w', handled) = handler request w in
      elim handled [
        | responded response ↦ (w', response ++ newline ∷ [])
        | threw what ↦ (w', error_response (codes "Internal error: " ++ what))
      ]

  -- The response to what was read; `none` closes the connection with no answer.
  unfoldable pub answer : ReadResult → W → W × Option Text
  unfolding respond error_response
  answer (line request) w = let (w', response) = respond request w in (w', some response)
  answer too_long w = (w, some (error_response (codes "Request too long")))
  answer read_error w = (w, none)

  -- One connection: the new state of the handler, and what goes out; `none` while it waits.
  unfoldable pub serve : Bool → List Recv → List Send → W → Option (W × Text)
  unfolding answer
  serve peer_is_same_user recvs sends w =
      if not peer_is_same_user then some (w, []) else elim (read_line recvs) [
        | none ↦ none
        | some result ↦
            let (w', response) = answer result w in
            elim response [
              | none ↦ some (w', [])
              | some text ↦ elim (send_all text sends) [
                | none ↦ none
                | some sent ↦ some (w', sent.1)
              ]
            ]
      ]
