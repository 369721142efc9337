-- ===== src/Ipc/Server/Binding.antt =====
-- What must hold for the server to listen.
use Prim.Native.Nat.{bit_and}
use musi_tui.Base.{
  ℕ, ◌<◌, ◌≡◌, refl, Bool, true, false, not, ◌&&◌, ◌||◌, ◌++◌, Option, some, none, arith, length,
  ◌==◌, if◌then◌else◌,
}
use musi_tui.Base.Text.{Text, codes}
use musi_tui.Ipc.Server.{
  SocketLocation, Stat, PathCalls, BindCalls, ensure_private_dir, make_address, check_existing,
  or_else_error, dir_error, listen_error, bind_socket,
}

-- A directory of this user that nobody else may enter.
pub IsPrivate : ℕ → Option Stat → Type 0
IsPrivate euid none = ⊥
IsPrivate euid (some st) =
    (st.is_directory ≡ true) × (st.owner ≡ euid) × (bit_and st.mode 0o077 ≡ 0)

-- Nothing is there, or a socket that nobody serves.
pub IsReplaceable : Bool → Option Stat → Type 0
IsReplaceable served none = Unit
IsReplaceable served (some st) = (st.is_socket ≡ true) × (served ≡ false)

or_else_error-none : (a b : Option Text) → or_else_error a b ≡ none → (a ≡ none) × (b ≡ none)
or_else_error-none none b h = (refl, h)
or_else_error-none (some e) b h = cc

ensure_private_dir-IsPrivate :
    (calls : PathCalls) (euid : ℕ) (dir : Text) (create : Bool)
    → ensure_private_dir calls euid dir create ≡ none
    → IsPrivate euid calls.lstat
unfolding ensure_private_dir
ensure_private_dir-IsPrivate calls euid dir create ok =
    by_stat calls.lstat (create && not calls.mkdir_ok) ok
  where
    by_stat :
        (o : Option Stat) (blocked : Bool)
        → (if blocked
            then some (codes "cannot create " ++ dir ++ codes ": " ++ calls.strerror)
            else elim o [
              | none ↦ some (dir ++ codes ": " ++ calls.strerror)
              | some st ↦
                  if not st.is_directory
                    || not (st.owner == euid)
                    || not (bit_and st.mode 0o077 == 0)
                  then some (dir ++ codes " is not a private directory owned by this user")
                  else none
            ])
          ≡ none
        → IsPrivate euid o
    by_stat o true h = cc
    by_stat none false h = cc
    by_stat (some st) false h = unfold IsPrivate in ground arith

make_address_fits : (size : ℕ) (path : Text) → make_address size path ≡ none → length path < size
unfolding make_address
make_address_fits size path ok = ground arith

check_existing-IsReplaceable :
    (calls : BindCalls) (path : Text)
    → check_existing calls path ≡ none
    → IsReplaceable calls.probe_connects calls.at_path.lstat
unfolding check_existing
check_existing-IsReplaceable calls path ok = by_stat calls.at_path.lstat ok
  where
    by_stat :
        (o : Option Stat)
        → elim o [
          | none ↦ none
          | some st ↦
              if not st.is_socket
              then some (path ++ codes " exists and is not a socket")
              else if calls.probe_connects
              then some (codes "another musiTui instance owns " ++ path)
              else none
        ]
          ≡ none
        → IsReplaceable calls.probe_connects o
    by_stat none h = unfold IsReplaceable in tt
    by_stat (some st) h = unfold IsReplaceable in ground arith

-- The server listens on a path in the temporary directory only if the directory above it is this
-- user's and closed to others, the path fits a socket address, and nothing was there before but a
-- socket that no instance serves.
pub bind_socket_safe :
    (euid sun_path_size : ℕ) (calls : BindCalls) (location : SocketLocation)
    → bind_socket euid sun_path_size calls location ≡ none
    → location.private_dir ≡ true
    → IsPrivate euid calls.parent.lstat
      × IsReplaceable calls.probe_connects calls.at_path.lstat
      × (length location.path < sun_path_size)
unfolding bind_socket
bind_socket_safe euid size calls location listens private =
    let existing =
      or_else_error (check_existing calls location.path) (listen_error calls location) in
    let address = or_else_error (make_address size location.path) existing in
    let (dir, rest) = or_else_error-none (dir_error euid calls location) address listens in
    let (fits, rest') = or_else_error-none (make_address size location.path) existing rest in
    let (free, last) =
      or_else_error-none (check_existing calls location.path) (listen_error calls location) rest' in
    (
      ensure_private_dir-IsPrivate calls.parent euid calls.parent_path true (rw private at dir),
      check_existing-IsReplaceable calls location.path free,
      make_address_fits size location.path fits,
    )
