-- ===== src/Ipc/SocketIo.antt =====
-- `readLine` and `sendAll` of src/ipc/SocketIo.cpp. What the calls of `recv` and `send` return, one
-- after the other, is a script; a loop whose script runs out is still waiting, which is `none`.
pub mod Lines
pub mod Sending
pub mod Channel
use musi_tui.Base.{
  ℕ, zero, suc, Bool, true, false, ◌||◌, List, [], ◌∷◌, ◌++◌, Option, none, some, ◌==◌, ltb,
  if◌then◌else◌, length, is_empty, take, drop, any,
}
use musi_tui.Base.Text.{Text, codes, take_until}

abbrev pub k_max_line : ℕ
k_max_line = 4096

-- One result of `recv`: at least one byte, and at most 512; EINTR; another error; or the end.
pub data Recv : Type 0 where
  received : ℕ → Text → Recv
  recv_interrupted : Recv
  recv_failed : Recv
  closed : Recv

abbrev pub chunk_of : ℕ → Text → Text
chunk_of c s = c ∷ s

-- `ReadStatus`, with what was read where the callers look at it.
pub data ReadResult : Type 0 where
  line : Text → ReadResult
  too_long : ReadResult
  read_error : ReadResult

abbrev pub newline : ℕ
newline = 10

abbrev pub has_newline : Text → Bool
has_newline s = any (λ c. c == newline) s

-- The text before the first newline.
abbrev pub first_line : Text → Text
first_line s = take_until (λ c. c == newline) s

-- The loop of `readLine`, with what it has so far.
pub read_from : Text → List Recv → Option ReadResult
read_from out [] = none
read_from out (recv_interrupted ∷ script) = read_from out script
read_from out (recv_failed ∷ script) = some read_error
read_from out (closed ∷ script) = some (line out)
read_from out (received c s ∷ script) =
    let more = out ++ first_line (chunk_of c s) in
    let rest = read_from more script in
    if ltb k_max_line (length more)
    then some too_long
    else if has_newline (chunk_of c s)
    then some (line more)
    else rest

unfoldable pub read_line : List Recv → Option ReadResult
unfolding read_from
read_line script = read_from [] script

-- One result of `send`: how many bytes were taken; EINTR; or another error.
pub data Send : Type 0 where
  taken : ℕ → Send
  send_interrupted : Send
  send_failed : Send

-- Whether all was sent, and what has gone out.
unfoldable pub send_all : Text → List Send → Option (Bool × Text)
send_all [] script = some (true, [])
send_all (c ∷ s) [] = none
send_all (c ∷ s) (send_interrupted ∷ script) = send_all (c ∷ s) script
send_all (c ∷ s) (send_failed ∷ script) = some (false, [])
send_all (c ∷ s) (taken n ∷ script) = elim (send_all (drop n (c ∷ s)) script) [
  | none ↦ none
  | some r ↦ some (r.0, take n (c ∷ s) ++ r.1)
]
