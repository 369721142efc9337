-- ===== src/Ipc/SocketIo/Channel.antt =====
-- The two ends of a connection: what one sends, the other reads.
use musi_tui.Base.{
  ◌≤◌, ◌≡◌, ◌∙◌, sym, ap, true, false, List, [], ◌∷◌, ◌++◌, some, length, append-nil,
}
use musi_tui.Base.Text.{Text}
use musi_tui.Ipc.SocketIo.{Recv, Send, newline, has_newline, read_line, send_all}
use musi_tui.Ipc.SocketIo.Lines.{delivers, stream, verdict, read_line-sent}
use musi_tui.Ipc.SocketIo.Sending.{progresses, takes, send_all_finishes}

-- The two ends of a connection carry a text: the sender's calls take all of it, and the receiver's
-- bring it, cut anywhere.
unfoldable pub Carries : Text → List Send → List Recv → Type 0
Carries t sends recvs =
    (progresses sends ≡ true)
    × (length t ≤ takes sends)
    × (delivers recvs ≡ true)
    × (stream recvs ≡ t)

pub carried :
    (t : Text) (sends : List Send) (recvs : List Recv)
    → Carries t sends recvs
    → send_all t sends ≡ some (true, t)
unfolding Carries
carried t sends recvs (healthy, enough, clean, whole) = send_all_finishes t sends healthy enough

pub arrives :
    (l : Text) (sends : List Send) (recvs : List Recv)
    → Carries (l ++ newline ∷ []) sends recvs
    → has_newline l ≡ false
    → read_line recvs ≡ some (verdict l)
unfolding Carries
arrives l sends recvs (healthy, enough, clean, whole) bare =
    ap read_line (sym (append-nil recvs)) ∙ read_line-sent recvs [] l clean whole bare
