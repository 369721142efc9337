-- ===== src/Player/SongQueue/Reachable.antt =====
-- The queues that calls on a new one can lead to, the pre-warm thread's passes among them.
use musi_tui.Base.{ℕ, List, Bool}
use musi_tui.Base.Int.{ℤ}
use musi_tui.Base.Text.{Text}
use musi_tui.Player.SongQueue.{
  SongQueue, init, load_playlist, next, previous, skip_to, clear, pre_warm_pass,
}
use musi_tui.Player.SongQueue.Cursor.{
  IsValid, init-IsValid, load_playlist-IsValid, next-IsValid, previous-IsValid, skip_to-IsValid,
  clear-IsValid, pre_warm_pass-IsValid,
}

pub data Reachable : SongQueue → Type 0 where
  constructed : Reachable init
  loaded : {q : SongQueue} (paths : List Text) → Reachable q → Reachable (load_playlist paths q)
  advanced : {q : SongQueue} → Reachable q → Reachable (next q).0
  stepped_back : {q : SongQueue} → Reachable q → Reachable (previous q).0
  skipped : {q : SongQueue} (index : ℤ) → Reachable q → Reachable (skip_to index q).0
  cleared : {q : SongQueue} → Reachable q → Reachable (clear q)
  warmed :
      {q : SongQueue} (opens : Text → Bool) (rounds : ℕ)
      → Reachable q
      → Reachable (pre_warm_pass opens rounds q)

-- Whatever calls are made on a new queue, with passes of the pre-warm thread between them, the
-- current index stands on a song of the playlist, or is -1 and the playlist is empty, and no song
-- outside the playlist counts as pre-warmed.
pub Reachable-IsValid : {q : SongQueue} → Reachable q → IsValid q
Reachable-IsValid constructed = init-IsValid
Reachable-IsValid (loaded {q} paths r) = load_playlist-IsValid paths q
Reachable-IsValid (advanced r) = next-IsValid (Reachable-IsValid r)
Reachable-IsValid (stepped_back r) = previous-IsValid (Reachable-IsValid r)
Reachable-IsValid (skipped index r) = skip_to-IsValid index (Reachable-IsValid r)
Reachable-IsValid (cleared {q} r) = clear-IsValid q
Reachable-IsValid (warmed opens rounds r) = pre_warm_pass-IsValid opens rounds (Reachable-IsValid r)
