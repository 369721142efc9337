-- ===== src/Player/AutoAdvance/Polling.antt =====
-- A song that is over is reported at every poll until the worker has moved on.
use musi_tui.Base.{
  ℕ, zero, suc, ◌≡◌, refl, ◌∙◌, sym, ap, Bool, true, false, ◌&&◌, List, [], ◌∷◌, ◌++◌, append_assoc,
  append-nil, if◌then◌else◌,
}
use musi_tui.Player.Controller.{Controller, should_auto_advance}
use musi_tui.Commands.Queue.{CommandQueue, enqueue}
use musi_tui.Player.AutoAdvance.{PlayerCommand, auto_advance, monitor_round}

-- So many rounds of the monitor, with no step of the worker between them.
unfoldable pub polls :
    ℕ → CommandQueue PlayerCommand Controller → CommandQueue PlayerCommand Controller
unfolding monitor_round
polls zero q = q
polls (suc n) q = polls n (monitor_round true q)

unfoldable pub advances : ℕ → List PlayerCommand
advances zero = []
advances (suc n) = auto_advance ∷ advances n

-- While a song is over and the worker is busy, every poll hands in one more step to the next song.
pub polls-advances :
    (n : ℕ) (q : CommandQueue PlayerCommand Controller)
    → q.world.monitoring ≡ true
    → should_auto_advance q.world ≡ true
    → polls n q ≡ record q { queue = q.queue ++ advances n }
unfolding polls advances
polls-advances zero q runs over = ap (λ l. record q { queue = l }) (sym (append-nil q.queue))
polls-advances (suc n) q runs over =
    ap (polls n) (asks q runs over)
    ∙ polls-advances n (enqueue auto_advance q) runs over
    ∙ ap (λ l. record q { queue = l }) (append_assoc q.queue (auto_advance ∷ []) (advances n))
  where
    asks :
        (r : CommandQueue PlayerCommand Controller)
        → r.world.monitoring ≡ true
        → should_auto_advance r.world ≡ true
        → monitor_round true r ≡ enqueue auto_advance r
    asks r h k = unfold monitor_round in simp (h, k)

-- While it is not over, or the manager is switched off, a poll changes nothing.
pub monitor_round-quiet :
    (enabled : Bool) (q : CommandQueue PlayerCommand Controller)
    → enabled && should_auto_advance q.world ≡ false
    → monitor_round enabled q ≡ q
unfolding monitor_round
monitor_round-quiet enabled q quiet = by_monitor q.world.monitoring
  where
    by_monitor :
        (b : Bool)
        → (if b && (enabled && should_auto_advance q.world) then enqueue auto_advance q else q) ≡ q
    by_monitor true = rw quiet refl
    by_monitor false = refl
