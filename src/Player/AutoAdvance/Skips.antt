-- ===== src/Player/AutoAdvance/Skips.antt =====
-- What the polls lead to once the worker runs.
use musi_tui.Base.{
  ℕ, zero, suc, ◌+◌, ◌*◌, ◌≤◌, ◌<◌, ◌≡◌, refl, ◌∙◌, sym, subst, ap, lt→ltb, true, false, [], length,
  arith, All, is_empty, get_or,
}
use musi_tui.Base.Int.{ℤ, pos}
use musi_tui.Base.Text.{Text}
use musi_tui.Player.Engine.{World, playing, has_reached_end_of_stream}
use musi_tui.Player.SongQueue.{SongQueue, next as next_in_queue}
use musi_tui.Player.SongQueue.Cursor.{IsSong, at, next-at}
use musi_tui.Player.SongQueue.Found.{get_or-IsSong}
use musi_tui.Player.Controller.{
  Controller, should_auto_advance, handle_auto_advance, load_and_play_song,
}
use musi_tui.Commands.Queue.{init}
use musi_tui.Commands.Queue.Order.{moves, perform_all, run_all, worker_drains}
use musi_tui.Player.AutoAdvance.{run_player_command}
use musi_tui.Player.AutoAdvance.Polling.{polls, advances, polls-advances}

length-advances : (n : ℕ) → length (advances n) ≡ n
unfolding advances
length-advances zero = refl
length-advances (suc n) = ap suc (length-advances n)

-- A step forward from a song that is not the last.
next-before_last :
    (q : SongQueue) (k : ℕ)
    → q.current_index ≡ pos k
    → suc k < length q.playlist
    → next_in_queue q ≡ (at q (suc k), get_or q.playlist (suc k) [])
next-before_last q k here more =
    ap (λ i. next_in_queue (record q { current_index = i })) here
    ∙ next-at q k (omega (arith, more))
    ∙ rw (lt→ltb (suc k) (length q.playlist) more) refl

module _ (world : World) where
  load_and_play_song-queue :
      (path : Text) (c : Controller) → (load_and_play_song world path c).queue ≡ c.queue
  unfolding load_and_play_song
  load_and_play_song-queue path c = ground arith

  handle_auto_advance-queue :
      (c : Controller)
      → is_empty (next_in_queue c.queue).1 ≡ false
      → (handle_auto_advance world c).queue ≡ (next_in_queue c.queue).0
  unfolding handle_auto_advance
  handle_auto_advance-queue c more =
      rw (more, handle_auto_advance) (load_and_play_song-queue (next_in_queue c.queue).1 _)

  -- So many steps forward, one for each command.
  run_all-advances :
      (n k : ℕ) (c : Controller)
      → All IsSong c.queue.playlist
      → c.queue.current_index ≡ pos k
      → k + n < length c.queue.playlist
      → (run_all (run_player_command world) (advances n) c).queue
        ≡ record c.queue { current_index = pos (k + n) }
  unfolding run_all advances run_player_command
  run_all-advances zero k c songs here more =
      ap {A = ℤ} {B = SongQueue} (λ i. record c.queue { current_index = i })
        (here ∙ ap pos (omega arith))
  run_all-advances (suc n) k c songs here more =
      let inside : suc k < length c.queue.playlist = omega (arith, more) in
      let found = next-before_last c.queue k here inside in
      let song : is_empty (next_in_queue c.queue).1 ≡ false =
        ap (λ r. is_empty r.1) found ∙ get_or-IsSong c.queue.playlist (suc k) songs inside in
      let moved : (handle_auto_advance world c).queue ≡ at c.queue (suc k) =
        handle_auto_advance-queue c song ∙ ap (λ r. r.0) found in
      let same : (handle_auto_advance world c).queue.playlist ≡ c.queue.playlist =
        ap (λ q. q.playlist) moved in
      run_all-advances n (suc k) (handle_auto_advance world c) (subst (All IsSong) (sym same) songs)
        (ap (λ q. q.current_index) moved) (omega (arith, more, ap length same))
      ∙ ap (λ q. at q (suc k + n)) moved
      ∙ ap (at c.queue) (omega arith)

  -- A controller that is playing, is monitored, and whose callback has come five times without data,
  -- on a song with at least n songs behind it; paths are not empty. If n polls of the monitor pass
  -- before the worker runs what they hand in, the worker then moves the playlist on by n songs, with
  -- nothing left to do: with two polls, a song is passed over.
  pub polls_skip :
      (n k : ℕ) (c : Controller)
      → c.monitoring ≡ true
      → c.engine.state ≡ playing
      → 5 ≤ c.engine.silent_callbacks
      → All IsSong c.queue.playlist
      → c.queue.current_index ≡ pos k
      → k + n < length c.queue.playlist
      → let after = perform_all (run_player_command world) (moves (3 * n)) (polls n (init c)) in
        (after.queue ≡ []) × (after.world.queue ≡ record c.queue { current_index = pos (k + n) })
  unfolding should_auto_advance has_reached_end_of_stream
  polls_skip n k c runs plays silent songs here more =
      let run = run_player_command world in
      let over : should_auto_advance c ≡ true = rw plays (ground (arith, silent)) in
      let drained : perform_all run (moves (3 * n)) (polls n (init c))
          ≡ init (run_all run (advances n) c) =
        ap (perform_all run (moves (3 * n))) (polls-advances n (init c) runs over)
        ∙ ap (λ m. perform_all run (moves (3 * m)) (record (init c) { queue = advances n }))
            (sym (length-advances n))
        ∙ worker_drains run c (advances n) in
      (
        ap (λ q. q.queue) drained,
        ap (λ q. q.world.queue) drained ∙ run_all-advances n k c songs here more,
      )
