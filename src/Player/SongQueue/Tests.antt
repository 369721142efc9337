-- ===== src/Player/SongQueue/Tests.antt =====
-- Runs of the queue, and its theorems at concrete queues.
use musi_tui.Base.{◌≡◌, refl, Bool, true, false, List, [], ◌∷◌, arith}
use musi_tui.Base.Int.{pos, ◌+ℤ◌, ltb_ℤ}
use musi_tui.Base.Text.{Text, codes, text_eq}
use musi_tui.Player.SongQueue.{
  SongQueue, size, init, load_playlist, next, previous, get_current_song_path, is_next_song_ready,
  pre_warm_pass,
}
use musi_tui.Player.SongQueue.Cursor.{
  IsValid, play_through, play_through-load_playlist, load_playlist-IsValid,
}
use musi_tui.Player.SongQueue.Reachable.{
  constructed, loaded, advanced, stepped_back, warmed, Reachable-IsValid,
}
use musi_tui.Player.SongQueue.PreWarm.{ready_after_pass}

abbrev album : List Text
album = codes "/m/a.mp3" ∷ codes "/m/b.mp3" ∷ codes "/m/c.mp3" ∷ []

abbrev fresh_album : SongQueue
fresh_album = load_playlist album init

abbrev opens_all : Text → Bool
opens_all p = true

not_b : Text → Bool
not_b p = elim (text_eq p (codes "/m/b.mp3")) [ true ↦ false | false ↦ true ]

Reachable-IsValid_example : IsValid (previous (pre_warm_pass opens_all 2 (next fresh_album).0)).0
Reachable-IsValid_example =
    Reachable-IsValid (stepped_back (warmed opens_all 2 (advanced (loaded album constructed))))

play_through-load_playlist_example :
    (get_current_song_path fresh_album ≡ codes "/m/a.mp3")
    × (play_through 5 fresh_album ≡ codes "/m/b.mp3" ∷ codes "/m/c.mp3" ∷ [])
play_through-load_playlist_example =
    play_through-load_playlist (codes "/m/a.mp3") (codes "/m/b.mp3" ∷ codes "/m/c.mp3" ∷ []) init 5
      (refl, (refl, (refl, tt))) (omega arith)

ready_after_pass_example :
    is_next_song_ready (pre_warm_pass opens_all 4 fresh_album)
    ≡ ltb_ℤ (fresh_album.current_index +ℤ pos 1) (size fresh_album)
unfolding load_playlist
ready_after_pass_example =
    ready_after_pass opens_all (λ p. refl) 4 (load_playlist-IsValid album init) (omega arith)
