-- ===== src/Player/SongQueue/Found.antt =====
-- What a step of the cursor finds is the current song.
use musi_tui.Base.{
  ◌≡◌, refl, Bool, Bool-cases, inl, inr, ◌||◌, true, false, arith, is_empty, All, length, List, [],
  ◌∷◌, zero, suc, ◌<◌, ℕ, get_or,
}
use musi_tui.Base.Int.{ℤ, pos, negsuc, ◌+ℤ◌, ◌≤ℤ◌, ◌<ℤ◌, leb_ℤ, ltb_ℤ}
use musi_tui.Base.Text.{Text}
use musi_tui.Player.SongQueue.{
  SongQueue, next, previous, skip_to, path_at, size, minus_one, get_current_song_path,
}
use musi_tui.Player.SongQueue.Cursor.{IsValid, IsSong}

-- The cursor stands on the song that was found, in the same playlist.
abbrev pub Finds : SongQueue → SongQueue × Text → Type 0
Finds q r =
    (r.0.playlist ≡ q.playlist) × (is_empty q.playlist ≡ false) × (get_current_song_path r.0 ≡ r.1)

pub next-playlist : (q : SongQueue) → (next q).0.playlist ≡ q.playlist
unfolding next
next-playlist q = ground arith

pub next-Finds : {q : SongQueue} → IsValid q → is_empty (next q).1 ≡ false → Finds q (next q)
unfolding next get_current_song_path
next-Finds {q} v found = ground arith

pub previous-Finds :
    {q : SongQueue} → IsValid q → is_empty (previous q).1 ≡ false → Finds q (previous q)
unfolding previous get_current_song_path
previous-Finds {q} v found = ground arith

pub skip_to-Finds :
    (q : SongQueue) (index : ℤ)
    → is_empty q.playlist ≡ false
    → is_empty (skip_to index q).1 ≡ false
    → Finds q (skip_to index q)
unfolding skip_to get_current_song_path
skip_to-Finds q index songs found = ground arith

pub get_or-IsSong :
    (ps : List Text) (i : ℕ) → All IsSong ps → i < length ps → IsSong (get_or ps i [])
get_or-IsSong [] i songs h = absurd (omega (arith, h))
get_or-IsSong (p ∷ ps) zero songs h = songs.0
get_or-IsSong (p ∷ ps) (suc i) songs h = get_or-IsSong ps i songs.1 (omega (arith, h))

path_at-IsSong :
    (ps : List Text) (i : ℤ)
    → All IsSong ps
    → pos 0 ≤ℤ i
    → i <ℤ pos (length ps)
    → IsSong (path_at ps i)
path_at-IsSong ps (pos i) songs low high = get_or-IsSong ps i songs (omega (arith, high))
path_at-IsSong ps (negsuc i) songs low high = absurd (omega (arith, low))

false≠true : {b : Bool} → b ≡ false → b ≡ true → ⊥
false≠true f t = cc

-- Where nothing is found, the cursor has not moved.
pub previous_stays :
    {q : SongQueue}
    → IsValid q
    → All IsSong q.playlist
    → is_empty (previous q).1 ≡ true
    → (previous q).0 ≡ q
unfolding previous
previous_stays {q} v songs none_found =
    let index = q.current_index +ℤ minus_one in
    elim (Bool-cases (leb_ℤ q.current_index (pos 0) || is_empty q.playlist)) [
      | inl first ↦ rw first refl
      | inr more ↦
          let song = path_at-IsSong q.playlist index songs (ground arith) (ground arith) in
          absurd (false≠true song (rw more at none_found))
    ]

pub skip_to_stays :
    (q : SongQueue) (index : ℤ)
    → All IsSong q.playlist
    → is_empty (skip_to index q).1 ≡ true
    → (skip_to index q).0 ≡ q
unfolding skip_to
skip_to_stays q index songs none_found =
    elim (Bool-cases (ltb_ℤ index (pos 0) || leb_ℤ (size q) index)) [
      | inl outside ↦ rw outside refl
      | inr there ↦
          let song = path_at-IsSong q.playlist index songs (ground arith) (ground arith) in
          absurd (false≠true song (rw there at none_found))
    ]
