-- ===== src/Player/SongQueue/Cursor.antt =====
-- The queue as a cursor on the playlist.
use musi_tui.Base.{
  ℕ, zero, suc, ◌+◌, ◌≤◌, ◌<◌, ◌≡◌, ◌≢◌, refl, ◌∙◌, sym, ap, Bool, true, false, List, [], ◌∷◌,
  arith, ◌⊎◌, inl, inr, length, get_or, is_empty, All, drop, if◌then◌else◌, ltb, ◌&&◌, Bool-cases,
}
use musi_tui.Base.Int.{ℤ, pos, ◌+ℤ◌, ◌≤ℤ◌, ◌<ℤ◌, leb_ℤ, ltb_ℤ}
use musi_tui.Base.Text.{Text}
use musi_tui.Player.SongQueue.{
  SongQueue, minus_one, size, path_at, init, load_playlist, get_current_song_path, next, previous,
  skip_to, get_next_song_path, clear, warm_from, pre_warm_pass,
}

-- The index stands on a song, or there is none.
pub record IsValid (q : SongQueue) : Type 0 where
  pub low : minus_one ≤ℤ q.current_index
  pub high : q.current_index <ℤ size q
  pub on_song : (is_empty q.playlist ≡ true) ⊎ (pos 0 ≤ℤ q.current_index)
  pub warmed : (minus_one ≤ℤ q.pre_warmed_up_to) × (q.pre_warmed_up_to <ℤ size q)

length-of_ne_nil : (xs : List Text) → is_empty xs ≡ false → 0 < length xs
length-of_ne_nil [] h = cc
length-of_ne_nil (x ∷ xs) h = omega arith

length_of_nil : (xs : List Text) → is_empty xs ≡ true → length xs ≡ 0
length_of_nil [] h = refl
length_of_nil (x ∷ xs) h = cc

pub init-IsValid : IsValid init
unfolding init
init-IsValid = record {
  low = omega arith;
  high = omega arith;
  on_song = inl refl;
  warmed = omega arith;
}

pub load_playlist-IsValid : (paths : List Text) (q : SongQueue) → IsValid (load_playlist paths q)
unfolding load_playlist
load_playlist-IsValid [] q = record {
  low = omega arith;
  high = omega arith;
  on_song = inl refl;
  warmed = omega arith;
}
load_playlist-IsValid (p ∷ ps) q = record {
  low = omega arith;
  high = omega arith;
  on_song = inr (omega arith);
  warmed = omega arith;
}

pub clear-IsValid : (q : SongQueue) → IsValid (clear q)
unfolding clear
clear-IsValid q = record {
  low = omega arith;
  high = omega arith;
  on_song = inl refl;
  warmed = omega arith;
}

pub next-IsValid : {q : SongQueue} → IsValid q → IsValid (next q).0
unfolding next
next-IsValid {q} v = ground (arith, length-of_ne_nil q.playlist)

pub previous-IsValid : {q : SongQueue} → IsValid q → IsValid (previous q).0
unfolding previous
previous-IsValid {q} v = ground arith

pub skip_to-IsValid : {q : SongQueue} (index : ℤ) → IsValid q → IsValid (skip_to index q).0
unfolding skip_to
skip_to-IsValid {q} index v = ground arith

pub warm_from-IsValid :
    (pre_warm_song : Text → Bool) (rounds : ℕ) (i target : ℤ) (q : SongQueue)
    → minus_one ≤ℤ i
    → IsValid q
    → IsValid (warm_from pre_warm_song rounds i target q)
unfolding warm_from
warm_from-IsValid w zero i target q low v = v
warm_from-IsValid w (suc rounds) i target q low v =
    elim (Bool-cases (leb_ℤ i target && ltb_ℤ i (size q))) [
      | inl more ↦ rw (more) (
          warm_from-IsValid w rounds (i +ℤ pos 1) target
            (if w (path_at q.playlist i) then record q { pre_warmed_up_to = i } else q)
            (ground arith) (ground arith))
      | inr done ↦ rw (done) v
    ]

pub pre_warm_pass-IsValid :
    (pre_warm_song : Text → Bool) (rounds : ℕ) {q : SongQueue}
    → IsValid q
    → IsValid (pre_warm_pass pre_warm_song rounds q)
unfolding pre_warm_pass
pre_warm_pass-IsValid w rounds {q} v = warm_from-IsValid w rounds _ _ q (ground arith) v

-- A step forward that finds a song is undone by a step back, which finds the song before it.
pub previous-next :
    {q : SongQueue}
    → IsValid q
    → (next q).1 ≢ []
    → previous (next q).0 ≡ (q, get_current_song_path q)
unfolding next previous get_current_song_path
previous-next {q} v found = ground (arith, length-of_ne_nil q.playlist)

-- At the last song a step forward finds nothing, and stays there.
pub next_at_end : {q : SongQueue} → IsValid q → q.current_index +ℤ pos 1 ≡ size q → next q ≡ (q, [])
unfolding next
next_at_end {q} v e = ground (arith, length-of_ne_nil q.playlist)

-- What is announced as the next song is what a step forward then finds.
pub get_next_song_path-next : {q : SongQueue} → IsValid q → (next q).1 ≡ get_next_song_path q
unfolding next get_next_song_path
get_next_song_path-next {q} v =
    ground (arith, length_of_nil q.playlist, length-of_ne_nil q.playlist)

-- The songs that steps forward find, up to the first that finds none.
pub play_through : ℕ → SongQueue → List Text
play_through zero q = []
play_through (suc f) q =
    let (q', song) = next q in
    let rest = play_through f q' in if is_empty song then [] else song ∷ rest

abbrev pub IsSong : Text → Type 0
IsSong p = is_empty p ≡ false

drop_at :
    (k : ℕ) (ps : List Text)
    → k < length ps
    → All IsSong ps
    → (drop k ps ≡ get_or ps k [] ∷ drop (suc k) ps) × IsSong (get_or ps k [])
drop_at k [] h songs = absurd (omega arith)
drop_at zero (p ∷ ps) h songs = (refl, songs.0)
drop_at (suc k) (p ∷ ps) h songs = drop_at k ps (omega arith) songs.1

drop_all : (k : ℕ) (ps : List Text) → length ps ≤ k → drop k ps ≡ []
drop_all zero [] h = refl
drop_all zero (p ∷ ps) h = absurd (omega arith)
drop_all (suc k) [] h = refl
drop_all (suc k) (p ∷ ps) h = drop_all k ps (omega arith)

abbrev pub at : SongQueue → ℕ → SongQueue
at q k = record q { current_index = pos k }

pub next-at :
    (q : SongQueue) (k : ℕ)
    → k < length q.playlist
    → next (at q k) ≡ (
        if ltb (suc k) (length q.playlist)
        then (at q (suc k), get_or q.playlist (suc k) [])
        else (at q k, []))
unfolding next
next-at q k h = ground (arith, length_of_nil q.playlist)

play_through-at :
    (f k : ℕ) (q : SongQueue)
    → k < length q.playlist
    → length q.playlist ≤ f + k
    → All IsSong q.playlist
    → play_through f (at q k) ≡ drop (suc k) q.playlist
unfolding play_through
play_through-at zero k q h fuel songs = absurd (omega arith)
play_through-at (suc f) k q h fuel songs = elim (Bool-cases (ltb (suc k) (length q.playlist))) [
  | inl more ↦
      let (split, song) = drop_at (suc k) q.playlist (ground arith) songs in
      rw (next-at q k h, more, song, play_through)
        (ap (λ t. get_or q.playlist (suc k) [] ∷ t)
            (play_through-at f (suc k) q (ground arith) (omega arith) songs)
          ∙ sym split)
  | inr last ↦
      rw (next-at q k h, last, play_through) (sym (drop_all (suc k) q.playlist (ground arith)))
]

-- A loaded playlist is played from its first song to its last, in order, and then ends.
pub play_through-load_playlist :
    (p : Text) (ps : List Text) (q : SongQueue) (f : ℕ)
    → All IsSong (p ∷ ps)
    → length ps < f
    → (get_current_song_path (load_playlist (p ∷ ps) q) ≡ p)
      × (play_through f (load_playlist (p ∷ ps) q) ≡ ps)
unfolding load_playlist get_current_song_path
play_through-load_playlist p ps q f songs fuel =
    (ground arith, play_through-at f 0 (load_playlist (p ∷ ps) q) (omega arith) (omega arith) songs)
