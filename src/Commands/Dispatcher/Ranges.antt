-- ===== src/Commands/Dispatcher/Ranges.antt =====
-- The numbers that `play` and `volume` hand to the service.
use musi_tui.Base.{
  ℕ, ◌<◌, ◌≤◌, ◌≡◌, refl, ap, Bool, true, false, not, ◌&&◌, ◌||◌, List, [], ◌∷◌, arith, ◌⊎◌, inl,
  inr, length, is_empty, any, Bool-cases, is_some, Option-cases, Option, some, none,
}
use musi_tui.Base.Int.{ℤ, pos, ◌+ℤ◌, ◌-ℤ◌, pos_part, ltb_ℤ, clamp, int_max, add_int}
use musi_tui.Base.Text.{Text, text_eq}
use musi_tui.Base.Decimal.{from_chars, from_chars-IsInt}
use musi_tui.Commands.Dispatcher.{Service, World, Outcome, on_service}
use musi_tui.Commands.Quoting.{trim, tokenize}
use musi_tui.Commands.Dispatcher.Names.Resolution.{resolve_album_member}
use musi_tui.Commands.Dispatcher.Playing.{
  play, volume, play_request, request_of, request_of_text, request_of_tokens, request_of_last_word,
  Request, track_of, refused, starts_with_plus, starts_with_minus, after_plus, set_to, number_of,
  split_last,
}

-- The album of a request is one of the library.
IsKnown : List Text → Request → Type 0
IsKnown names (refused message) = Unit
IsKnown names (track_of album track) = any (text_eq album) names ≡ true

request_of_tokens-IsKnown :
    (names tokens : List Text) → IsKnown names (request_of_tokens names tokens)
unfolding request_of_tokens IsKnown
request_of_tokens-IsKnown names [] = ground arith
request_of_tokens-IsKnown names (name ∷ []) = ground (arith, resolve_album_member names name)
request_of_tokens-IsKnown names (name ∷ number ∷ []) =
    ground (arith, resolve_album_member names name)
request_of_tokens-IsKnown names (a ∷ b ∷ c ∷ tokens) = ground arith

request_of_last_word-IsKnown :
    (names : List Text) (args : Text) (r : Option (Text × Text))
    → IsKnown names (request_of_last_word names args r)
unfolding request_of_last_word IsKnown
request_of_last_word-IsKnown names args none = ground arith
request_of_last_word-IsKnown names args (some r) =
    ground (arith, resolve_album_member names (trim r.0))

request_of-IsKnown : (names : List Text) (args : Text) → IsKnown names (request_of names args)
unfolding request_of request_of_text IsKnown
request_of-IsKnown names args = ground (
  arith,
  request_of_tokens-IsKnown names (tokenize args),
  request_of_last_word-IsKnown names args (split_last args),
  resolve_album_member names args,
)

clamp_level : (sum : ℤ) → (level : ℕ) × (level ≤ 100) × (clamp sum (pos 0) (pos 100) ≡ pos level)
clamp_level sum = (pos_part (clamp sum (pos 0) (pos 100)), ground arith, ground arith)

-- The sum of a relative argument does not fit an `int`.
pub exceeds : Option ℤ → ℕ → Bool
exceeds none level = false
exceeds (some value) level = ltb_ℤ int_max (value +ℤ pos level)

module _ {S C : Type 0} (service : Service S) where
  -- The world is left alone, or playback resumes, or a song of an album of the library is played.
  abbrev pub IsPlayEffect : World S C → World S C → Type 0
  IsPlayEffect w w' =
      (w' ≡ w)
      ⊎ ((w' ≡ on_service service.resume_playback w)
          ⊎ ((album : Text) × (track : ℕ) × (any (text_eq album) (service.get_album_names w.service)
                ≡ true)
              × (track < length (service.get_song_names w.service album))
              × (w' ≡ on_service (service.play_song album (pos track)) w)))

  play_request-effect :
      (r : Request) (w : World S C)
      → IsKnown (service.get_album_names w.service) r
      → IsPlayEffect w (play_request service r w).0
  unfolding play_request IsKnown
  play_request-effect (refused message) w known = inl refl
  play_request-effect (track_of album track) w known =
      let song_names = service.get_song_names w.service album in
      let number = number_of track in
      elim (Bool-cases (is_empty song_names)) [
        | inl e ↦ rw (e, play_request) (inl refl)
        | inr e ↦
            elim (Bool-cases (ltb_ℤ number (pos 1) || ltb_ℤ (pos (length song_names)) number)) [
              | inl outside ↦ rw (e, outside, play_request) (inl refl)
              | inr inside ↦
                  rw (e, inside, play_request)
                    (inr (
                      inr (
                        album,
                        pos_part (number -ℤ pos 1),
                        known,
                        ground arith,
                        ap (λ z. on_service (service.play_song album z) w) (ground arith),
                      )))
            ]
      ]

  -- `play` never asks for a song that is not there: it leaves the service alone, resumes, or plays
  -- a song of an album of the library by an index below the number of its songs.
  pub play-effect : (args : Text) (w : World S C) → IsPlayEffect w (play service args w).0
  unfolding play
  play-effect args w = elim (Bool-cases (is_empty args)) [
    | inl e ↦ rw (e, play) (inr (inl refl))
    | inr e ↦
        rw (e, play)
          (play_request-effect _ w (request_of-IsKnown (service.get_album_names w.service) args))
  ]

  -- The world is left alone, or the service is set to a level of 0 to 100.
  abbrev pub IsVolumeEffect : World S C → Option (Outcome S C) → Type 0
  IsVolumeEffect w none = Unit
  IsVolumeEffect w (some o) =
      (o.0 ≡ w)
      ⊎ ((level : ℕ) × (level ≤ 100) × (o.0 ≡ on_service (service.set_volume (pos level)) w))

  set_to-effect : (sum : ℤ) (w : World S C) → IsVolumeEffect w (some (set_to service sum w))
  set_to-effect sum w =
      let (level, high, e) = clamp_level sum in
      inr (level, high, ap (λ z. on_service (service.set_volume z) w) e)

  -- If `volume` does not overflow, the service is left alone or set to a level of 0 to 100.
  pub volume-effect : (args : Text) (w : World S C) → IsVolumeEffect w (volume service args w)
  unfolding volume
  volume-effect args w = elim (Bool-cases (is_empty args)) [
    | inl e ↦ rw (e, volume) (inl refl)
    | inr e ↦ elim (Option-cases (from_chars (after_plus args))) [
      | inl bad ↦ rw (e, bad, volume) (inl refl)
      | inr (value, good) ↦ elim (Bool-cases (starts_with_plus args || starts_with_minus args)) [
        | inr absolute ↦ rw (e, good, absolute, volume) (set_to-effect value w)
        | inl relative ↦ elim (Option-cases (add_int (service.get_volume w.service) value)) [
          | inl over ↦ rw (e, good, relative, over, volume) tt
          | inr (sum, fits) ↦ rw (e, good, relative, fits, volume) (set_to-effect sum w)
        ]
      ]
    ]
  ]

  -- Over a service whose volume is 0 to 100, `volume` overflows exactly on a relative argument
  -- whose number exceeds the largest `int` when the volume is added.
  pub volume-overflow :
      (args : Text) (w : World S C) (level : ℕ)
      → service.get_volume w.service ≡ pos level
      → level ≤ 100
      → is_some (volume service args w)
        ≡ not (
            (starts_with_plus args || starts_with_minus args)
            && exceeds (from_chars (after_plus args)) level)
  unfolding volume exceeds
  volume-overflow args w level now high = elim (Option-cases (from_chars (after_plus args))) [
    | inl e ↦ rw e (ground arith)
    | inr (v, e) ↦ rw e (ground (arith, from_chars-IsInt (after_plus args) v))
  ]
