-- ===== src/Commands/Dispatcher/Playing.antt =====
-- `play` and `volume` of src/commands/CommandDispatcher.cpp.
use musi_tui.Base.{
  ℕ, Bool, false, ◌||◌, List, [], ◌∷◌, ◌++◌, ◌==◌, Option, none, some, if◌then◌else◌, length,
  get_or, is_empty,
}
use musi_tui.Base.Int.{ℤ, pos, ◌-ℤ◌, ltb_ℤ, clamp, add_int, pos_part}
use musi_tui.Base.Text.{Text, codes}
use musi_tui.Base.Decimal.{to_string, to_string_ℕ, from_chars}
use musi_tui.Commands.Result.{success, success_with, query, failure}
use musi_tui.Commands.Quoting.{trim, tokenize, starts_quoted}
use musi_tui.Commands.Dispatcher.{Service, World, Outcome, on_service}
use musi_tui.Commands.Dispatcher.Names.{resolve_album}
use musi_tui.Commands.Dispatcher.Queries.{no_album}

-- `c` is one of " \t".
abbrev pub is_blank : ℕ → Bool
is_blank c = c == 32 || c == 9

-- `find_last_of(" \t")`: the text before the last blank, and after it.
pub split_last : Text → Option (Text × Text)
split_last [] = none
split_last (c ∷ s) = elim (split_last s) [
  | some r ↦ some (c ∷ r.0, r.1)
  | none ↦ if is_blank c then some ([], s) else none
]

-- What an argument of `play` names: an album with a track, or the message of a failure.
pub data Request : Type 0 where
  track_of : Text → Option ℤ → Request
  refused : Text → Request

abbrev pub usage : Request
usage = refused (codes "Usage: play <album> [track]")

-- The tokens of an argument that begins with a quote mark.
unfoldable pub request_of_tokens : List Text → List Text → Request
request_of_tokens names [] = usage
request_of_tokens names (name ∷ []) =
    let album = resolve_album names name in
    if is_empty album then refused (no_album name) else track_of album none
request_of_tokens names (name ∷ number ∷ []) =
    let album = resolve_album names name in
    if is_empty album then refused (no_album name) else elim (from_chars number) [
      | some track ↦ track_of album (some track)
      | none ↦ refused (codes "Track must be a number")
    ]
request_of_tokens names (a ∷ b ∷ c ∷ tokens) = usage

-- The fallback for other text: its last word as the track.
unfoldable pub request_of_last_word : List Text → Text → Option (Text × Text) → Request
request_of_last_word names args none = refused (no_album args)
request_of_last_word names args (some r) = elim (from_chars r.1) [
  | none ↦ refused (no_album args)
  | some track ↦
      let album = resolve_album names (trim r.0) in
      if is_empty album then refused (no_album args) else track_of album (some track)
]

unfoldable pub request_of_text : List Text → Text → Request
unfolding request_of_last_word split_last
request_of_text names args =
    let album = resolve_album names args in
    if is_empty album
    then request_of_last_word names args (split_last args)
    else track_of album none

unfoldable pub request_of : List Text → Text → Request
unfolding request_of_tokens request_of_text
request_of names args =
    if starts_quoted args
    then request_of_tokens names (tokenize args)
    else request_of_text names args

-- `track.value_or(1)`
abbrev pub number_of : Option ℤ → ℤ
number_of none = pos 1
number_of (some n) = n

abbrev volume_data : ℤ → Text
volume_data v = codes "{\"volume\":" ++ to_string v ++ codes "}"

abbrev pub starts_with_plus : Text → Bool
starts_with_plus [] = false
starts_with_plus (c ∷ s) = c == b'+'

abbrev pub starts_with_minus : Text → Bool
starts_with_minus [] = false
starts_with_minus (c ∷ s) = c == b'-'

abbrev pub after_plus : Text → Text
after_plus [] = []
after_plus (c ∷ s) = if c == b'+' then s else c ∷ s

module _ {S C : Type 0} (service : Service S) where
  unfoldable pub play_request : Request → World S C → Outcome S C
  play_request (refused message) w = (w, failure message)
  play_request (track_of album track) w =
      let song_names = service.get_song_names w.service album in
      let number = number_of track in
      if is_empty song_names
      then (w, failure (album ++ codes " is still loading, retry shortly"))
      else if ltb_ℤ number (pos 1) || ltb_ℤ (pos (length song_names)) number
      then (w, failure (codes "Track must be 1.." ++ to_string_ℕ (length song_names)))
      else (
        on_service (service.play_song album (number -ℤ pos 1)) w,
        success (
            codes "Playing "
            ++ get_or song_names (pos_part (number -ℤ pos 1)) []
            ++ codes " ("
            ++ album
            ++ codes ")"),
      )

  unfoldable pub play : Text → World S C → Outcome S C
  unfolding request_of play_request
  play args w =
      if is_empty args
      then (on_service service.resume_playback w, success (codes "Playing..."))
      else play_request (request_of (service.get_album_names w.service) args) w

  abbrev pub set_to : ℤ → World S C → Outcome S C
  set_to sum w =
      let target = clamp sum (pos 0) (pos 100) in
      (
        on_service (service.set_volume target) w,
        success_with (codes "Volume " ++ to_string target ++ codes "%") (volume_data target),
      )

  -- `none` is the overflow of `current + *value`.
  unfoldable pub volume : Text → World S C → Option (Outcome S C)
  volume args w =
      let current = service.get_volume w.service in
      let relative = starts_with_plus args || starts_with_minus args in
      if is_empty args
      then some (w, query (codes "Volume " ++ to_string current ++ codes "%") (volume_data current))
      else elim (from_chars (after_plus args)) [
        | none ↦ some (w, failure (codes "Usage: volume [N|+N|-N]"))
        | some value ↦ elim (if relative then add_int current value else some value) [
          | none ↦ none
          | some sum ↦ some (set_to sum w)
        ]
      ]
