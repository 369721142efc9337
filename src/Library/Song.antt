-- ===== src/Library/Song.antt =====
-- src/library/Song.cpp.
use musi_tui.Base.{
  ℕ, zero, suc, ◌+◌, ◌*◌, ◌/◌, ◌%◌, not, ◌||◌, List, [], ◌∷◌, ◌++◌, Option, none, some, ◌==◌, ltb,
  if◌then◌else◌, length,
}
use musi_tui.Base.Int.{ℤ, pos, negsuc, sub_ℕ, ltb_ℤ, as_int, add_int}
use musi_tui.Base.Text.{Text, codes}
use musi_tui.Base.Decimal.{to_string}
use musi_tui.Base.Path.{stem}
use musi_tui.Library.{Decoded, Disk}

pub data SongType : Type 0 where
  interlude : SongType
  standard : SongType
  suite : SongType
  medley : SongType

pub record Song : Type 0 where
  pub file_path : Text
  pub title : Text
  pub artist : Text
  pub album : Text
  pub kind : SongType
  pub duration_seconds : ℤ

-- How many frames the first calls of `decodeFrames` give; the first that gives none ends them.
abbrev frames_sampled : ℕ → List ℕ → ℕ
frames_sampled zero frames = 0
frames_sampled (suc n) [] = 0
frames_sampled (suc n) (f ∷ frames) = f + frames_sampled n (if f == 0 then [] else frames)

unfoldable pub classify_by_duration : ℤ → SongType
classify_by_duration seconds =
    if ltb_ℤ seconds (pos 120)
    then interlude
    else if ltb_ℤ seconds (pos 420)
    then standard
    else if ltb_ℤ seconds (pos 900)
    then suite
    else medley

abbrev estimated_mp3_bitrate : ℕ
estimated_mp3_bitrate = 192000

-- The seconds that the length tells, or the size of the file, which is taken to be one of less than
-- 2 ^ 31 seconds.
abbrev seconds_of : ℕ → Decoded → ℤ
seconds_of file_size d =
    if ltb 0 d.total_samples
    then as_int (d.total_samples / (d.sample_rate * d.channels))
    else as_int (file_size * 8 / estimated_mp3_bitrate)

abbrev unknown : SongType × ℤ
unknown = (standard, pos 0)

abbrev typed : ℤ → SongType × ℤ
typed seconds = (classify_by_duration seconds, seconds)

abbrev measured : ℕ → Option Decoded → SongType × ℤ
measured file_size none = unknown
measured file_size (some d) =
    if frames_sampled 10 d.frames == 0 || d.sample_rate == 0 || d.channels == 0
    then unknown
    else typed (seconds_of file_size d)

-- The type and the duration; `none` where a call throws.
unfoldable pub extract_metadata : Disk → Text → Option (SongType × ℤ)
unfolding classify_by_duration
extract_metadata disk path =
    if not (disk.exists path) then some unknown else elim (disk.file_size path) [
      | none ↦ none
      | some size ↦ some (measured size (disk.decoded path))
    ]

unfoldable pub new_song : Disk → Text → Text → Option Song
unfolding extract_metadata
new_song disk path album_name = elim (extract_metadata disk path) [
  | none ↦ none
  | some m ↦ some (record {
    file_path = path;
    title = stem path;
    artist = codes "Unknown";
    album = album_name;
    kind = m.0;
    duration_seconds = m.1;
  })
]

unfoldable pub song_type_as_string : SongType → Text
song_type_as_string interlude = codes "Interlude"
song_type_as_string standard = codes "Standard"
song_type_as_string suite = codes "Suite"
song_type_as_string medley = codes "Medley"

-- Division of an `int` by a positive number, towards zero, and what it leaves.
abbrev pub div_int : ℤ → ℕ → ℤ
div_int (pos n) d = pos (n / d)
div_int (negsuc n) d = sub_ℕ 0 (suc n / d)

abbrev pub mod_int : ℤ → ℕ → ℤ
mod_int (pos n) d = pos (n % d)
mod_int (negsuc n) d = sub_ℕ 0 (suc n % d)

-- `std::setw(2)` with the fill `0`
abbrev two_wide : Text → Text
two_wide s = if ltb (length s) 2 then b'0' ∷ s else s

unfoldable pub song_formatted_duration : ℤ → Text
song_formatted_duration seconds =
    to_string (div_int seconds 60) ++ b':' ∷ two_wide (to_string (mod_int seconds 60))

-- The sum of the durations, as `Album` and `Playlist` form it; `none` is an overflow.
abbrev total_from : ℤ → List Song → Option ℤ
total_from total [] = some total
total_from total (s ∷ songs) = elim (add_int total s.duration_seconds) [
  | none ↦ none
  | some t ↦ total_from t songs
]

abbrev pub total_duration : List Song → Option ℤ
total_duration songs = total_from (pos 0) songs

abbrev pub hours_minutes_seconds : ℤ → Text
hours_minutes_seconds total =
    let hours = div_int total 3600 in
    let minutes = div_int (mod_int total 3600) 60 in
    let rest = to_string minutes ++ codes "m " ++ to_string (mod_int total 60) ++ codes "s" in
    if ltb_ℤ (pos 0) hours then to_string hours ++ codes "h " ++ rest else rest
