-- ===== src/Library/Tests.antt =====
-- A scan of a small disk, and the theorems at concrete inputs.
use musi_tui.Base.{◌≡◌, refl, true, false, [], ◌∷◌}
use musi_tui.Base.Int.{pos}
use musi_tui.Base.Text.{codes}
use musi_tui.Base.Decimal.{to_string, to_string_ℕ}
use musi_tui.Library.{is_supported}
use musi_tui.Library.Song.{song_formatted_duration}
use musi_tui.Library.Example.{disk, root_entries}
use musi_tui.Library.Album.{Album, skeleton}
use musi_tui.Library.Scanner.{has_subdirectories, has_audio_files, is_hidden, is_playlist_name}
use musi_tui.Library.Scanned.{found_albums}

supported :
    (is_supported (codes "/m/a.MP3") ≡ true)
    × (is_supported (codes "/m/a.mp3.txt") ≡ false)
    × (is_supported (codes "/m/.mp3") ≡ false)
unfolding is_supported
supported = (refl, refl, refl)

shown : song_formatted_duration (pos 185) ≡ codes "3:05"
unfolding song_formatted_duration to_string to_string_ℕ
shown = refl

found : found_albums disk false root_entries ≡ skeleton (codes "/m/Low") ∷ []
unfolding found_albums is_supported has_subdirectories has_audio_files is_hidden is_playlist_name
found = refl
