-- ===== src/Library/Scanned.antt =====
-- What a scan of the root finds.
use musi_tui.Base.{Bool, not, ◌&&◌, ◌||◌, List, [], ◌∷◌, if◌then◌else◌, map}
use musi_tui.Base.Text.{Text}
use musi_tui.Base.Path.{filename}
use musi_tui.Library.{Entry, Disk}
use musi_tui.Library.Album.{Album, skeleton}
use musi_tui.Library.Scanner.{is_hidden, is_playlist_name, is_taken}

-- A directory of music: not hidden, unless hidden ones are asked for, with an audio file in it and no
-- directory.
abbrev pub is_music_directory : Disk → Bool → Entry → Bool
is_music_directory disk include_hidden e =
    e.is_directory && ((include_hidden || not (is_hidden e.path)) && is_taken (disk.entries e.path))

pub album_entries : Disk → Bool → List Entry → List Entry
album_entries disk include_hidden [] = []
album_entries disk include_hidden (e ∷ es) =
    let rest = album_entries disk include_hidden es in
    if is_music_directory disk include_hidden e && not (is_playlist_name (filename e.path))
    then e ∷ rest
    else rest

unfoldable pub found_albums : Disk → Bool → List Entry → List Album
unfolding album_entries
found_albums disk include_hidden es =
    map (λ e. skeleton e.path) (album_entries disk include_hidden es)
