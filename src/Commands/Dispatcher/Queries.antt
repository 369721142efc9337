-- ===== src/Commands/Dispatcher/Queries.antt =====
-- The commands of src/commands/CommandDispatcher.cpp that only ask: `help`, `status`, `albums`,
-- `songs`. The methods are `const`, and the model gives them no way to change the world.
use musi_tui.Base.{
  ℕ, ◌+◌, Bool, true, false, List, [], ◌∷◌, ◌++◌, if◌then◌else◌, length, get_or, is_empty, ltb,
}
use musi_tui.Base.Int.{ℤ, pos, ◌+ℤ◌, ◌-ℤ◌, clamp, pos_part}
use musi_tui.Base.Text.{Text, codes}
use musi_tui.Base.Decimal.{to_string, to_string_ℕ}
use musi_tui.Util.Json.{quote}
use musi_tui.Commands.Result.{CommandResult, query, failure}
use musi_tui.Commands.Quoting.{single_arg}
use musi_tui.Commands.Dispatcher.{Service, Config, World}
use musi_tui.Commands.Dispatcher.Names.{themes, visuals, append_names, numbered_from, resolve_album}

abbrev pub help_text : Text
help_text =
    codes "play                     resume playback\n"
    ++ codes "play <album> [track]     play an album, optionally from track N (1-based)\n"
    ++ codes "stop | pause             pause playback\n"
    ++ codes "next | prev              skip forward / back\n"
    ++ codes "status                   current song, album, volume\n"
    ++ codes "albums                   list albums\n"
    ++ codes "songs <album>            list the tracks of an album\n"
    ++ codes "volume [N|+N|-N]         show or set volume (0-100)\n"
    ++ codes "output [list|N]          list or select the output device\n"
    ++ codes "theme [N|name]           show or set the color theme\n"
    ++ codes "visual [N|name]          show or set the visualizer\n"
    ++ codes "root [path]              show or set the music root directory\n"
    ++ codes "quit                     close the player"

unfoldable pub help : CommandResult
help = query help_text []

-- The name at a setting that is clamped into the list first.
unfoldable pub clamped_name : List Text → ℤ → Text
clamped_name names i = get_or names (pos_part (clamp i (pos 0) (pos (length names) -ℤ pos 1))) []

abbrev json_bool : Bool → Text
json_bool true = codes "true"
json_bool false = codes "false"

-- The message and the JSON items of `albums`, from index `i` on. `tracks` counts the songs of a name.
album_lines : (Text → ℕ) → ℕ → List Text → List Bool → Text
album_lines tracks i [] loaded = []
album_lines tracks i (n ∷ names) loaded =
    let is_loaded = get_or loaded i false in
    (if ltb 0 i then codes "\n" else [])
    ++ to_string_ℕ (i + 1)
    ++ codes ". "
    ++ n
    ++ (if is_loaded
        then codes " (" ++ to_string_ℕ (tracks n) ++ codes " tracks)"
        else codes " (loading)")
    ++ album_lines tracks (i + 1) names loaded

album_items : (Text → ℕ) → ℕ → List Text → List Bool → Text
album_items tracks i [] loaded = []
album_items tracks i (n ∷ names) loaded =
    let is_loaded = get_or loaded i false in
    (if ltb 0 i then codes "," else [])
    ++ codes "{\"name\":"
    ++ quote n
    ++ codes ",\"loaded\":"
    ++ json_bool is_loaded
    ++ codes ",\"tracks\":"
    ++ to_string_ℕ (if is_loaded then tracks n else 0)
    ++ codes "}"
    ++ album_items tracks (i + 1) names loaded

unfoldable pub no_album : Text → Text
no_album name = codes "No album named '" ++ name ++ codes "' (see: albums)"

module _ {S C : Type 0} (service : Service S) (config : Config C) where
  abbrev playing_line : World S C → Text
  playing_line w =
      (if service.is_playing w.service then codes "Playing: " else codes "Paused: ")
      ++ service.get_current_song_name w.service
      ++ codes " ("
      ++ service.get_current_album w.service
      ++ codes ", track "
      ++ to_string (service.get_current_track_index w.service +ℤ pos 1)
      ++ codes ")"

  unfoldable pub status : World S C → CommandResult
  unfolding clamped_name
  status w =
      let album = service.get_current_album w.service in
      let song = service.get_current_song_name w.service in
      let next = service.get_next_song_name w.service in
      let track = service.get_current_track_index w.service +ℤ pos 1 in
      let volume = service.get_volume w.service in
      let message =
        (if is_empty song then codes "Nothing loaded" else playing_line w)
        ++ codes ", volume "
        ++ to_string volume
        ++ codes "%" in
      let data_text =
        codes "{\"playing\":"
        ++ json_bool (service.is_playing w.service)
        ++ codes ",\"album\":"
        ++ quote album
        ++ codes ",\"track\":"
        ++ to_string (if is_empty song then pos 0 else track)
        ++ codes ",\"song\":"
        ++ quote song
        ++ codes ",\"next\":"
        ++ quote next
        ++ codes ",\"volume\":"
        ++ to_string volume
        ++ codes ",\"theme\":"
        ++ quote (clamped_name themes (config.get_theme w.config))
        ++ codes ",\"visual\":"
        ++ quote (clamped_name visuals (config.get_visual w.config))
        ++ codes ",\"root\":"
        ++ quote (config.get_root_path w.config)
        ++ codes "}" in
      query message data_text

  unfoldable pub albums : World S C → CommandResult
  unfolding album_lines album_items
  albums w =
      let names = service.get_album_names w.service in
      let loaded = service.get_album_loaded_states w.service in
      let tracks = λ (n : Text). length (service.get_song_names w.service n) in
      if is_empty names
      then query (codes "No albums. Set the music root with: root <path>") (codes "{\"albums\":[]}")
      else query (album_lines tracks 0 names loaded)
          (codes "{\"albums\":[" ++ album_items tracks 0 names loaded ++ codes "]}")

  unfoldable pub songs : Text → World S C → CommandResult
  unfolding no_album
  songs args w =
      let requested = single_arg args in
      let album = resolve_album (service.get_album_names w.service) requested in
      let names = service.get_song_names w.service album in
      if is_empty requested
      then failure (codes "Usage: songs <album>")
      else if is_empty album
      then failure (no_album requested)
      else query
          (if is_empty names then album ++ codes " is still loading" else numbered_from 0 names)
          (append_names (codes "{\"album\":" ++ quote album ++ codes ",\"songs\":[") 0 names
            ++ codes "]}")
