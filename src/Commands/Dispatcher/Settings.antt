-- ===== src/Commands/Dispatcher/Settings.antt =====
-- `output`, `theme`, `visual` and `root` of src/commands/CommandDispatcher.cpp.
use musi_tui.Base.{◌||◌, List, [], ◌++◌, none, some, if◌then◌else◌, length, get_or, is_empty}
use musi_tui.Base.Int.{pos, ◌-ℤ◌, ltb_ℤ, pos_part}
use musi_tui.Base.Text.{Text, codes, text_eq}
use musi_tui.Base.Decimal.{to_string_ℕ, from_chars}
use musi_tui.Util.Json.{quote}
use musi_tui.Commands.Result.{CommandResult, success, query, failure}
use musi_tui.Commands.Quoting.{single_arg}
use musi_tui.Commands.Dispatcher.{
  Service, Config, World, Outcome, apply_theme, apply_visual, library_changed, on_service,
  on_config, on_ui,
}
use musi_tui.Commands.Dispatcher.Names.{
  themes, visuals, pick_index, option_list, json_name_array, append_names, numbered_from,
}
use musi_tui.Commands.Dispatcher.Queries.{clamped_name}

abbrev device_list : List Text → CommandResult
device_list devices =
    if is_empty devices
    then query (codes "No output devices found") (codes "{\"devices\":[]}")
    else query (numbered_from 0 devices)
        (append_names (codes "{\"devices\":[") 0 devices ++ codes "]}")

abbrev pub invalid_device : List Text → CommandResult
invalid_device devices =
    failure (codes "Invalid device. Enter [1.." ++ to_string_ℕ (length devices) ++ codes "]")

module _ {S C : Type 0} (service : Service S) (config : Config C) where
  unfoldable pub output : Text → World S C → Outcome S C
  output args w =
      let devices = service.list_output_devices w.service in
      if is_empty args || text_eq args (codes "list")
      then (w, device_list devices)
      else elim (from_chars args) [
        | none ↦ (w, invalid_device devices)
        | some n ↦
            if ltb_ℤ n (pos 1) || ltb_ℤ (pos (length devices)) n
            then (w, invalid_device devices)
            else (
              on_service (service.set_output_device (n -ℤ pos 1)) w,
              success (codes "Switching output to " ++ get_or devices (pos_part (n -ℤ pos 1)) []),
            )
      ]

  unfoldable pub theme : Text → World S C → Outcome S C
  theme args w =
      let current = clamped_name themes (config.get_theme w.config) in
      if is_empty args
      then (
        w,
        query (codes "Theme " ++ current ++ codes ". Options: " ++ option_list themes) (
            codes "{\"theme\":"
            ++ quote current
            ++ codes ",\"options\":"
            ++ json_name_array themes
            ++ codes "}"),
      )
      else elim (pick_index args themes) [
        | none ↦ (w, failure (codes "Invalid theme. Options: " ++ option_list themes))
        | some idx ↦ (
          on_config (config.set_theme (pos idx)) (on_ui (apply_theme idx) w),
          success (codes "Theme: " ++ get_or themes idx []),
        )
      ]

  unfoldable pub visual : Text → World S C → Outcome S C
  visual args w =
      let current = clamped_name visuals (config.get_visual w.config) in
      if is_empty args
      then (
        w,
        query (codes "Visual " ++ current ++ codes ". Options: " ++ option_list visuals) (
            codes "{\"visual\":"
            ++ quote current
            ++ codes ",\"options\":"
            ++ json_name_array visuals
            ++ codes "}"),
      )
      else elim (pick_index args visuals) [
        | none ↦ (w, failure (codes "Invalid visual. Options: " ++ option_list visuals))
        | some idx ↦ (
          on_config (config.set_visual (pos idx)) (on_ui (apply_visual idx) w),
          success (codes "Visual: " ++ get_or visuals idx []),
        )
      ]

  unfoldable pub root : Text → World S C → Outcome S C
  root args w =
      let path = single_arg args in
      let current = config.get_root_path w.config in
      let asked = service.set_root_path path w.service in
      let tried = record w { service = asked.0 } in
      if is_empty path
      then (
        w,
        query (if is_empty current then codes "Root not set" else codes "Root: " ++ current)
            (codes "{\"root\":" ++ quote current ++ codes "}"),
      )
      else elim asked.1 [
        | some error ↦ (tried, failure (codes "Invalid path: " ++ error))
        | none ↦ (
          on_ui library_changed (on_config (config.set_root_path path) tried),
          success (codes "Root: " ++ path),
        )
      ]
