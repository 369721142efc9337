-- ===== src/Player/Engine/Device.antt =====
-- `setOutputDevice` of src/player/PlaybackEngine.cpp.
use musi_tui.Base.{Bool, true, false, not, ◌&&◌, ◌++◌, none, some, ltb, if◌then◌else◌}
use musi_tui.Base.Text.{Text, codes, text_eq}
use musi_tui.Audio.Sink.{
  AudioFormat, Sink, open_device, init as new_sink, start as start_sink,
  set_volume as set_sink_volume,
}
use musi_tui.Player.Engine.{Engine, World, say, complain, device_label, is_in_playing}

-- The format of a probe: that of the last song, or a default.
abbrev pub probe_format : AudioFormat → AudioFormat
probe_format f = record {
  sample_rate = if ltb 0 f.sample_rate then f.sample_rate else 44100;
  channels = if ltb 0 f.channels then f.channels else 2;
}

module _ (world : World) where
  -- Probing a device while nothing is loaded.
  unfoldable pub probe_device : Text → Engine → Engine × Bool
  probe_device name e =
      let (s, bus, ok) = open_device world.sdl (probe_format e.format) name new_sink e.bus in
      let asked = if world.sink_factory then record e { bus = bus } else e in
      if not (world.sink_factory && ok)
      then (
        complain
            (codes "Output '"
              ++ device_label name
              ++ codes "' unavailable, keeping "
              ++ device_label e.output_device_name)
            asked,
        false,
      )
      else (
        say (codes "Output: " ++ device_label name) (record asked { output_device_name = name }),
        true,
      )

  -- Replacing the running sink `old`.
  unfoldable pub swap_device : Text → Engine → Sink → Engine × Bool
  swap_device name e old =
      let (s, bus, ok) = open_device world.sdl e.format name new_sink e.bus in
      let asked = if world.sink_factory then record e { bus = bus } else e in
      let louder = set_sink_volume e.volume s in
      if not (world.sink_factory && ok)
      then (
        complain
            (codes "Output '"
              ++ device_label name
              ++ codes "' unavailable, keeping "
              ++ device_label e.output_device_name)
            asked,
        false,
      )
      else (
        say (codes "Output: " ++ device_label name) (record asked {
          sink = some (if is_in_playing e.state then start_sink louder else louder);
          output_device_name = name;
        }),
        true,
      )

  unfoldable pub set_output_device : Text → Engine → Engine × Bool
  unfolding probe_device swap_device
  set_output_device name e =
      if text_eq name e.output_device_name
      then (e, true)
      else elim e.sink [ none ↦ probe_device name e | some old ↦ swap_device name e old ]
