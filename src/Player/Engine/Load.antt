-- ===== src/Player/Engine/Load.antt =====
-- `load`, `prepareSink` and `openSink` of src/player/PlaybackEngine.cpp.
use musi_tui.Base.{
  ℕ, ◌*◌, Bool, true, false, not, [], ◌++◌, Option, none, some, if◌then◌else◌, is_empty,
}
use musi_tui.Base.Text.{Text, codes}
use musi_tui.Audio.Sink.{
  AudioFormat, Sink, open_device, set_source_format, init as new_sink,
  set_volume as set_sink_volume,
}
use musi_tui.Util.RingBuffer.{RingBuffer, init as new_ring, clear as clear_ring}
use musi_tui.Player.Engine.{
  Decoder, stopped, Engine, World, complain, on_some, stop_playback, device_label,
}

module _ (world : World) where
  -- A new sink, if the second attempt of `openSink` gives it.
  unfoldable pub open_default : AudioFormat → Engine → Sink → Engine × Bool
  open_default format e tried =
      let (s, bus, ok) = open_device world.sdl format [] tried e.bus in
      let kept = record e { sink = some s; bus = bus } in
      if is_empty e.output_device_name
      then (record e { sink = some tried }, false)
      else if not ok
      then (kept, false)
      else (
        record (complain
            (codes "Output '"
              ++ device_label e.output_device_name
              ++ codes "' unavailable, using system default")
            kept) { output_device_name = [] },
        true,
      )

  unfoldable pub open_sink : AudioFormat → Engine → Engine × Bool
  unfolding open_default
  open_sink format e =
      let (s, bus, ok) = open_device world.sdl format e.output_device_name new_sink e.bus in
      let tried = record e { sink = some s; bus = bus } in
      if not world.sink_factory
      then (record e { sink = none }, false)
      else if ok
      then (tried, true)
      else open_default format tried s

  -- The open device, told of the new format; `false` if there is none, or it refuses.
  unfoldable pub retarget : AudioFormat → Engine → Option Sink → Engine × Bool
  retarget format e none = (e, false)
  retarget format e (some s) =
      let (s', bus, ok) = set_source_format world.sdl format s e.bus in
      if s.is_open then (record e { sink = some s'; bus = bus }, ok) else (e, false)

  unfoldable pub prepare_sink : AudioFormat → Engine → Engine × Bool
  unfolding retarget open_sink
  prepare_sink format e =
      let (reused, fits) = retarget format e e.sink in
      let (opened, ok) = open_sink format reused in
      if fits
      then (reused, true)
      else if ok
      then (opened, true)
      else (record (complain (codes "Failed to open audio sink") opened) { sink = none }, false)

  abbrev pub ring_capacity : ℕ
  ring_capacity = 2 * 192000 * 2

  abbrev ready_ring : Option RingBuffer → RingBuffer
  ready_ring none = clear_ring (new_ring ring_capacity)
  ready_ring (some r) = clear_ring r

  -- The engine with an open decoder.
  unfoldable pub with_source : Text → Decoder → Engine → Engine
  with_source audio_file d e = record e {
    decoder = some d;
    current_file = audio_file;
    format = d.format;
    total_samples = d.total_samples;
    samples_played = 0;
    ring_buffer = some (ready_ring e.ring_buffer);
    decode_thread = some (record { running = false });
  }

  -- The end of `load`, behind `prepareSink`.
  unfoldable pub finish_load : Engine × Bool → Engine × Bool
  finish_load (prepared, ok) =
      if ok
      then (
        record prepared {
          sink = on_some (set_sink_volume prepared.volume) prepared.sink;
          state = stopped;
        },
        true,
      )
      else (record prepared { decoder = none; decode_thread = none }, false)

  -- `load`, from an open decoder on.
  unfoldable pub load_open : Text → Decoder → Engine → Engine × Bool
  load_open audio_file d e = finish_load (prepare_sink d.format (with_source audio_file d e))

  unfoldable pub load : Text → Engine → Engine × Bool
  load audio_file e =
      let cleared = stop_playback e in
      if not (world.decoder_factory audio_file)
      then (complain (codes "Unsupported format: " ++ world.filename audio_file) cleared, false)
      else elim (world.decoder_open audio_file) [
        | none ↦ (complain (codes "Failed to open: " ++ world.filename audio_file) cleared, false)
        | some d ↦ load_open audio_file d cleared
      ]
