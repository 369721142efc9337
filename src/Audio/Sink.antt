-- ===== src/Audio/Sink.antt =====
-- src/audio/SdlAudioSink.cpp, and `AudioFormat` of src/util/AudioFormat.h. SDL is a parameter: which
-- devices open and with what format, and which conversions it offers. The sink's provider of
-- frames is the engine's, and is not kept in its state.
pub mod Opening
pub mod Fill
pub mod Callbacks
pub mod Slack
mod Tests
use musi_tui.Base.{
  [], ◌++◌, ℕ, zero, suc, ◌+◌, ◌-◌, ◌*◌, ◌/◌, ◌%◌, ◌^◌, Bool, true, false, not, ◌&&◌, ◌||◌, Option,
  none, some, ◌==◌, ltb, if◌then◌else◌, List,
}
use musi_tui.Base.Int.{ℤ, pos, clamp, ltb_ℤ, pos_part}
use musi_tui.Base.Text.{Text, codes}
use musi_tui.Events.Bus.{Bus, push, error}

-- Rates and counts of channels are not negative anywhere in the program.
pub record AudioFormat : Type 0 where
  pub sample_rate : ℕ
  pub channels : ℕ

abbrev pub same_format : AudioFormat → AudioFormat → Bool
same_format a b = a.sample_rate == b.sample_rate && a.channels == b.channels

-- What `SDL_OpenAudioDevice` settles on.
pub record Obtained : Type 0 where
  pub format : AudioFormat
  pub is_s16 : Bool
  pub size : ℕ

-- The device's name is empty for the system default.
pub record Sdl : Type 0 where
  pub audio_ok : Bool
  pub open_audio_device : AudioFormat → Text → Option Obtained
  pub new_audio_stream : AudioFormat → AudioFormat → Bool
  pub get_error : Text

pub record Sink : Type 0 where
  pub is_open : Bool
  pub device : Text
  pub running : Bool
  pub source_format : AudioFormat
  pub device_format : AudioFormat
  pub volume : ℤ
  pub converter : Bool
  pub source_buffer : ℕ
  pub source_frames_per_pull : ℕ
  pub device_buffer_bytes : ℕ
  pub mix_buffer : ℕ

abbrev no_format : AudioFormat
no_format = record { sample_rate = 0; channels = 0 }

unfoldable pub init : Sink
init = record {
  is_open = false;
  device = [];
  running = false;
  source_format = no_format;
  device_format = no_format;
  volume = pos 100;
  converter = false;
  source_buffer = 0;
  source_frames_per_pull = 0;
  device_buffer_bytes = 0;
  mix_buffer = 0;
}

abbrev pub is_supported_source_format : AudioFormat → Bool
is_supported_source_format f = ltb 0 f.sample_rate && (f.channels == 1 || f.channels == 2)

unfoldable pub close : Sink → Sink
close s = if not s.is_open then s else record s {
  is_open = false;
  device = [];
  running = false;
  converter = false;
  source_format = no_format;
  device_format = no_format;
  device_buffer_bytes = 0;
  source_frames_per_pull = 0;
}

-- Products of `std::uint64_t` wrap around.
abbrev wrap : ℕ → ℕ
wrap n = n % 2 ^ 64

abbrev pub device_frames : Sink → ℕ
device_frames s =
    if ltb 0 s.device_format.channels
    then s.device_buffer_bytes / (2 * s.device_format.channels)
    else 0

-- The source frames that one device buffer takes.
unfoldable pub frames_per_pull : Sink → ℕ
frames_per_pull s = wrap (
    wrap (
        wrap (device_frames s * s.source_format.sample_rate)
        + s.device_format.sample_rate
        + (2 ^ 64 - 1))
      / s.device_format.sample_rate
    + 1)

module _ (sdl : Sdl) where
  -- The new sink, and whether it can play the source.
  unfoldable pub rebuild_converter : Sink → Sink × Bool
  unfolding frames_per_pull
  rebuild_converter s =
      if same_format s.source_format s.device_format
      then (
        record s { converter = false; source_frames_per_pull = device_frames s; source_buffer = 0 },
        true,
      )
      else if sdl.new_audio_stream s.source_format s.device_format
      then (
        record s {
          converter = true;
          source_frames_per_pull = frames_per_pull s;
          source_buffer = frames_per_pull s * s.source_format.channels;
        },
        true,
      )
      else (record s { converter = false }, false)

  abbrev pub fail : Text → Sink → Bus → Sink × Bus × Bool
  fail message s bus = (s, push message error bus, false)

  abbrev opened : AudioFormat → Text → Sink → Obtained → Sink
  opened format name s got = record s {
    is_open = true;
    device = name;
    running = false;
    source_format = format;
    device_format = got.format;
    device_buffer_bytes = got.size;
    mix_buffer = got.size;
  }

  -- The new sink and bus, and whether the device is open.
  unfoldable pub open_device : AudioFormat → Text → Sink → Bus → Sink × Bus × Bool
  unfolding close rebuild_converter
  open_device format name sink bus =
      let s = close sink in
      if not (is_supported_source_format format)
      then fail (codes "Audio: invalid format") s bus
      else if not sdl.audio_ok
      then fail (codes "SDL init failed: " ++ sdl.get_error) s bus
      else elim (sdl.open_audio_device format name) [
        | none ↦ fail (codes "Audio device failed: " ++ sdl.get_error) s bus
        | some got ↦
            let (rebuilt, converts) = rebuild_converter (opened format name s got) in
            if not got.is_s16
            then fail (codes "Audio: unsupported format") s bus
            else if got.format.sample_rate == 0 || got.format.channels == 0
            then fail (codes "Audio: format mismatch") s bus
            else if not converts
            then (close rebuilt, bus, false)
            else (rebuilt, bus, true)
      ]

  unfoldable pub set_source_format : AudioFormat → Sink → Bus → Sink × Bus × Bool
  unfolding rebuild_converter
  set_source_format format s bus =
      let (rebuilt, converts) = rebuild_converter (record s { source_format = format }) in
      if not s.is_open
      then (s, bus, false)
      else if not (is_supported_source_format format)
      then fail (codes "Audio: invalid format") s bus
      else if converts
      then (rebuilt, bus, true)
      else fail (codes "Audio: cannot convert to device format") rebuilt bus

unfoldable pub start : Sink → Sink
start s = if not s.is_open then s else record s { running = true }

unfoldable pub stop : Sink → Sink
stop s = if not s.is_open then s else record s { running = false }

unfoldable pub set_volume : ℤ → Sink → Sink
set_volume percent s = record s { volume = clamp percent (pos 0) (pos 100) }
