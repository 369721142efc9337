-- ===== src/Player/Engine.antt =====
-- src/player/PlaybackEngine.cpp. The decoders and SDL are parameters; the sink and the ring buffer
-- are those of Audio.Sink and Util.RingBuffer. The spectrum and tempo analysers, floating-point
-- code that nothing here reads, are left out, and so is the progress, a quotient of floats.
pub mod Load
pub mod Play
pub mod Device
pub mod Invariant
pub mod Effects
pub mod Loading
pub mod Attained
pub mod File
mod Tests
use musi_tui.Base.{
  ℕ, zero, suc, ◌+◌, ◌*◌, ◌/◌, Bool, true, false, not, ◌&&◌, ◌||◌, List, [], ◌∷◌, ◌++◌, Option,
  none, some, is_some, ◌==◌, ltb, leb, if◌then◌else◌, length, is_empty,
}
use musi_tui.Base.Int.{ℤ, pos, clamp}
use musi_tui.Base.Text.{Text, codes, text_eq}
use musi_tui.Events.Bus.{Bus, push, info, error}
use musi_tui.Audio.Sink.{
  AudioFormat, Sdl, Sink, open_device, set_source_format, init as new_sink, start as start_sink,
  stop as stop_sink, close as close_sink, set_volume as set_sink_volume,
}
use musi_tui.Util.RingBuffer.{
  RingBuffer, init as new_ring, clear as clear_ring, write as write_ring, read as read_ring,
}

-- `IAudioDecoder` as far as the engine uses it, once a file is open.
pub record Decoder : Type 0 where
  pub format : AudioFormat
  pub total_samples : ℕ

pub data State : Type 0 where
  stopped : State
  playing : State
  paused : State

-- `DecodeThread`, as far as the engine tells: whether it was started.
pub record DecodeThread : Type 0 where
  pub running : Bool

pub record Engine : Type 0 where
  pub decoder : Option Decoder
  pub sink : Option Sink
  pub ring_buffer : Option RingBuffer
  pub decode_thread : Option DecodeThread
  pub state : State
  pub current_file : Text
  pub format : AudioFormat
  pub silent_callbacks : ℕ
  pub samples_played : ℕ
  pub total_samples : ℕ
  pub output_device_name : Text
  pub volume : ℤ
  pub bus : Bus

-- What surrounds the engine during one call: the decoder factory with what opening a file gives,
-- the sink factory, the name that a path shows, and the samples that the decode thread delivers
-- while playback waits for a first filling of the ring buffer.
pub record World : Type 0 where
  pub decoder_factory : Text → Bool
  pub decoder_open : Text → Option Decoder
  pub sink_factory : Bool
  pub sdl : Sdl
  pub filename : Text → Text
  pub prefill : List ℕ

-- A new engine, with its bus.
unfoldable pub init : Engine
init = record {
  decoder = none;
  sink = none;
  ring_buffer = none;
  decode_thread = none;
  state = stopped;
  current_file = [];
  format = record { sample_rate = 0; channels = 0 };
  silent_callbacks = 0;
  samples_played = 0;
  total_samples = 0;
  output_device_name = [];
  volume = pos 100;
  bus = [];
}

abbrev pub say : Text → Engine → Engine
say message e = record e { bus = push message info e.bus }

abbrev pub complain : Text → Engine → Engine
complain message e = record e { bus = push message error e.bus }

-- A call through a pointer that may be null.
abbrev pub on_some : {A : Type 0} → (A → A) → Option A → Option A
on_some f none = none
on_some f (some a) = some (f a)

-- Stopping the decode thread and closing the decoder end with dropping them.
unfoldable pub stop_playback : Engine → Engine
stop_playback e = record e {
  sink = on_some stop_sink e.sink;
  decode_thread = none;
  decoder = none;
  ring_buffer = on_some clear_ring e.ring_buffer;
  state = stopped;
  current_file = [];
  total_samples = 0;
  samples_played = 0;
}

abbrev pub device_label : Text → Text
device_label name = if is_empty name then codes "system default" else name

abbrev pub is_in_playing : State → Bool
is_in_playing playing = true
is_in_playing stopped = false
is_in_playing paused = false

unfoldable pub pause : Engine → Engine
pause e = elim e.state [
  | playing ↦ record e { sink = on_some stop_sink e.sink; state = paused }
  | stopped ↦ e
  | paused ↦ e
]

unfoldable pub set_volume : ℤ → Engine → Engine
set_volume percent e = record e {
  volume = clamp percent (pos 0) (pos 100);
  sink = on_some (set_sink_volume percent) e.sink;
}

abbrev pub end_of_stream_threshold : ℕ
end_of_stream_threshold = 5

unfoldable pub has_reached_end_of_stream : Engine → Bool
has_reached_end_of_stream e = leb end_of_stream_threshold e.silent_callbacks

-- One call of the audio callback: the new engine, the samples, and the number of frames.
unfoldable pub provide : ℕ → Engine → Engine × List ℕ × ℕ
provide frames_requested e = elim e.ring_buffer [
  | none ↦ (record e { silent_callbacks = suc e.silent_callbacks }, [], 0)
  | some r ↦
      let (r', samples) = read_ring r (frames_requested * e.format.channels) in
      let frames_read = length samples / e.format.channels in
      let emptied = record e { ring_buffer = some r' } in
      if frames_read == 0
      then (record emptied { silent_callbacks = suc e.silent_callbacks }, samples, frames_read)
      else (
        record emptied { silent_callbacks = 0; samples_played = e.samples_played + length samples },
        samples,
        frames_read,
      )
]
