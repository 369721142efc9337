-- ===== src/Player/Engine/Play.antt =====
-- `play` and `startPlayback` of src/player/PlaybackEngine.cpp.
use musi_tui.Base.{Bool, true, false, not, ◌||◌, some, is_some, if◌then◌else◌, length}
use musi_tui.Base.Text.{codes}
use musi_tui.Audio.Sink.{start as start_sink}
use musi_tui.Util.RingBuffer.{RingBuffer, write as write_ring}
use musi_tui.Player.Engine.{
  State, playing, stopped, paused, Engine, World, complain, on_some, is_in_playing,
}

module _ (world : World) where
  -- The decode thread fills the ring buffer while `startPlayback` waits.
  abbrev filled : RingBuffer → RingBuffer
  filled r = (write_ring r world.prefill (length world.prefill)).0

  unfoldable pub start_playback : Engine → Engine × Bool
  start_playback e =
      if not (is_some e.decoder)
        || not (is_some e.ring_buffer)
        || not (is_some e.decode_thread)
        || not (is_some e.sink)
      then (e, false)
      else (
        record e {
          silent_callbacks = 0;
          decode_thread = some (record { running = true });
          ring_buffer = on_some filled e.ring_buffer;
          sink = on_some start_sink e.sink;
        },
        true,
      )

  -- `play` in a state other than `Playing`.
  unfoldable pub play_from : State → Engine → Engine
  unfolding start_playback
  play_from playing e = e
  play_from stopped e =
      let (started, ok) = start_playback e in
      if ok
      then record started { state = playing }
      else complain (codes "Failed to start playback") started
  play_from paused e = record e { sink = on_some start_sink e.sink; state = playing }

  unfoldable pub play : Engine → Engine
  unfolding play_from
  play e =
      if is_in_playing e.state
      then e
      else if not (is_some e.decoder) || not (is_some e.sink)
      then complain (codes "No file loaded") e
      else play_from e.state e
