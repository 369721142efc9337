-- ===== src/Audio/Sink/Opening.antt =====
-- What opening a device and pointing it at a new source leave of a sink.
use musi_tui.Base.{◌≡◌, Bool, true, false, arith, inl, inr, Option-cases}
use musi_tui.Base.Text.{Text}
use musi_tui.Events.Bus.{Bus}
use musi_tui.Audio.Sink.{
  AudioFormat, Sdl, Sink, open_device, set_source_format, rebuild_converter, close,
}

-- The sink stands open on the device `name`, and plays or not, as `running` says.
pub record IsOn (name : Text) (running : Bool) (s : Sink) : Type 0 where
  pub opened : s.is_open ≡ true
  pub named : s.device ≡ name
  pub plays : s.running ≡ running

-- An open device is the one asked for, and does not play yet.
pub open_device-IsOn :
    (sdl : Sdl) (format : AudioFormat) (name : Text) (s : Sink) (bus : Bus)
    → (open_device sdl format name s bus).2 ≡ true
    → IsOn name false (open_device sdl format name s bus).0
unfolding open_device rebuild_converter close
open_device-IsOn sdl format name s bus ok =
    elim (Option-cases (sdl.open_audio_device format name)) [
      | inl e ↦ ground (arith, e)
      | inr (got, e) ↦ ground (arith, e)
    ]

-- A new source changes neither the device nor whether it plays.
pub set_source_format-IsOn :
    (sdl : Sdl) (format : AudioFormat) {name : Text} {running : Bool} (s : Sink) (bus : Bus)
    → IsOn name running s
    → IsOn name running (set_source_format sdl format s bus).0
unfolding set_source_format rebuild_converter
set_source_format-IsOn sdl format s bus on = ground arith

pub set_source_format-volume :
    (sdl : Sdl) (format : AudioFormat) (s : Sink) (bus : Bus)
    → (set_source_format sdl format s bus).0.volume ≡ s.volume
unfolding set_source_format rebuild_converter
set_source_format-volume sdl format s bus = ground arith
