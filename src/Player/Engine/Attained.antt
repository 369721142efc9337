-- ===== src/Player/Engine/Attained.antt =====
-- The engines that calls on a new one lead to, and what a refused device leaves.
use musi_tui.Base.{ℕ, ◌≡◌, refl, false, inl, inr, Bool-cases, some, none, Option, arith}
use musi_tui.Base.Int.{ℤ}
use musi_tui.Base.Text.{Text, text_eq}
use musi_tui.Events.Bus.{Bus}
use musi_tui.Audio.Sink.{AudioFormat, Sink, init as new_sink, open_device}
use musi_tui.Player.Engine.{Engine, World, init, pause, stop_playback, set_volume, provide}
use musi_tui.Player.Engine.Load.{load}
use musi_tui.Player.Engine.Play.{play}
use musi_tui.Player.Engine.Device.{set_output_device, probe_device, swap_device, probe_format}
use musi_tui.Player.Engine.Invariant.{
  IsValid, init-IsValid, pause-IsValid, stop_playback-IsValid, set_volume-IsValid, provide-IsValid,
}
use musi_tui.Player.Engine.Effects.{play-IsValid, set_output_device-IsValid}
use musi_tui.Player.Engine.Loading.{load-IsValid}

-- Each call in a world of its own: devices and files come and go between calls.
pub data Attained : Engine → Type 0 where
  constructed : Attained init
  loaded : {e : Engine} (w : World) (file : Text) → Attained e → Attained (load w file e).0
  played : {e : Engine} (w : World) → Attained e → Attained (play w e)
  halted : {e : Engine} → Attained e → Attained (pause e)
  ended : {e : Engine} → Attained e → Attained (stop_playback e)
  turned : {e : Engine} (percent : ℤ) → Attained e → Attained (set_volume percent e)
  pulled : {e : Engine} (frames : ℕ) → Attained e → Attained (provide frames e).0
  switched :
      {e : Engine} (w : World) (name : Text) → Attained e → Attained (set_output_device w name e).0

-- Whatever calls are made on a new engine, whatever files and devices open in each of them: it is
-- stopped, or decoder, ring buffer, decode thread and sink are all there; the sink, if any, is open
-- on the selected device, has the engine's volume, which is 0 to 100, and runs exactly while the
-- engine is playing.
pub Attained-IsValid : {e : Engine} → Attained e → IsValid e
Attained-IsValid constructed = init-IsValid
Attained-IsValid (loaded w file r) = load-IsValid w file (Attained-IsValid r)
Attained-IsValid (played w r) = play-IsValid w (Attained-IsValid r)
Attained-IsValid (halted r) = pause-IsValid (Attained-IsValid r)
Attained-IsValid (ended r) = stop_playback-IsValid (Attained-IsValid r)
Attained-IsValid (turned p r) = set_volume-IsValid p (Attained-IsValid r)
Attained-IsValid (pulled n r) = provide-IsValid n (Attained-IsValid r)
Attained-IsValid (switched w name r) = set_output_device-IsValid w name (Attained-IsValid r)

module _ (world : World) (name : Text)
    (gone : (f : AudioFormat) → world.sdl.open_audio_device f name ≡ none) where
  -- SDL opens no device of that name, whatever else fails before.
  open_device-gone :
      (f : AudioFormat) (s : Sink) (bus : Bus) → (open_device world.sdl f name s bus).2 ≡ false
  unfolding open_device
  open_device-gone f s bus = rw (gone f, open_device) (ground arith)

  refused_at :
      (o : Option Sink) (e : Engine)
      → text_eq name e.output_device_name ≡ false
      → let r = set_output_device world name (record e { sink = o }) in
        (r.1 ≡ false) × (record r.0 { bus = e.bus } ≡ record e { sink = o })
  unfolding set_output_device probe_device swap_device
  refused_at none e other = elim (Bool-cases world.sink_factory) [
    | inr unmade ↦ rw (other, unmade, set_output_device) (refl, refl)
    | inl made ↦
        rw (other, made, open_device-gone (probe_format e.format) new_sink e.bus, set_output_device)
          (refl, refl)
  ]
  refused_at (some old) e other = elim (Bool-cases world.sink_factory) [
    | inr unmade ↦ rw (other, unmade, set_output_device) (refl, refl)
    | inl made ↦
        rw (other, made, open_device-gone e.format new_sink e.bus, set_output_device) (refl, refl)
  ]

  -- Another device than the selected one, which SDL does not open in any format: it is refused, and
  -- the engine is left as it was, but for what it told the user: the sink, the ring buffer, the
  -- selected device and the state of playback.
  pub set_output_device-refused :
      (e : Engine)
      → text_eq name e.output_device_name ≡ false
      → ((set_output_device world name e).1 ≡ false)
        × (record (set_output_device world name e).0 { bus = e.bus } ≡ e)
  set_output_device-refused e other = refused_at e.sink e other
