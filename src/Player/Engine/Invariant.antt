-- ===== src/Player/Engine/Invariant.antt =====
-- The state of the engine and of what it owns, after every call.
use musi_tui.Base.{
  ℕ, suc, ◌+◌, ◌*◌, ◌/◌, ◌==◌, length, ◌≡◌, ◌⊎◌, refl, Bool, true, false, ◌&&◌, ◌||◌, arith, inl,
  inr, Bool-cases, Option-cases, is_some, some, none, Option,
}
use musi_tui.Base.Int.{ℤ, pos, clamp, ◌≤ℤ◌}
use musi_tui.Base.Text.{Text}
use musi_tui.Audio.Sink.{Sink, stop, start, set_volume}
use musi_tui.Audio.Sink.Opening.{IsOn}
use musi_tui.Util.RingBuffer.{RingBuffer, read}
use musi_tui.Player.Engine.{
  State, playing, stopped, paused, Engine, is_in_playing, stop_playback, pause, provide, on_some,
  init as new_engine, set_volume as set_engine_volume,
}

-- The sink, if there is one.
unfoldable pub IsOnAt : Text → Bool → Option Sink → Type 0
IsOnAt name running none = Unit
IsOnAt name running (some s) = IsOn name running s

unfoldable pub HasVolume : ℤ → Option Sink → Type 0
HasVolume v none = Unit
HasVolume v (some s) = s.volume ≡ v

abbrev pub is_in_stopped : State → Bool
is_in_stopped stopped = true
is_in_stopped playing = false
is_in_stopped paused = false

abbrev pub is_loaded : Engine → Bool
is_loaded e =
    is_some e.decoder && is_some e.ring_buffer && is_some e.decode_thread && is_some e.sink

pub record IsValid (e : Engine) : Type 0 where
  pub loaded : (is_in_stopped e.state || is_loaded e) ≡ true
  pub on_device : IsOnAt e.output_device_name (is_in_playing e.state) e.sink
  pub same_volume : HasVolume e.volume e.sink
  pub level : (pos 0 ≤ℤ e.volume) × (e.volume ≤ℤ pos 100)

pub init-IsValid : IsValid new_engine
unfolding new_engine IsOnAt HasVolume
init-IsValid = record {
  loaded = refl;
  on_device = tt;
  same_volume = tt;
  level = (omega arith, omega arith);
}

-- Without its sink's part, which a case on the sink adds.
pub stop-IsOnAt :
    (name : Text) (running : Bool) (o : Option Sink)
    → IsOnAt name running o
    → IsOnAt name false (on_some stop o)
unfolding IsOnAt stop
stop-IsOnAt name running none on = tt
stop-IsOnAt name running (some s) on = ground arith

pub start-IsOnAt :
    (name : Text) (running : Bool) (o : Option Sink)
    → IsOnAt name running o
    → IsOnAt name true (on_some start o)
unfolding IsOnAt start
start-IsOnAt name running none on = tt
start-IsOnAt name running (some s) on = ground arith

pub stop-HasVolume : (v : ℤ) (o : Option Sink) → HasVolume v o → HasVolume v (on_some stop o)
unfolding HasVolume stop
stop-HasVolume v none h = tt
stop-HasVolume v (some s) h = ground arith

pub start-HasVolume : (v : ℤ) (o : Option Sink) → HasVolume v o → HasVolume v (on_some start o)
unfolding HasVolume start
start-HasVolume v none h = tt
start-HasVolume v (some s) h = ground arith

pub set_volume-IsOnAt :
    (v : ℤ) (name : Text) (running : Bool) (o : Option Sink)
    → IsOnAt name running o
    → IsOnAt name running (on_some (set_volume v) o)
unfolding IsOnAt set_volume
set_volume-IsOnAt v name running none on = tt
set_volume-IsOnAt v name running (some s) on = ground arith

pub set_volume-HasVolume :
    (v : ℤ) (o : Option Sink) → HasVolume (clamp v (pos 0) (pos 100)) (on_some (set_volume v) o)
unfolding HasVolume set_volume
set_volume-HasVolume v none = tt
set_volume-HasVolume v (some s) = refl

pub stop_playback-IsValid : {e : Engine} → IsValid e → IsValid (stop_playback e)
unfolding stop_playback
stop_playback-IsValid {e} v = record {
  loaded = refl;
  on_device = stop-IsOnAt e.output_device_name (is_in_playing e.state) e.sink v.on_device;
  same_volume = stop-HasVolume e.volume e.sink v.same_volume;
  level = v.level;
}

pub is_some-on_some : {A : Type 0} (f : A → A) (o : Option A) → is_some (on_some f o) ≡ is_some o
is_some-on_some f none = refl
is_some-on_some f (some a) = refl

pub set_volume-IsValid :
    (percent : ℤ) {e : Engine} → IsValid e → IsValid (set_engine_volume percent e)
unfolding set_engine_volume
set_volume-IsValid percent {e} v = record {
  loaded = rw (is_some-on_some (set_volume percent) e.sink) v.loaded;
  on_device =
      set_volume-IsOnAt percent e.output_device_name (is_in_playing e.state) e.sink v.on_device;
  same_volume = set_volume-HasVolume percent e.sink;
  level = ground arith;
}

pub State-cases : (s : State) → (s ≡ stopped) ⊎ ((s ≡ playing) ⊎ (s ≡ paused))
State-cases stopped = inl refl
State-cases playing = inr (inl refl)
State-cases paused = inr (inr refl)

pub pause-IsValid : {e : Engine} → IsValid e → IsValid (pause e)
unfolding pause
pause-IsValid {e} v = elim (State-cases e.state) [
  | inl at ↦ rw (at, pause) v
  | inr (inl at) ↦
      rw (at, pause)
        (record {
          loaded = rw (is_some-on_some stop e.sink) (rw at at v.loaded);
          on_device = stop-IsOnAt e.output_device_name (is_in_playing e.state) e.sink v.on_device;
          same_volume = stop-HasVolume e.volume e.sink v.same_volume;
          level = v.level;
        })
  | inr (inr at) ↦ rw (at, pause) v
]

-- The counters are free, and so is what the ring buffer holds.
counted-IsValid :
    {e : Engine} (r : RingBuffer) (silent played : ℕ)
    → e.ring_buffer ≡ some r
    → IsValid e
    → (r' : RingBuffer)
    → IsValid
        (record e { ring_buffer = some r'; silent_callbacks = silent; samples_played = played })
counted-IsValid {e} r silent played at v r' = record {
  loaded = rw at at v.loaded;
  on_device = v.on_device;
  same_volume = v.same_volume;
  level = v.level;
}

pub provide-IsValid : (frames : ℕ) {e : Engine} → IsValid e → IsValid (provide frames e).0
unfolding provide
provide-IsValid frames {e} v = elim (Option-cases e.ring_buffer) [
  | inl at ↦
      rw (at, provide)
        (record {
          loaded = v.loaded;
          on_device = v.on_device;
          same_volume = v.same_volume;
          level = v.level;
        })
  | inr (r, at) ↦
      let (r', samples) = read r (frames * e.format.channels) in
      elim (Bool-cases (length samples / e.format.channels == 0)) [
        | inl silent ↦
            rw (at, silent, provide)
              (counted-IsValid r (suc e.silent_callbacks) e.samples_played at v r')
        | inr heard ↦
            rw (at, heard, provide)
              (counted-IsValid r 0 (e.samples_played + length samples) at v r')
      ]
]
