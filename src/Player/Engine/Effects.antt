-- ===== src/Player/Engine/Effects.antt =====
-- The calls that open devices and files keep the engine's invariant.
use musi_tui.Base.{
  ◌≡◌, refl, subst, Bool, true, false, arith, inl, inr, Bool-cases, some, none, Option,
  if◌then◌else◌,
}
use musi_tui.Base.Int.{ℤ, pos, clamp, ◌≤ℤ◌}
use musi_tui.Base.Text.{Text, text_eq}
use musi_tui.Audio.Sink.{Sink, init as new_sink, open_device, start, set_volume}
use musi_tui.Audio.Sink.Opening.{IsOn, open_device-IsOn}
use musi_tui.Util.RingBuffer.{RingBuffer}
use musi_tui.Events.Bus.{Bus}
use musi_tui.Player.Engine.{
  DecodeThread, State, playing, stopped, paused, Engine, World, Decoder, is_in_playing, on_some,
}
use musi_tui.Player.Engine.Play.{play, play_from, start_playback}
use musi_tui.Player.Engine.Device.{set_output_device, probe_device, swap_device}
use musi_tui.Player.Engine.Invariant.{
  IsOnAt, HasVolume, IsValid, start-IsOnAt, start-HasVolume, set_volume-IsOnAt,
  set_volume-HasVolume,
}

pub false≠true : false ≡ true → ⊥
false≠true e = cc

-- What `IsValid` says of an engine that is stopped.
IsIdle : Engine → Type 0
IsIdle e =
    IsOnAt e.output_device_name false e.sink
    × HasVolume e.volume e.sink
    × (pos 0 ≤ℤ e.volume)
    × (e.volume ≤ℤ pos 100)

-- A stopped engine needs no more.
idle-IsValid : (e : Engine) → e.state ≡ stopped → IsIdle e → IsValid e
unfolding IsIdle
idle-IsValid e at (on, loud, low, high) = record {
  loaded = rw at refl;
  on_device = rw at on;
  same_volume = loud;
  level = (low, high);
}

-- A sink that takes over: open on its device, with the engine's volume, and started if `p` says so.
taking_over-IsOnAt :
    (p : Bool) (name : Text) (v : ℤ) (s : Sink)
    → IsOn name false s
    → IsOnAt name p (some (if p then start (set_volume v s) else set_volume v s))
unfolding IsOnAt
taking_over-IsOnAt true name v s on =
    start-IsOnAt name false (some (set_volume v s)) (set_volume-IsOnAt v name false (some s) on)
taking_over-IsOnAt false name v s on = set_volume-IsOnAt v name false (some s) on

clamp_level : (v : ℤ) → (pos 0 ≤ℤ v) × (v ≤ℤ pos 100) → clamp v (pos 0) (pos 100) ≡ v
clamp_level v level = ground arith

pub set_level-HasVolume :
    (v : ℤ) (o : Option Sink)
    → (pos 0 ≤ℤ v) × (v ≤ℤ pos 100)
    → HasVolume v (on_some (set_volume v) o)
set_level-HasVolume v o level =
    subst (λ u. HasVolume u (on_some (set_volume v) o)) (clamp_level v level)
      (set_volume-HasVolume v o)

taking_over-HasVolume :
    (p : Bool) (v : ℤ) (s : Sink)
    → (pos 0 ≤ℤ v) × (v ≤ℤ pos 100)
    → HasVolume v (some (if p then start (set_volume v s) else set_volume v s))
taking_over-HasVolume true v s level =
    start-HasVolume v (some (set_volume v s)) (set_level-HasVolume v (some s) level)
taking_over-HasVolume false v s level = set_level-HasVolume v (some s) level

-- A message more changes nothing.
pub told : {e : Engine} {bus' : Bus} → IsValid e → IsValid (record e { bus = bus' })
told v = record {
  loaded = v.loaded;
  on_device = v.on_device;
  same_volume = v.same_volume;
  level = v.level;
}

module _ (world : World) where
  -- The engine `e` with its parts put in.
  abbrev with_parts :
      State
      → Option Decoder
      → Option Sink
      → Option RingBuffer
      → Option DecodeThread
      → Engine
      → Engine
  with_parts s d o r t e = record e {
    state = s;
    decoder = d;
    sink = o;
    ring_buffer = r;
    decode_thread = t;
  }

  play_parts-IsValid :
      (s : State) (d : Option Decoder) (o : Option Sink) (r : Option RingBuffer)
      (t : Option DecodeThread) (e : Engine)
      → IsValid (with_parts s d o r t e)
      → IsValid (play world (with_parts s d o r t e))
  unfolding play play_from start_playback
  play_parts-IsValid playing d o r t e v = v
  play_parts-IsValid stopped none o r t e v = record {
    loaded = refl;
    on_device = v.on_device;
    same_volume = v.same_volume;
    level = v.level;
  }
  play_parts-IsValid stopped (some d) none r t e v = record {
    loaded = refl;
    on_device = v.on_device;
    same_volume = v.same_volume;
    level = v.level;
  }
  play_parts-IsValid stopped (some d) (some o) none t e v = record {
    loaded = refl;
    on_device = v.on_device;
    same_volume = v.same_volume;
    level = v.level;
  }
  play_parts-IsValid stopped (some d) (some o) (some r) none e v = record {
    loaded = refl;
    on_device = v.on_device;
    same_volume = v.same_volume;
    level = v.level;
  }
  play_parts-IsValid stopped (some d) (some o) (some r) (some t) e v = record {
    loaded = refl;
    on_device = start-IsOnAt e.output_device_name false (some o) v.on_device;
    same_volume = start-HasVolume e.volume (some o) v.same_volume;
    level = v.level;
  }
  play_parts-IsValid paused (some d) (some o) (some r) (some t) e v = record {
    loaded = refl;
    on_device = start-IsOnAt e.output_device_name false (some o) v.on_device;
    same_volume = start-HasVolume e.volume (some o) v.same_volume;
    level = v.level;
  }
  play_parts-IsValid paused none o r t e v = absurd (false≠true v.loaded)
  play_parts-IsValid paused (some d) o none t e v = absurd (false≠true v.loaded)
  play_parts-IsValid paused (some d) o (some r) none e v = absurd (false≠true v.loaded)
  play_parts-IsValid paused (some d) none (some r) (some t) e v = absurd (false≠true v.loaded)

  pub play-IsValid : {e : Engine} → IsValid e → IsValid (play world e)
  play-IsValid {e} v = play_parts-IsValid e.state e.decoder e.sink e.ring_buffer e.decode_thread e v

  swap_device-IsValid :
      (name : Text) (e : Engine) (old : Sink)
      → IsValid (record e { sink = some old })
      → IsValid (swap_device world name (record e { sink = some old }) old).0
  unfolding swap_device
  swap_device-IsValid name e old v = elim (Bool-cases (world.sink_factory)) [
    | inl made ↦ elim (Bool-cases (open_device world.sdl e.format name new_sink e.bus).2) [
      | inl ok ↦
          rw (made, ok, swap_device)
            (record {
              loaded = v.loaded;
              on_device =
                  taking_over-IsOnAt (is_in_playing e.state) name e.volume _
                    (open_device-IsOn world.sdl e.format name new_sink e.bus ok);
              same_volume = taking_over-HasVolume (is_in_playing e.state) e.volume _ v.level;
              level = v.level;
            })
      | inr refused ↦ rw (made, refused, swap_device) (told v)
    ]
    | inr unmade ↦ rw (unmade, swap_device) (told v)
  ]

  probe_device-IsValid :
      (name : Text) (e : Engine)
      → IsValid (record e { sink = none })
      → IsValid (probe_device world name (record e { sink = none })).0
  unfolding probe_device IsOnAt HasVolume
  probe_device-IsValid name e v = ground (arith, v)

  set_output_sink-IsValid :
      (name : Text) (o : Option Sink) (e : Engine)
      → IsValid (record e { sink = o })
      → IsValid (set_output_device world name (record e { sink = o })).0
  unfolding set_output_device
  set_output_sink-IsValid name none e v = elim (Bool-cases (text_eq name e.output_device_name)) [
    | inl same ↦ rw (same, set_output_device) v
    | inr other ↦ rw (other, set_output_device) (probe_device-IsValid name e v)
  ]
  set_output_sink-IsValid name (some old) e v =
      elim (Bool-cases (text_eq name e.output_device_name)) [
        | inl same ↦ rw (same, set_output_device) v
        | inr other ↦ rw (other, set_output_device) (swap_device-IsValid name e old v)
      ]

  pub set_output_device-IsValid :
      (name : Text) {e : Engine} → IsValid e → IsValid (set_output_device world name e).0
  set_output_device-IsValid name {e} v = set_output_sink-IsValid name e.sink e v
