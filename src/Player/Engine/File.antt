-- ===== src/Player/Engine/File.antt =====
-- Which file is loaded, and whether the engine is stopped, after every call.
use musi_tui.Base.{
  ◌≡◌, refl, ◌∙◌, sym, ap, Bool, true, false, arith, inl, inr, Bool-cases, Option-cases, some, none,
  Option,
}
use musi_tui.Base.Text.{Text}
use musi_tui.Audio.Sink.{AudioFormat, Sink, open_device, init as new_sink}
use musi_tui.Player.Engine.{Decoder, State, playing, stopped, paused, Engine, World, stop_playback}
use musi_tui.Player.Engine.Invariant.{is_in_stopped}
use musi_tui.Player.Engine.Load.{
  load, load_open, prepare_sink, open_sink, open_default, retarget, finish_load, with_source,
}
use musi_tui.Player.Engine.Play.{play, play_from, start_playback}
use musi_tui.Player.Engine.Device.{set_output_device, probe_device, swap_device}

-- The file and the state are those of the other engine.
abbrev pub Same : Engine → Engine → Type 0
Same d e = (d.current_file ≡ e.current_file) × (d.state ≡ e.state)

false≠true : false ≡ true → ⊥
false≠true e = cc

module _ (world : World) where
  open_default-Same :
      (format : AudioFormat) (e : Engine) (s : Sink) → Same (open_default world format e s).0 e
  unfolding open_default
  open_default-Same format e s = ground arith

  open_sink-Same : (format : AudioFormat) (e : Engine) → Same (open_sink world format e).0 e
  unfolding open_sink
  open_sink-Same format e =
      let (s, bus, ok) = open_device world.sdl format e.output_device_name new_sink e.bus in
      ground (arith, open_default-Same format (record e { sink = some s; bus = bus }) s)

  retarget-Same :
      (format : AudioFormat) (e : Engine) (o : Option Sink) → Same (retarget world format e o).0 e
  unfolding retarget
  retarget-Same format e none = (refl, refl)
  retarget-Same format e (some s) = ground arith

  prepare_sink-Same : (format : AudioFormat) (e : Engine) → Same (prepare_sink world format e).0 e
  unfolding prepare_sink
  prepare_sink-Same format e =
      let reused = (retarget world format e e.sink).0 in
      ground (arith, retarget-Same format e e.sink, open_sink-Same format reused)

  play_from-file : (s : State) (e : Engine) → (play_from world s e).current_file ≡ e.current_file
  unfolding play_from start_playback
  play_from-file playing e = refl
  play_from-file stopped e = ground arith
  play_from-file paused e = refl

  pub play-file : (e : Engine) → (play world e).current_file ≡ e.current_file
  unfolding play
  play-file e = ground (arith, play_from-file e.state e)

  set_output_device-at :
      (name : Text) (o : Option Sink) (e : Engine)
      → Same (set_output_device world name (record e { sink = o })).0 e
  unfolding set_output_device probe_device swap_device
  set_output_device-at name none e = ground arith
  set_output_device-at name (some s) e = ground arith

  pub set_output_device-Same :
      (name : Text) (e : Engine) → Same (set_output_device world name e).0 e
  set_output_device-Same name e = set_output_device-at name e.sink e

  -- A load that succeeds has loaded the file, and one that fails leaves the engine stopped.
  abbrev pub Loaded : Text → Engine × Bool → Type 0
  Loaded file r =
      (r.1 ≡ true → r.0.current_file ≡ file) × (r.1 ≡ false → is_in_stopped r.0.state ≡ true)

  finish_load-Loaded :
      (file : Text) (e : Engine) (r : Engine × Bool)
      → e.current_file ≡ file
      → is_in_stopped e.state ≡ true
      → Same r.0 e
      → Loaded file (finish_load world r)
  unfolding finish_load
  finish_load-Loaded file e (prepared, true) at idle (same_file, same_state) =
      (λ ok. same_file ∙ at, λ bad. absurd (false≠true (sym bad)))
  finish_load-Loaded file e (prepared, false) at idle (same_file, same_state) =
      (λ ok. absurd (false≠true ok), λ bad. ap is_in_stopped same_state ∙ idle)

  load_open-Loaded :
      (file : Text) (d : Decoder) (e : Engine)
      → is_in_stopped e.state ≡ true
      → Loaded file (load_open world file d e)
  unfolding load_open with_source
  load_open-Loaded file d e idle =
      let opened = with_source world file d e in
      finish_load-Loaded file opened (prepare_sink world d.format opened) refl idle
        (prepare_sink-Same d.format opened)

  pub load-Loaded : (file : Text) (e : Engine) → Loaded file (load world file e)
  unfolding load stop_playback
  load-Loaded file e = elim (Bool-cases (world.decoder_factory file)) [
    | inr unsupported ↦ rw (unsupported, load) (λ ok. absurd (false≠true ok), λ bad. refl)
    | inl supported ↦ elim (Option-cases (world.decoder_open file)) [
      | inl fails ↦ rw (supported, fails, load) (λ ok. absurd (false≠true ok), λ bad. refl)
      | inr (d, opens) ↦
          rw (supported, opens, load) (load_open-Loaded file d (stop_playback e) refl)
    ]
  ]
