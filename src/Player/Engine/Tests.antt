-- ===== src/Player/Engine/Tests.antt =====
-- The engine over devices that open and devices that do not.
use musi_tui.Base.{◌≡◌, refl, true, false, [], ◌∷◌, none, some}
use musi_tui.Base.Int.{pos}
use musi_tui.Base.Text.{codes, text_eq}
use musi_tui.Audio.Sink.{Sdl}
use musi_tui.Player.Engine.{Engine, World, init, set_volume}
use musi_tui.Player.Engine.Load.{load}
use musi_tui.Player.Engine.Play.{play}
use musi_tui.Player.Engine.Device.{set_output_device}
use musi_tui.Player.Engine.Invariant.{IsValid}
use musi_tui.Player.Engine.Attained.{
  constructed, loaded, played, turned, switched, Attained-IsValid, set_output_device-refused,
}

-- A device that runs at 48 kHz, and resamples; the headset is gone.
abbrev sdl : Sdl
sdl = record {
  audio_ok = true;
  open_audio_device = λ f name. elim (text_eq name (codes "Headset")) [
    | true ↦ none
    | false ↦ some (record {
      format = record { sample_rate = 48000; channels = 2 };
      is_s16 = true;
      size = 8192;
    })
  ];
  new_audio_stream = λ a b. true;
  get_error = codes "No such device";
}

abbrev world : World
world = record {
  decoder_factory = λ p. true;
  decoder_open = λ p.
      some (record { format = record { sample_rate = 44100; channels = 2 }; total_samples = 100 });
  sink_factory = true;
  sdl = sdl;
  filename = λ p. p;
  prefill = 1 ∷ 2 ∷ [];
}

abbrev song : Engine
song = play world (load world (codes "a.mp3") init).0

Attained-IsValid_example :
    IsValid (set_output_device world (codes "Headset") (set_volume (pos 130) song)).0
Attained-IsValid_example = Attained-IsValid (
    switched world (codes "Headset")
      (turned (pos 130) (played world (loaded world (codes "a.mp3") constructed))))

set_output_device-refused_example :
    ((set_output_device world (codes "Headset") init).1 ≡ false)
    × (record (set_output_device world (codes "Headset") init).0 { bus = [] } ≡ init)
unfolding init
set_output_device-refused_example =
    set_output_device-refused world (codes "Headset") (λ f. refl) init refl
