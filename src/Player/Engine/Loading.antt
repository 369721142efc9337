-- ===== src/Player/Engine/Loading.antt =====
-- `load` keeps the engine's invariant, whatever files and devices open.
use musi_tui.Base.{
  ◌≡◌, refl, ◌∙◌, sym, subst, Bool, true, false, inl, inr, Bool-cases, Option-cases, some, none,
  Option, is_empty, [],
}
use musi_tui.Base.Int.{pos, ◌≤ℤ◌}
use musi_tui.Base.Text.{Text}
use musi_tui.Audio.Sink.{AudioFormat, Sink, init as new_sink, open_device}
use musi_tui.Audio.Sink.Opening.{IsOn, open_device-IsOn, set_source_format-IsOn}
use musi_tui.Player.Engine.{stopped, Engine, World, stop_playback}
use musi_tui.Player.Engine.Load.{
  load, load_open, prepare_sink, open_sink, open_default, retarget, finish_load, with_source,
}
use musi_tui.Player.Engine.Invariant.{
  IsOnAt, HasVolume, IsValid, set_volume-IsOnAt, stop_playback-IsValid,
}
use musi_tui.Player.Engine.Effects.{set_level-HasVolume, told, false≠true}

-- The sink stands ready for a song: open on the selected device, and not playing.
Ready : Engine → Type 0
Ready e = (s : Sink) × (e.sink ≡ some s) × IsOn e.output_device_name false s

-- A result of opening: success means a sink that is ready, and the rest is as it was.
Sound : Engine → Engine × Bool → Type 0
Sound e r = ((r.1 ≡ true) → Ready r.0) × (r.0.volume ≡ e.volume) × (r.0.state ≡ e.state)

on_some_sink : {name : Text} {s : Sink} → IsOn name false s → IsOnAt name false (some s)
unfolding IsOnAt
on_some_sink on = on

module _ (world : World) where
  open_default-Sound :
      (format : AudioFormat) (e : Engine) (s : Sink) → Sound e (open_default world format e s)
  unfolding open_default Ready Sound
  open_default-Sound format e s = elim (Bool-cases (is_empty e.output_device_name)) [
    | inl default ↦ rw (default, open_default) (λ ok. absurd (false≠true ok), refl, refl)
    | inr named ↦ elim (Bool-cases (open_device world.sdl format [] s e.bus).2) [
      | inl opens ↦
          rw (named, opens, open_default)
            (λ ok. (_, refl, open_device-IsOn world.sdl format [] s e.bus opens), refl, refl)
      | inr fails ↦ rw (named, fails, open_default) (λ ok. absurd (false≠true ok), refl, refl)
    ]
  ]

  open_sink-Sound : (format : AudioFormat) (e : Engine) → Sound e (open_sink world format e)
  unfolding open_sink Ready Sound
  open_sink-Sound format e = elim (Bool-cases world.sink_factory) [
    | inr unmade ↦ rw (unmade, open_sink) (λ ok. absurd (false≠true ok), refl, refl)
    | inl made ↦
        let attempt = open_device world.sdl format e.output_device_name new_sink e.bus in
        elim (Bool-cases attempt.2) [
          | inl opens ↦
              rw (made, opens, open_sink)
                (
                  λ ok. (
                    _,
                    refl,
                    open_device-IsOn world.sdl format e.output_device_name new_sink e.bus opens,
                  ),
                  refl,
                  refl,
                )
          | inr fails ↦
              rw (made, fails, open_sink)
                (open_default-Sound format (record e { sink = some attempt.0; bus = attempt.1 })
                  attempt.0)
        ]
  ]

  -- A sink that is open, on the selected device and silent, before it is told of the new source.
  retarget-Sound :
      (format : AudioFormat) (e : Engine) (o : Option Sink)
      → IsOnAt e.output_device_name false o
      → Sound e (retarget world format e o)
  unfolding retarget Ready Sound IsOnAt
  retarget-Sound format e none on = (λ ok. absurd (false≠true ok), refl, refl)
  retarget-Sound format e (some s) on =
      simp (on.opened)
        (λ ok. (_, refl, set_source_format-IsOn world.sdl format s e.bus on), refl, refl)

  -- Either there is a sink that is ready, or none.
  Prepared : Engine → Engine × Bool → Type 0
  Prepared e r = Sound e r × ((r.1 ≡ false) → r.0.sink ≡ none)

  prepare_sink-Prepared :
      (format : AudioFormat) (e : Engine)
      → IsOnAt e.output_device_name false e.sink
      → Prepared e (prepare_sink world format e)
  unfolding prepare_sink Prepared Sound
  prepare_sink-Prepared format e on =
      let reused = retarget world format e e.sink in
      let opened = open_sink world format reused.0 in
      let kept = retarget-Sound format e e.sink on in
      let fresh = open_sink-Sound format reused.0 in
      elim (Bool-cases reused.1) [
        | inl fits ↦
            rw (fits, prepare_sink)
              ((λ ok. kept.0 fits, kept.1, kept.2), λ bad. absurd (false≠true (sym bad)))
        | inr refuses ↦ elim (Bool-cases opened.1) [
          | inl ok ↦
              rw (refuses, ok, prepare_sink)
                (
                  (λ t. fresh.0 ok, fresh.1 ∙ kept.1, fresh.2 ∙ kept.2),
                  λ bad. absurd (false≠true (sym bad)),
                )
          | inr bad ↦
              rw (refuses, bad, prepare_sink)
                ((λ t. absurd (false≠true t), fresh.1 ∙ kept.1, fresh.2 ∙ kept.2), λ t. refl)
        ]
      ]

  finish_load-IsValid :
      (e : Engine) (r : Engine × Bool)
      → e.state ≡ stopped
      → (pos 0 ≤ℤ e.volume) × (e.volume ≤ℤ pos 100)
      → Prepared e r
      → IsValid (finish_load world r).0
  unfolding finish_load Prepared Sound Ready IsOnAt HasVolume
  finish_load-IsValid e (prepared, true) at level ((ready, loud, still), missing) =
      let (s, found, on) = ready refl in
      record {
        loaded = refl;
        on_device =
            set_volume-IsOnAt prepared.volume prepared.output_device_name false prepared.sink
              (subst (IsOnAt prepared.output_device_name false) (sym found) (on_some_sink on));
        same_volume = set_level-HasVolume prepared.volume prepared.sink (rw loud level);
        level = rw loud level;
      }
  finish_load-IsValid e (prepared, false) at level ((ready, loud, still), missing) = record {
    loaded = rw (still ∙ at) refl;
    on_device = rw (missing refl) tt;
    same_volume = rw (missing refl) tt;
    level = rw loud level;
  }

  -- A stopped engine's sink is silent.
  silent : (e : Engine) → IsValid e → IsOnAt e.output_device_name false (stop_playback e).sink
  unfolding stop_playback
  silent e v = (stop_playback-IsValid v).on_device

  -- Whatever files and devices open, `load` keeps the invariant.
  pub load-IsValid : (file : Text) {e : Engine} → IsValid e → IsValid (load world file e).0
  unfolding load stop_playback with_source
  load-IsValid file {e} v = elim (Bool-cases (world.decoder_factory file)) [
    | inr unknown ↦ rw (unknown, load) (told (stop_playback-IsValid v))
    | inl known ↦ elim (Option-cases (world.decoder_open file)) [
      | inl closed ↦ rw (known, closed, load) (told (stop_playback-IsValid v))
      | inr (d, opens) ↦
          rw (known, opens, load)
            (unfold load_open in
              finish_load-IsValid (with_source world file d (stop_playback e)) _ refl v.level
                (prepare_sink-Prepared d.format _ (silent e v)))
    ]
  ]
