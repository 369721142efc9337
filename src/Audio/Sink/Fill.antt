-- ===== src/Audio/Sink/Fill.antt =====
-- `fill` of src/audio/SdlAudioSink.cpp, the audio callback. What the provider gives, call after call,
-- is a list of bytes for each; when it has run out, the calls give no frames. SDL's stream and its
-- mixing are a parameter.
use musi_tui.Base.{
  ℕ, ◌-◌, ◌*◌, ◌/◌, true, false, List, [], ◌∷◌, ◌++◌, Option, none, some, leb, if◌then◌else◌,
  length, is_empty,
}
use musi_tui.Base.Int.{ℤ, pos, ltb_ℤ, pos_part}
use musi_tui.Base.Tabulate.{tabulate}
use musi_tui.Audio.Sink.{Sink}

-- `SDL_AudioStream`: the bytes that it has ready, a put, which may fail, and a get of at most so many
-- bytes, where a failure is no bytes. `mix` is `SDL_MixAudioFormat` onto silence, by its volume.
pub record AudioStream : Type 1 where
  pub State : Type 0
  pub available : State → ℕ
  pub put : State → List ℕ → Option State
  pub get : State → ℕ → State × List ℕ
  pub mix : ℕ → List ℕ → List ℕ

abbrev pub sdl_mix_maxvolume : ℕ
sdl_mix_maxvolume = 128

abbrev pub silence : ℕ → List ℕ
silence n = tabulate n (λ i. 0)

-- The tail of the buffer is cleared.
abbrev pub pad : ℕ → List ℕ → List ℕ
pad len out = out ++ silence (len - length out)

-- The provider's next call, and what is left of it.
abbrev pub next_call : List (List ℕ) → List ℕ × List (List ℕ)
next_call [] = ([], [])
next_call (c ∷ cs) = (c, cs)

module _ (sdl : AudioStream) where
  -- The loop that fills the converter: its state, and what is left of the provider.
  unfoldable pub pull : ℕ → List (List ℕ) → sdl.State → sdl.State × List (List ℕ)
  pull len [] s = (s, [])
  pull len (c ∷ cs) s = elim (leb len (sdl.available s)) [
    | true ↦ (s, c ∷ cs)
    | false ↦ elim (is_empty c) [
      | true ↦ (s, cs)
      | false ↦ elim (sdl.put s c) [ none ↦ (s, cs) | some t ↦ pull len cs t ]
    ]
  ]

  -- The volume in SDL's range.
  unfoldable pub sdl_volume : ℤ → ℕ
  sdl_volume volume = pos_part volume * sdl_mix_maxvolume / 100

  unfoldable pub scale : ℤ → List ℕ → List ℕ
  unfolding sdl_volume
  scale volume out = if ltb_ℤ volume (pos 100) then sdl.mix (sdl_volume volume) out else out

  abbrev fill_converted : Sink → ℕ → sdl.State × List (List ℕ) → List ℕ × sdl.State × List (List ℕ)
  fill_converted sink len (t, rest) =
      let (u, got) = sdl.get t len in (scale sink.volume (pad len got), u, rest)

  -- The provider writes into the buffer of the device.
  abbrev fill_direct :
      Sink → ℕ → sdl.State → List ℕ × List (List ℕ) → List ℕ × sdl.State × List (List ℕ)
  fill_direct sink len s (out, rest) = (scale sink.volume (pad len out), s, rest)

  -- The buffer that is played, the converter, and what is left of the provider.
  unfoldable pub fill : Sink → ℕ → List (List ℕ) → sdl.State → List ℕ × sdl.State × List (List ℕ)
  unfolding pull scale
  fill sink len calls s =
      if sink.converter
      then fill_converted sink len (pull len calls s)
      else fill_direct sink len s (next_call calls)

  -- The buffers that callbacks of these lengths play, the converter after them, and what is left of
  -- the provider.
  unfoldable pub callbacks :
      Sink → List ℕ → List (List ℕ) → sdl.State → List (List ℕ) × sdl.State × List (List ℕ)
  callbacks sink [] calls s = ([], s, calls)
  callbacks sink (len ∷ lens) calls s =
      let (out, t, rest) = fill sink len calls s in
      let (outs, u, left) = callbacks sink lens rest t in (out ∷ outs, u, left)
