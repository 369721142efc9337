-- ===== src/Decode/Drive.antt =====
-- Any sequence of calls on a decoder that the factory made.
use musi_tui.Base.{ℕ, ◌*◌, ◌≤◌, ◌≡◌, refl, true, List, [], ◌∷◌, Option, none, some, arith, All}
use native.Mathlib.Nat.{mul-le-mul, le_refl}
use musi_tui.Base.Int.{pos_part}
use musi_tui.Base.Text.{Text}
use musi_tui.Decode.{AudioDecoder, IsOrderly, IsSound, Decodes}
use musi_tui.Decode.Factory.{Vendors, VendorsRead, create, create-IsSound}

-- `decoding size frames` asks for `frames` frames, with room for `size` samples.
pub data Call : Type 0 where
  opening : Text → Call
  closing : Call
  decoding : ℕ → ℕ → Call

-- The buffer has room for the frames, in up to two channels.
abbrev pub HasRoom : Call → Type 0
HasRoom (opening path) = Unit
HasRoom closing = Unit
HasRoom (decoding size frames) = frames * 2 ≤ size

module _ (a : AudioDecoder) where
  abbrev after_decoding : Option (a.State × ℕ × List ℕ) → Option a.State
  after_decoding none = none
  after_decoding (some (t, frames, samples)) = some t

  abbrev pub call : Call → a.State → Option a.State
  call (opening path) s = some (a.open_file path s).0
  call closing s = some (a.close s)
  call (decoding size frames) s = after_decoding (a.decode_frames size frames s)

  -- `none` if an assertion fails.
  pub run : List Call → a.State → Option a.State
  run [] s = some s
  run (c ∷ cs) s = elim (call c s) [ none ↦ none | some t ↦ run cs t ]

  module _ (sound : IsSound a) where
    room :
        (frames size : ℕ) (s : a.State)
        → sound.Holds s
        → frames * 2 ≤ size
        → a.is_open s ≡ true
        → frames * pos_part (a.channels s) ≤ size
    room frames size s holds wide is_open =
        let stereo : pos_part (a.channels s) ≤ 2 =
          ground (arith, (sound.orderly s holds).layout is_open) in
        omega (arith, mul-le-mul (le_refl frames) stereo)

    call-Holds :
        (c : Call) (s : a.State)
        → sound.Holds s
        → HasRoom c
        → (t : a.State) × (call c s ≡ some t) × sound.Holds t
    call-Holds (opening path) s holds fits =
        ((a.open_file path s).0, refl, sound.opens path s holds)
    call-Holds closing s holds fits = (a.close s, refl, sound.closes s holds)
    call-Holds (decoding size frames) s holds fits =
        ends (a.decode_frames size frames s)
          (sound.decodes size frames s holds (room frames size s holds fits))
      where
        ends :
            (o : Option (a.State × ℕ × List ℕ))
            → Decodes a sound.Holds size frames s o
            → (t : a.State) × (after_decoding o ≡ some t) × sound.Holds t
        ends none well = absurd well
        ends (some (t, n, samples)) well = (t, refl, well.0)

    run-Holds :
        (cs : List Call) (s : a.State)
        → sound.Holds s
        → All HasRoom cs
        → (t : a.State) × (run cs s ≡ some t) × sound.Holds t
    unfolding run
    run-Holds [] s holds fits = (s, refl, holds)
    run-Holds (c ∷ cs) s holds (fit, fits) =
        let (t, called, held) = call-Holds c s holds fit in
        let (u, ran, kept) = run-Holds cs t held fits in (u, rw (run, called) ran, kept)

-- The decoder that the factory makes for a path, driven by any calls that leave room for two
-- channels: no assertion fails; it is open with a positive rate and one or two channels, or closed;
-- one file of the vendored decoder is open if it is, and none otherwise; and with the destructor
-- every file that was opened has been closed, once.
pub run-IsOrderly :
    (v : Vendors) (path : Text) {a : AudioDecoder} (cs : List Call)
    → VendorsRead v
    → create v path ≡ some a
    → All HasRoom cs
    → (t : a.State) × (run a cs a.init ≡ some t)
      × IsOrderly a t
      × (a.acquired (a.destroy t) ≡ a.released (a.destroy t))
run-IsOrderly v path {a} cs reads made fits =
    let sound = create-IsSound v path reads made in
    let (t, ran, held) = run-Holds a sound cs a.init sound.starts fits in
    (t, ran, sound.orderly t held, sound.frees t held)
