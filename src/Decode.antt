-- ===== src/Decode.antt =====
-- src/decode: the interface `IAudioDecoder`, and what the adapters of the three vendored decoders
-- call. The vendored code is a parameter. `impl_` is never null, since nothing moves a decoder.
pub mod Wav
pub mod Flac
pub mod Mp3
pub mod Factory
pub mod Drive
pub mod PreWarm
mod Tests
use musi_tui.Base.{
  ℕ, ◌+◌, ◌*◌, ◌^◌, ◌≤◌, ◌<◌, ◌≡◌, Bool, true, false, ◌||◌, List, Option, none, some, if◌then◌else◌,
  length,
}
use musi_tui.Base.Int.{ℤ, pos, pos_part, ◌≤ℤ◌, eq_ℤ}
use musi_tui.Base.Text.{Text}

-- dr_wav and dr_flac, as far as the adapters use them: a file opens or does not; the fields of an
-- open decoder; and a read, which gives the decoder after it, the frames read and their samples.
pub record DrLib : Type 1 where
  pub Handle : Type 0
  pub open_file : Text → Option Handle
  pub sample_rate : Handle → ℕ
  pub channels : Handle → ℕ
  pub total_pcm_frame_count : Handle → ℕ
  pub read_pcm_frames_s16 : Handle → ℕ → Handle × ℕ × List ℕ

-- Channels are counted by 16 bits and stay; a read gives at most the frames asked for, and writes a
-- sample for each channel of them.
pub record DrLibReads (lib : DrLib) : Type 0 where
  pub channels_below : (h : lib.Handle) → lib.channels h < 2 ^ 16
  pub keeps :
      (h : lib.Handle) (n : ℕ) → lib.channels (lib.read_pcm_frames_s16 h n).0 ≡ lib.channels h
  pub at_most : (h : lib.Handle) (n : ℕ) → (lib.read_pcm_frames_s16 h n).1 ≤ n
  pub writes :
      (h : lib.Handle) (n : ℕ)
      → length (lib.read_pcm_frames_s16 h n).2 ≡ (lib.read_pcm_frames_s16 h n).1 * lib.channels h

-- minimp3: `mp3dec_ex_open` answers with an error code, 0 for none; a read gives the decoder after
-- it and the samples.
pub record Minimp3 : Type 1 where
  pub Handle : Type 0
  pub open_file : Text → ℤ × Handle
  pub hz : Handle → ℤ
  pub channels : Handle → ℤ
  pub samples : Handle → ℕ
  pub read : Handle → ℕ → Handle × List ℕ

-- A read writes at most the samples asked for.
pub record Minimp3Reads (lib : Minimp3) : Type 0 where
  pub at_most : (h : lib.Handle) (n : ℕ) → length (lib.read h n).1 ≤ n

-- A decoder that the program makes: its methods and its destructor. `decode_frames` is given the
-- size of the buffer and the frames asked for, gives the frames and their samples, and is `none`
-- where its assertion fails. `acquired`
-- and `released` count the handles that the vendored code has opened and closed.
pub record AudioDecoder : Type 1 where
  pub State : Type 0
  pub init : State
  pub open_file : Text → State → State × Bool
  pub close : State → State
  pub destroy : State → State
  pub is_open : State → Bool
  pub sample_rate : State → ℤ
  pub channels : State → ℤ
  pub total_samples : State → ℕ
  pub decode_frames : ℕ → ℕ → State → Option (State × ℕ × List ℕ)
  pub acquired : State → ℕ
  pub released : State → ℕ

abbrev pub is_mono_or_stereo : ℤ → Bool
is_mono_or_stereo ch = eq_ℤ ch (pos 1) || eq_ℤ ch (pos 2)

abbrev pub count : Bool → ℕ
count held = if held then 1 else 0

-- The format of an open decoder, and no handle lost or closed twice.
pub record IsOrderly (a : AudioDecoder) (s : a.State) : Type 0 where
  pub rate : a.is_open s ≡ true → pos 1 ≤ℤ a.sample_rate s
  pub layout : a.is_open s ≡ true → is_mono_or_stereo (a.channels s) ≡ true
  pub balanced : a.acquired s ≡ a.released s + count (a.is_open s)

-- A call of `decodeFrames` ends well: not more than the frames asked for, no sample outside the
-- buffer, and as open as before.
abbrev pub Decodes :
    (a : AudioDecoder)
    → (a.State → Type 0)
    → ℕ
    → ℕ
    → a.State
    → Option (a.State × ℕ × List ℕ)
    → Type 0
Decodes a Holds size n s none = ⊥
Decodes a Holds size n s (some (t, frames, samples)) =
    Holds t
    × (frames ≤ n)
    × (length samples ≤ size)
    × (a.is_open t ≡ a.is_open s)
    × (a.channels t ≡ a.channels s)

-- What the adapters keep to.
pub record IsSound (a : AudioDecoder) : Type 1 where
  pub Holds : a.State → Type 0
  pub starts : Holds a.init
  pub opens : (path : Text) (s : a.State) → Holds s → Holds (a.open_file path s).0
  pub tells :
      (path : Text) (s : a.State)
      → Holds s
      → a.is_open (a.open_file path s).0 ≡ (a.open_file path s).1
  pub closes : (s : a.State) → Holds s → Holds (a.close s)
  pub shuts : (s : a.State) → Holds s → a.is_open (a.close s) ≡ false
  pub decodes :
      (size n : ℕ) (s : a.State)
      → Holds s
      → (a.is_open s ≡ true → n * pos_part (a.channels s) ≤ size)
      → Decodes a Holds size n s (a.decode_frames size n s)
  pub orderly : (s : a.State) → Holds s → IsOrderly a s
  pub frees : (s : a.State) → Holds s → a.acquired (a.destroy s) ≡ a.released (a.destroy s)
