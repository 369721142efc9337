-- ===== src/Decode/Wav.antt =====
-- src/decode/WavDecoder.cpp.
use musi_tui.Base.{
  ℕ, ◌+◌, ◌*◌, ◌%◌, ◌^◌, ◌≤◌, ◌<◌, ◌≡◌, refl, Bool, true, false, not, ◌||◌, List, [], ◌++◌, Option,
  none, some, inl, inr, ◌==◌, ltb, if◌then◌else◌, arith, Option-cases, Bool-cases, ap,
}
use native.Mathlib.Nat.{mul-le-mul, le_refl}
use musi_tui.Base.Int.{ℤ, pos, pos_part, leb_ℤ, ltb_ℤ, as_int}
use musi_tui.Base.Text.{Text, codes}
use musi_tui.Base.Decimal.{to_string}
use musi_tui.Decode.{
  DrLib, DrLibReads, AudioDecoder, IsOrderly, IsSound, Decodes, is_mono_or_stereo,
}

abbrev pub max_sample_rate : ℤ
max_sample_rate = pos 192000

module _ (lib : DrLib) where
  pub record WavDecoder : Type 0 where
    pub dec : Option lib.Handle
    pub is_open : Bool
    pub hz : ℤ
    pub ch : ℤ
    pub err : Text
    pub acquired : ℕ
    pub released : ℕ

  unfoldable pub init : WavDecoder
  init = record {
    dec = none;
    is_open = false;
    hz = pos 0;
    ch = pos 0;
    err = [];
    acquired = 0;
    released = 0;
  }

  -- `drwav_uninit`, if a file is open
  unfoldable pub destroy : WavDecoder → WavDecoder
  destroy d =
      if d.is_open then record d { dec = none; is_open = false; released = d.released + 1 } else d

  unfoldable pub close : WavDecoder → WavDecoder
  unfolding destroy
  close d = record (destroy d) { hz = pos 0; ch = pos 0 }

  abbrev opened : lib.Handle → WavDecoder → WavDecoder
  opened h d = record d {
    dec = some h;
    is_open = true;
    hz = as_int (lib.sample_rate h);
    ch = as_int (lib.channels h);
    acquired = d.acquired + 1;
  }

  -- What is done with a file that opened: its format is checked.
  unfoldable pub check_format : WavDecoder → WavDecoder × Bool
  unfolding close
  check_format d =
      if leb_ℤ d.hz (pos 0) || ltb_ℤ max_sample_rate d.hz
      then (
        close (record d {
          err = codes "Unsupported WAV sample rate: " ++ (to_string d.hz ++ codes " Hz");
        }),
        false,
      )
      else if not (is_mono_or_stereo d.ch)
      then (
        close (record d { err = codes "Unsupported WAV channel count: " ++ to_string d.ch }),
        false,
      )
      else (d, true)

  unfoldable pub open_file : Text → WavDecoder → WavDecoder × Bool
  unfolding close check_format
  open_file path decoder =
      let d = record (close decoder) { err = [] } in
      elim (lib.open_file path) [
        | none ↦ (record d { err = codes "drwav_init_file failed" }, false)
        | some h ↦ check_format (opened h d)
      ]

  unfoldable pub total_samples : WavDecoder → ℕ
  total_samples d =
      if not d.is_open
      then 0
      else elim d.dec [ none ↦ 0 | some h ↦ (lib.total_pcm_frame_count h * pos_part d.ch) % 2 ^ 64 ]

  abbrev read_frames : ℕ → WavDecoder → Option lib.Handle → WavDecoder × ℕ × List ℕ
  read_frames n d none = (d, 0, [])
  read_frames n d (some h) =
      let (after, frames, samples) = lib.read_pcm_frames_s16 h n in
      (record d { dec = some after }, frames, samples)

  unfoldable pub decode_frames : ℕ → ℕ → WavDecoder → Option (WavDecoder × ℕ × List ℕ)
  decode_frames size n d =
      if not d.is_open || n == 0
      then some (d, 0, [])
      else if ltb size (n * pos_part d.ch)
      then none
      else some (read_frames n d d.dec)

  -- `WavDecoder` as an `IAudioDecoder`.
  abbrev pub wav_decoder : AudioDecoder
  wav_decoder = record {
    State = WavDecoder;
    init = init;
    open_file = open_file;
    close = close;
    destroy = destroy;
    is_open = λ d. d.is_open;
    sample_rate = λ d. d.hz;
    channels = λ d. d.ch;
    total_samples = total_samples;
    decode_frames = decode_frames;
    acquired = λ d. d.acquired;
    released = λ d. d.released;
  }

  -- The handle of an open decoder, and the channels that it was opened with.
  abbrev HoldsHandle : Option lib.Handle → ℤ → Type 0
  HoldsHandle none ch = ⊥
  HoldsHandle (some h) ch = ch ≡ pos (lib.channels h)

  record IsWav (d : WavDecoder) : Type 0 where
    orderly : IsOrderly wav_decoder d
    handle : d.is_open ≡ true → HoldsHandle d.dec d.ch

  close-IsWav : (d : WavDecoder) → IsWav d → IsWav (close d)
  unfolding close
  close-IsWav d v = ground arith

  init-IsWav : IsWav init
  unfolding init
  init-IsWav = ground arith

  close-shut : (d : WavDecoder) → (close d).is_open ≡ false
  unfolding close
  close-shut d = ground arith

  destroy-frees : (d : WavDecoder) → IsWav d → (destroy d).acquired ≡ (destroy d).released
  unfolding destroy
  destroy-frees d v = ground arith

  module _ (doc : DrLibReads lib) where
    check_format-IsWav :
        (h : lib.Handle) (d : WavDecoder)
        → lib.channels h < 2 ^ 16
        → d.is_open ≡ false
        → IsWav d
        → IsWav (check_format (opened h d)).0
    unfolding check_format close
    check_format-IsWav h d small shut v = ground arith

    open_file-IsWav : (path : Text) (d : WavDecoder) → IsWav d → IsWav (open_file path d).0
    unfolding open_file close
    open_file-IsWav path d v = elim (Option-cases (lib.open_file path)) [
      | inl e ↦ rw (open_file, e) (ground (arith))
      | inr (h, e) ↦
          rw (open_file, e)
            (check_format-IsWav h (record (close d) { err = [] }) (doc.channels_below h)
              (ground arith) (ground arith))
    ]

    open_file-tells :
        (path : Text) (d : WavDecoder)
        → IsWav d
        → (open_file path d).0.is_open ≡ (open_file path d).1
    unfolding open_file check_format close
    open_file-tells path d v = elim (Option-cases (lib.open_file path)) [
      | inl e ↦ rw (open_file, e) (ground (arith))
      | inr (h, e) ↦ rw (open_file, e) (ground arith)
    ]

    read_frames-Decodes :
        (size n : ℕ) (d : WavDecoder) (dec : Option lib.Handle)
        → IsWav d
        → HoldsHandle dec d.ch
        → n * pos_part d.ch ≤ size
        → Decodes wav_decoder IsWav size n d (some (read_frames n d dec))
    read_frames-Decodes size n d none v held fits = absurd held
    read_frames-Decodes size n d (some h) v held fits =
        let few = doc.at_most h n in
        let written = doc.writes h n in
        let kept = doc.keeps h n in
        let fewer = mul-le-mul few (le_refl (lib.channels h)) in
        (ground (arith), few, ground (arith, ap pos_part held), refl, refl)

    decode_frames-Decodes :
        (size n : ℕ) (d : WavDecoder)
        → IsWav d
        → (d.is_open ≡ true → n * pos_part d.ch ≤ size)
        → Decodes wav_decoder IsWav size n d (decode_frames size n d)
    unfolding decode_frames
    decode_frames-Decodes size n d v fits = elim (Bool-cases (not d.is_open || n == 0)) [
      | inl e ↦ rw (decode_frames, e) (v, omega arith, omega arith, refl, refl)
      | inr e ↦
          let room = fits (ground arith) in
          let within : ltb size (n * pos_part d.ch) ≡ false = ground arith in
          rw (decode_frames, e, within)
            (read_frames-Decodes size n d d.dec v (v.handle (ground arith)) room)
    ]

    -- `WavDecoder` keeps to the interface.
    pub wav_decoder-IsSound : IsSound wav_decoder
    wav_decoder-IsSound = record {
      Holds = IsWav;
      starts = init-IsWav;
      opens = open_file-IsWav;
      tells = open_file-tells;
      closes = close-IsWav;
      shuts = λ d v. close-shut d;
      decodes = decode_frames-Decodes;
      orderly = λ d v. v.orderly;
      frees = destroy-frees;
    }
