-- ===== src/Decode/Flac.antt =====
-- src/decode/FlacDecoder.cpp.
use musi_tui.Base.{
  ℕ, ◌+◌, ◌*◌, ◌%◌, ◌^◌, ◌≤◌, ◌<◌, ◌≡◌, refl, Bool, true, false, not, ◌||◌, List, [], ◌++◌, Option,
  none, some, is_some, inl, inr, ◌==◌, ltb, if◌then◌else◌, arith, Option-cases, Bool-cases, ap,
}
use native.Mathlib.Nat.{mul-le-mul, le_refl}
use musi_tui.Base.Int.{ℤ, pos, pos_part, leb_ℤ, ltb_ℤ, as_int}
use musi_tui.Base.Text.{Text, codes}
use musi_tui.Base.Decimal.{to_string}
use musi_tui.Decode.Wav.{max_sample_rate}
use musi_tui.Decode.{
  DrLib, DrLibReads, AudioDecoder, IsOrderly, IsSound, Decodes, is_mono_or_stereo,
}

module _ (lib : DrLib) where
  pub record FlacDecoder : Type 0 where
    pub dec : Option lib.Handle
    pub hz : ℤ
    pub ch : ℤ
    pub err : Text
    pub acquired : ℕ
    pub released : ℕ

  unfoldable pub init : FlacDecoder
  init = record { dec = none; hz = pos 0; ch = pos 0; err = []; acquired = 0; released = 0 }

  abbrev pub is_open : FlacDecoder → Bool
  is_open d = is_some d.dec

  -- `drflac_close`, if a file is open
  unfoldable pub destroy : FlacDecoder → FlacDecoder
  destroy d = if is_open d then record d { dec = none; released = d.released + 1 } else d

  unfoldable pub close : FlacDecoder → FlacDecoder
  unfolding destroy
  close d = record (destroy d) { hz = pos 0; ch = pos 0 }

  abbrev opened : lib.Handle → FlacDecoder → FlacDecoder
  opened h d = record d {
    dec = some h;
    hz = as_int (lib.sample_rate h);
    ch = as_int (lib.channels h);
    acquired = d.acquired + 1;
  }

  -- What is done with a file that opened: its format is checked.
  unfoldable pub check_format : FlacDecoder → FlacDecoder × Bool
  unfolding close
  check_format d =
      if leb_ℤ d.hz (pos 0) || ltb_ℤ max_sample_rate d.hz
      then (
        close (record d {
          err = codes "Unsupported FLAC sample rate: " ++ (to_string d.hz ++ codes " Hz");
        }),
        false,
      )
      else if not (is_mono_or_stereo d.ch)
      then (
        close (record d { err = codes "Unsupported FLAC channel count: " ++ to_string d.ch }),
        false,
      )
      else (d, true)

  unfoldable pub open_file : Text → FlacDecoder → FlacDecoder × Bool
  unfolding close check_format
  open_file path decoder =
      let d = record (close decoder) { err = [] } in
      elim (lib.open_file path) [
        | none ↦ (record d { err = codes "drflac_open_file failed" }, false)
        | some h ↦ check_format (opened h d)
      ]

  unfoldable pub total_samples : FlacDecoder → ℕ
  total_samples d =
      if not (is_open d)
      then 0
      else elim d.dec [ none ↦ 0 | some h ↦ (lib.total_pcm_frame_count h * pos_part d.ch) % 2 ^ 64 ]

  abbrev read_frames : ℕ → FlacDecoder → Option lib.Handle → FlacDecoder × ℕ × List ℕ
  read_frames n d none = (d, 0, [])
  read_frames n d (some h) =
      let (after, frames, samples) = lib.read_pcm_frames_s16 h n in
      (record d { dec = some after }, frames, samples)

  unfoldable pub decode_frames : ℕ → ℕ → FlacDecoder → Option (FlacDecoder × ℕ × List ℕ)
  decode_frames size n d =
      if not (is_open d) || n == 0
      then some (d, 0, [])
      else if ltb size (n * pos_part d.ch)
      then none
      else some (read_frames n d d.dec)

  -- `FlacDecoder` as an `IAudioDecoder`.
  abbrev pub flac_decoder : AudioDecoder
  flac_decoder = record {
    State = FlacDecoder;
    init = init;
    open_file = open_file;
    close = close;
    destroy = destroy;
    is_open = is_open;
    sample_rate = λ d. d.hz;
    channels = λ d. d.ch;
    total_samples = total_samples;
    decode_frames = decode_frames;
    acquired = λ d. d.acquired;
    released = λ d. d.released;
  }

  -- The handle of an open decoder, and the channels that it was opened with.
  abbrev HoldsHandle : Option lib.Handle → ℤ → Type 0
  HoldsHandle none ch = ⊥
  HoldsHandle (some h) ch = ch ≡ pos (lib.channels h)

  record IsFlac (d : FlacDecoder) : Type 0 where
    orderly : IsOrderly flac_decoder d
    handle : is_open d ≡ true → HoldsHandle d.dec d.ch

  close-IsFlac : (d : FlacDecoder) → IsFlac d → IsFlac (close d)
  unfolding close
  close-IsFlac d v = ground arith

  init-IsFlac : IsFlac init
  unfolding init
  init-IsFlac = ground arith

  close-shut : (d : FlacDecoder) → is_open (close d) ≡ false
  unfolding close
  close-shut d = ground arith

  destroy-frees : (d : FlacDecoder) → IsFlac d → (destroy d).acquired ≡ (destroy d).released
  unfolding destroy
  destroy-frees d v = ground arith

  module _ (doc : DrLibReads lib) where
    check_format-IsFlac :
        (h : lib.Handle) (d : FlacDecoder)
        → lib.channels h < 2 ^ 16
        → is_open d ≡ false
        → IsFlac d
        → IsFlac (check_format (opened h d)).0
    unfolding check_format close
    check_format-IsFlac h d small shut v = ground arith

    open_file-IsFlac : (path : Text) (d : FlacDecoder) → IsFlac d → IsFlac (open_file path d).0
    unfolding open_file close
    open_file-IsFlac path d v = elim (Option-cases (lib.open_file path)) [
      | inl e ↦ rw (open_file, e) (ground (arith))
      | inr (h, e) ↦
          rw (open_file, e)
            (check_format-IsFlac h (record (close d) { err = [] }) (doc.channels_below h)
              (ground arith) (ground arith))
    ]

    open_file-tells :
        (path : Text) (d : FlacDecoder)
        → IsFlac d
        → is_open (open_file path d).0 ≡ (open_file path d).1
    unfolding open_file check_format close
    open_file-tells path d v = elim (Option-cases (lib.open_file path)) [
      | inl e ↦ rw (open_file, e) (ground (arith))
      | inr (h, e) ↦ rw (open_file, e) (ground arith)
    ]

    read_frames-Decodes :
        (size n : ℕ) (d : FlacDecoder) (dec : Option lib.Handle)
        → IsFlac d
        → d.dec ≡ dec
        → HoldsHandle dec d.ch
        → n * pos_part d.ch ≤ size
        → Decodes flac_decoder IsFlac size n d (some (read_frames n d dec))
    read_frames-Decodes size n d none v e held fits = absurd held
    read_frames-Decodes size n d (some h) v e held fits =
        let few = doc.at_most h n in
        let written = doc.writes h n in
        let kept = doc.keeps h n in
        let fewer = mul-le-mul few (le_refl (lib.channels h)) in
        (ground (arith), few, ground (arith, ap pos_part held), rw e refl, refl)

    decode_frames-Decodes :
        (size n : ℕ) (d : FlacDecoder)
        → IsFlac d
        → (is_open d ≡ true → n * pos_part d.ch ≤ size)
        → Decodes flac_decoder IsFlac size n d (decode_frames size n d)
    unfolding decode_frames
    decode_frames-Decodes size n d v fits = elim (Bool-cases (not (is_open d) || n == 0)) [
      | inl e ↦ rw (decode_frames, e) (v, omega arith, omega arith, refl, refl)
      | inr e ↦
          let room = fits (ground arith) in
          let within : ltb size (n * pos_part d.ch) ≡ false = ground arith in
          rw (decode_frames, e, within)
            (read_frames-Decodes size n d d.dec v refl (v.handle (ground arith)) room)
    ]

    -- `FlacDecoder` keeps to the interface.
    pub flac_decoder-IsSound : IsSound flac_decoder
    flac_decoder-IsSound = record {
      Holds = IsFlac;
      starts = init-IsFlac;
      opens = open_file-IsFlac;
      tells = open_file-tells;
      closes = close-IsFlac;
      shuts = λ d v. close-shut d;
      decodes = decode_frames-Decodes;
      orderly = λ d v. v.orderly;
      frees = destroy-frees;
    }
