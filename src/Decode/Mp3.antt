-- ===== src/Decode/Mp3.antt =====
-- src/decode/Mp3Decoder.cpp.
use musi_tui.Base.{
  ℕ, ◌+◌, ◌*◌, ◌/◌, ◌≤◌, ◌≡◌, refl, Bool, true, false, not, ◌||◌, List, [], ◌++◌, Option, none,
  some, inl, inr, ◌==◌, ltb, if◌then◌else◌, length, arith, Bool-cases, ap, ◌⊎◌, ℕ_discrete,
}
use musi_tui.Base.Int.{ℤ, pos, pos_part, leb_ℤ, eq_ℤ}
use musi_tui.Base.Text.{Text, codes}
use musi_tui.Base.Decimal.{to_string}
use musi_tui.Decode.{
  Minimp3, Minimp3Reads, AudioDecoder, IsOrderly, IsSound, Decodes, is_mono_or_stereo,
}

-- The counts of channels that pass the check.
mono_or_stereo_cases :
    (ch : ℤ) → is_mono_or_stereo ch ≡ true → (pos_part ch ≡ 1) ⊎ (pos_part ch ≡ 2)
mono_or_stereo_cases ch h = elim (ℕ_discrete (pos_part ch) 1) [
  | yes one ↦ inl one
  | no more ↦ inr (ground arith)
]

div_fits :
    (samples n : ℕ) (ch : ℤ)
    → is_mono_or_stereo ch ≡ true
    → samples ≤ n * pos_part ch
    → samples / pos_part ch ≤ n
div_fits samples n ch h fits = elim (mono_or_stereo_cases ch h) [
  | inl e ↦ rw e (omega (arith, ap (λ (k : ℕ). n * k) e))
  | inr e ↦ rw e (omega (arith, ap (λ (k : ℕ). n * k) e))
]

module _ (lib : Minimp3) where
  pub record Mp3Decoder : Type 0 where
    pub dec : Option lib.Handle
    pub is_open : Bool
    pub hz : ℤ
    pub ch : ℤ
    pub err : Text
    pub acquired : ℕ
    pub released : ℕ

  unfoldable pub init : Mp3Decoder
  init = record {
    dec = none;
    is_open = false;
    hz = pos 0;
    ch = pos 0;
    err = [];
    acquired = 0;
    released = 0;
  }

  -- `mp3dec_ex_close`, if a file is open
  unfoldable pub destroy : Mp3Decoder → Mp3Decoder
  destroy d =
      if d.is_open then record d { dec = none; is_open = false; released = d.released + 1 } else d

  unfoldable pub close : Mp3Decoder → Mp3Decoder
  unfolding destroy
  close d = record (destroy d) { hz = pos 0; ch = pos 0 }

  abbrev opened : lib.Handle → Mp3Decoder → Mp3Decoder
  opened h d = record d {
    dec = some h;
    is_open = true;
    hz = lib.hz h;
    ch = lib.channels h;
    acquired = d.acquired + 1;
  }

  -- What is done with a file that opened: its format is checked.
  unfoldable pub check_format : Mp3Decoder → Mp3Decoder × Bool
  unfolding close
  check_format d =
      if leb_ℤ d.hz (pos 0) || not (is_mono_or_stereo d.ch)
      then (close (record d { err = codes "Invalid audio format reported by decoder." }), false)
      else (d, true)

  abbrev failed : ℤ → Mp3Decoder → Mp3Decoder
  failed rc d = record d {
    err = codes "mp3dec_ex_open failed (rc=" ++ (to_string rc ++ codes ")");
    is_open = false;
  }

  unfoldable pub open_file : Text → Mp3Decoder → Mp3Decoder × Bool
  unfolding close check_format
  open_file path decoder =
      let d = record (close decoder) { err = [] } in
      let (rc, h) = lib.open_file path in
      if not (eq_ℤ rc (pos 0)) then (failed rc d, false) else check_format (opened h d)

  unfoldable pub total_samples : Mp3Decoder → ℕ
  total_samples d = if not d.is_open then 0 else elim d.dec [ none ↦ 0 | some h ↦ lib.samples h ]

  -- Frames are asked for, and minimp3 counts samples.
  abbrev read_frames : ℕ → Mp3Decoder → Option lib.Handle → Mp3Decoder × ℕ × List ℕ
  read_frames n d none = (d, 0, [])
  read_frames n d (some h) =
      let (after, samples) = lib.read h (n * pos_part d.ch) in
      (record d { dec = some after }, length samples / pos_part d.ch, samples)

  unfoldable pub decode_frames : ℕ → ℕ → Mp3Decoder → Option (Mp3Decoder × ℕ × List ℕ)
  decode_frames size n d =
      if not d.is_open || n == 0
      then some (d, 0, [])
      else if ltb size (n * pos_part d.ch)
      then none
      else some (read_frames n d d.dec)

  -- `Mp3Decoder` as an `IAudioDecoder`.
  abbrev pub mp3_decoder : AudioDecoder
  mp3_decoder = record {
    State = Mp3Decoder;
    init = init;
    open_file = open_file;
    close = close;
    destroy = destroy;
    is_open = λ d. d.is_open;
    sample_rate = λ d. d.hz;
    channels = λ d. d.ch;
    total_samples = total_samples;
    decode_frames = decode_frames;
    acquired = λ d. d.acquired;
    released = λ d. d.released;
  }

  record IsMp3 (d : Mp3Decoder) : Type 0 where
    orderly : IsOrderly mp3_decoder d

  close-IsMp3 : (d : Mp3Decoder) → IsMp3 d → IsMp3 (close d)
  unfolding close
  close-IsMp3 d v = ground arith

  init-IsMp3 : IsMp3 init
  unfolding init
  init-IsMp3 = ground arith

  close-shut : (d : Mp3Decoder) → (close d).is_open ≡ false
  unfolding close
  close-shut d = ground arith

  destroy-frees : (d : Mp3Decoder) → IsMp3 d → (destroy d).acquired ≡ (destroy d).released
  unfolding destroy
  destroy-frees d v = ground arith

  module _ (doc : Minimp3Reads lib) where
    open_file-IsMp3 : (path : Text) (d : Mp3Decoder) → IsMp3 d → IsMp3 (open_file path d).0
    unfolding open_file check_format close
    open_file-IsMp3 path d v = ground arith

    open_file-tells :
        (path : Text) (d : Mp3Decoder)
        → IsMp3 d
        → (open_file path d).0.is_open ≡ (open_file path d).1
    unfolding open_file check_format close
    open_file-tells path d v = ground arith

    read_frames-Decodes :
        (size n : ℕ) (d : Mp3Decoder) (dec : Option lib.Handle)
        → IsMp3 d
        → is_mono_or_stereo d.ch ≡ true
        → n * pos_part d.ch ≤ size
        → Decodes mp3_decoder IsMp3 size n d (some (read_frames n d dec))
    read_frames-Decodes size n d none v layout fits = (v, omega arith, omega arith, refl, refl)
    read_frames-Decodes size n d (some h) v layout fits =
        let few = doc.at_most h (n * pos_part d.ch) in
        (
          ground (arith),
          div_fits (length (lib.read h (n * pos_part d.ch)).1) n d.ch layout few,
          ground (arith),
          refl,
          refl,
        )

    decode_frames-Decodes :
        (size n : ℕ) (d : Mp3Decoder)
        → IsMp3 d
        → (d.is_open ≡ true → n * pos_part d.ch ≤ size)
        → Decodes mp3_decoder IsMp3 size n d (decode_frames size n d)
    unfolding decode_frames
    decode_frames-Decodes size n d v fits = elim (Bool-cases (not d.is_open || n == 0)) [
      | inl e ↦ rw (decode_frames, e) (v, omega arith, omega arith, refl, refl)
      | inr e ↦
          let room = fits (ground arith) in
          let within : ltb size (n * pos_part d.ch) ≡ false = ground arith in
          rw (decode_frames, e, within)
            (read_frames-Decodes size n d d.dec v (v.orderly.layout (ground arith)) room)
    ]

    -- `Mp3Decoder` keeps to the interface.
    pub mp3_decoder-IsSound : IsSound mp3_decoder
    mp3_decoder-IsSound = record {
      Holds = IsMp3;
      starts = init-IsMp3;
      opens = open_file-IsMp3;
      tells = open_file-tells;
      closes = close-IsMp3;
      shuts = λ d v. close-shut d;
      decodes = decode_frames-Decodes;
      orderly = λ d v. v.orderly;
      frees = destroy-frees;
    }
