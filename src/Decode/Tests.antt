-- ===== src/Decode/Tests.antt =====
-- Vendored decoders of a kind, and what the adapters make of their files.
use Prim.Native.Nat.{min}
use musi_tui.Base.{ℕ, ◌-◌, ◌*◌, ◌≡◌, refl, false, List, [], ◌∷◌, none, some, if◌then◌else◌, arith}
use musi_tui.Base.Tabulate.{tabulate, length-tabulate}
use musi_tui.Base.Int.{pos}
use musi_tui.Base.Text.{codes, text_eq}
use musi_tui.Events.Bus.{push, error}
use musi_tui.Decode.{DrLib, DrLibReads, Minimp3, Minimp3Reads, IsOrderly}
use musi_tui.Decode.Wav.{wav_decoder, open_file, close, init}
use musi_tui.Decode.Factory.{Vendors, VendorsRead, create}
use musi_tui.Decode.Drive.{Call, opening, closing, decoding, run, run-IsOrderly}
use musi_tui.Decode.PreWarm.{
  Warmed, IsWarmed, warm_with, pre_warm_song, pre_warm_song_lem, file_opens,
}

-- Files of 48 kHz; those named `eight.wav` have eight channels, the others two. A handle is the
-- channels and the frames that are left of it.
abbrev silence : ℕ → List ℕ
silence n = tabulate n (λ i. 0)

abbrev dr_lib : DrLib
dr_lib = record {
  Handle = ℕ × ℕ;
  open_file = λ path.
      if text_eq path (codes "missing.wav")
      then none
      else some (if text_eq path (codes "eight.wav") then 8 else 2, 3000);
  sample_rate = λ h. 48000;
  channels = λ h. min h.0 65535;
  total_pcm_frame_count = λ h. h.1;
  read_pcm_frames_s16 =
      λ h n. ((h.0, h.1 - min n h.1), min n h.1, silence (min n h.1 * min h.0 65535));
}

dr_lib-Reads : DrLibReads dr_lib
dr_lib-Reads = record {
  channels_below = λ h. omega arith;
  keeps = λ h n. refl;
  at_most = λ h n. omega arith;
  writes = λ h n. length-tabulate (min n h.1 * min h.0 65535) (λ i. 0);
}

-- An mp3 of 1000 samples.
abbrev minimp3 : Minimp3
minimp3 = record {
  Handle = ℕ;
  open_file = λ path. (pos 0, 1000);
  hz = λ h. pos 44100;
  channels = λ h. pos 1;
  samples = λ h. h;
  read = λ h n. (h - min n h, silence (min n h));
}

minimp3-Reads : Minimp3Reads minimp3
minimp3-Reads = record {
  at_most = λ h n. omega (arith, length-tabulate {A = ℕ} (min n h) (λ i. 0));
}

abbrev vendors : Vendors
vendors = record { minimp3 = minimp3; dr_flac = dr_lib; dr_wav = dr_lib }

vendors-Read : VendorsRead vendors
vendors-Read = record {
  mp3_reads = minimp3-Reads;
  flac_reads = dr_lib-Reads;
  wav_reads = dr_lib-Reads;
}

-- A file with too many channels is refused, and one that is opened again is closed first.
abbrev calls : List Call
calls =
    opening (codes "eight.wav")
    ∷ opening (codes "a.wav")
    ∷ decoding 2304 1152
    ∷ opening (codes "b.wav")
    ∷ closing
    ∷ closing
    ∷ opening (codes "c.wav")
    ∷ []

made : create vendors (codes "a.WAV") ≡ some (wav_decoder dr_lib)
unfolding create
made = refl

run-IsOrderly_example :
    let a = wav_decoder dr_lib in
    (t : a.State) × (run a calls a.init ≡ some t)
    × IsOrderly a t
    × (a.acquired (a.destroy t) ≡ a.released (a.destroy t))
run-IsOrderly_example =
    run-IsOrderly vendors (codes "a.WAV") {a = wav_decoder dr_lib} calls vendors-Read made
      (omega arith)

pre_warm_song_lem_example :
    (w : Warmed) × (pre_warm_song vendors (codes "a.wav") [] ≡ some w)
    × IsWarmed (codes "a.wav") [] (file_opens vendors (codes "a.wav")) w
pre_warm_song_lem_example = pre_warm_song_lem vendors (codes "a.wav") [] vendors-Read

missing_does_not_warm :
    pre_warm_song vendors (codes "missing.wav") []
    ≡ some (record {
      bus = push (codes "Pre-warm failed: missing.wav") error [];
      warm = false;
      decoded = [];
      acquired = 0;
      released = 0;
    })
unfolding pre_warm_song warm_with open_file close init create
missing_does_not_warm = refl
