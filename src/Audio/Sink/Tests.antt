-- ===== src/Audio/Sink/Tests.antt =====
-- A converter that passes the bytes on, and a sink that plays through it.
use musi_tui.Base.{
  ℕ, ◌+◌, ◌*◌, ◌/◌, ◌≤◌, ◌<◌, ◌≡◌, refl, true, List, [], ◌∷◌, ◌++◌, Option, none, some, ltb,
  if◌then◌else◌, inl, inr, Bool-cases, map, length, take, drop, arith, length-take,
}
use musi_tui.Base.Int.{pos}
use musi_tui.Audio.Sink.{Sink, device_frames, frames_per_pull}
use musi_tui.Audio.Sink.Fill.{AudioStream, fill, callbacks}
use musi_tui.Audio.Sink.Callbacks.{StreamKeeps, Accounted, callbacks_keep}
use musi_tui.Audio.Sink.Slack.{frames_per_pull_lem}

-- What has been put, and how much of it has been given out. More than three bytes are refused.
abbrev plain : AudioStream
plain = record {
  State = List ℕ × List ℕ;
  available = λ s. length s.1;
  put = λ s c. if ltb 3 (length c) then none else some (s.0 ++ c, s.1 ++ c);
  get = λ s n. ((s.0, drop n s.1), take n s.1);
  mix = λ volume out. map (λ b. b * volume / 128) out;
}

length-scaled : (volume : ℕ) (out : List ℕ) → length (map (λ b. b * volume / 128) out) ≡ length out
length-scaled volume [] = refl
length-scaled volume (b ∷ out) = omega (arith, length-scaled volume out)

gets_few : (s : List ℕ × List ℕ) (n : ℕ) → length (take n s.1) ≤ n
gets_few s n = omega (arith, length-take n s.1)

takes_few : (s t : List ℕ × List ℕ) (c : List ℕ) → plain.put s c ≡ some t → t.0 ≡ s.0 ++ c
takes_few s t c took = elim (Bool-cases (ltb 3 (length c))) [
  | inl many ↦ let never : ◌≡◌ {A = Option (List ℕ × List ℕ)} none (some t) = rw many at took in cc
  | inr few ↦
      let same : ◌≡◌ {A = Option (List ℕ × List ℕ)} (some (s.0 ++ c, s.1 ++ c)) (some t) =
        rw few at took in
      cc
]

abbrev plain-Keeps : StreamKeeps plain
plain-Keeps = record {
  fed = λ s. s.0;
  takes = λ s c t took. takes_few s t c took;
  gets = λ s n. refl;
  at_most = gets_few;
  mixes = length-scaled;
}

abbrev sink : Sink
sink = record {
  is_open = true;
  device = [];
  running = true;
  source_format = record { sample_rate = 44100; channels = 2 };
  device_format = record { sample_rate = 48000; channels = 2 };
  volume = pos 50;
  converter = true;
  source_buffer = 0;
  source_frames_per_pull = 0;
  device_buffer_bytes = 4096;
  mix_buffer = 4096;
}

abbrev calls : List (List ℕ)
calls = (1 ∷ 2 ∷ 3 ∷ 4 ∷ []) ∷ (10 ∷ 20 ∷ 30 ∷ []) ∷ (40 ∷ 50 ∷ 60 ∷ []) ∷ (70 ∷ []) ∷ []

-- A callback whose call of the provider is lost, and two of four bytes at half the volume.
halved :
    (callbacks plain sink (4 ∷ 4 ∷ 4 ∷ []) calls ([], [])).0
    ≡ (0 ∷ 0 ∷ 0 ∷ 0 ∷ []) ∷ (5 ∷ 10 ∷ 15 ∷ 20 ∷ []) ∷ (25 ∷ 30 ∷ 35 ∷ 0 ∷ []) ∷ []
unfolding callbacks fill
halved = refl

callbacks_keep_example :
    (map length (callbacks plain sink (4 ∷ 4 ∷ []) calls ([], [])).0 ≡ 4 ∷ 4 ∷ [])
    × Accounted plain plain-Keeps calls
        ([], [])
        (callbacks plain sink (4 ∷ 4 ∷ []) calls ([], [])).2
        (callbacks plain sink (4 ∷ 4 ∷ []) calls ([], [])).1
        2
callbacks_keep_example = callbacks_keep plain plain-Keeps sink (4 ∷ 4 ∷ []) calls ([], []) refl

frames_per_pull_lem_example :
    (k : ℕ) × (frames_per_pull sink ≡ k + 1)
    × (device_frames sink * 44100 ≤ k * 48000)
    × (k * 48000 < device_frames sink * 44100 + 48000)
frames_per_pull_lem_example =
    frames_per_pull_lem sink (omega arith) (omega arith) (omega arith) (omega arith)
