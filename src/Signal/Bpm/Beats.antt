-- ===== src/Signal/Bpm/Beats.antt =====
-- What the detector keeps to, whatever it is fed: its positions, its clock, and the beats that it
-- counts.
use musi_tui.Base.{
  ℕ, zero, suc, ◌+◌, ◌-◌, ◌/◌, ◌≤◌, ◌<◌, ◌≡◌, ◌≢◌, refl, ◌⊎◌, inl, inr, ◌&&◌, ◌||◌, ◌==◌, List, [],
  ◌∷◌, ltb, length, get_or, set, take, drop, arith, length-set, get_or-set_self, get_or-set_ne,
  Bool-cases, ℕ_discrete, ap, sym, ◌∙◌,
}
use musi_tui.Base.Int.{ℤ}
use musi_tui.Signal.{Floats}
use musi_tui.Signal.Bpm.{
  BpmDetector, energy_window, history_size, interval_count, debounce, seconds, reset, smooth,
  add_interval, beat, energy_of, is_onset, store_window, close_window, count_sample, filter_frame,
  add_sample, mono, add_frame, add_frames, set_rate, feed,
}

module _ (m : Floats) where
  -- The seconds of more samples than the pause after a beat.
  abbrev pub IsInterval : m.Double → Type 0
  IsInterval x = (n : ℕ) × (debounce < n) × (x ≡ seconds m n)

  -- Positions within their arrays; an interval for each that is counted, oldest slots first; and the
  -- last beat not after now.
  pub record IsValid (d : BpmDetector m) : Type 0 where
    pub step : 1 ≤ d.downsample_step
    pub downsampling : d.downsample_pos < d.downsample_step
    pub energy : d.energy_count < energy_window
    pub history_kept : length d.history ≡ history_size
    pub history_within : d.history_pos < history_size
    pub intervals_kept : length d.intervals ≡ interval_count
    pub interval_within : d.interval_pos < interval_count
    pub collected : d.intervals_collected ≤ interval_count
    pub in_order :
        (d.interval_pos ≡ d.intervals_collected) ⊎ (d.intervals_collected ≡ interval_count)
    pub clock : d.last_beat_sample ≤ d.total_samples
    pub intervals_timed :
        (i : ℕ) → i < d.intervals_collected → IsInterval (get_or d.intervals i (m.double.ratio 0 1))

  -- The same in the middle of a window, where the energy may be full.
  abbrev Within : BpmDetector m → Type 0
  Within d = IsValid (record d { energy_count = 0 })

  reset-IsValid : IsValid (reset m)
  unfolding reset
  reset-IsValid = record {
    step = omega arith;
    downsampling = omega arith;
    energy = omega arith;
    history_kept = refl;
    history_within = omega arith;
    intervals_kept = refl;
    interval_within = omega arith;
    collected = omega arith;
    in_order = inl refl;
    clock = omega arith;
    intervals_timed = λ i h. absurd (omega arith);
  }

  timed_after :
      (since : ℕ) (d : BpmDetector m)
      → IsValid d
      → debounce < since
      → (i : ℕ) → i < (add_interval m since d).intervals_collected
      → IsInterval (get_or (add_interval m since d).intervals i (m.double.ratio 0 1))
  unfolding add_interval
  timed_after since d v long i h = elim (ℕ_discrete d.interval_pos i) [
    | yes here ↦ (
      since,
      long,
      ap (λ j. get_or (set d.intervals d.interval_pos (seconds m since)) j (m.double.ratio 0 1))
            (sym here)
          ∙ get_or-set_self d.intervals d.interval_pos (seconds m since) (m.double.ratio 0 1)
              (omega (arith, v.intervals_kept, v.interval_within)),
    )
    | no there ↦
        let (n, far, e) = v.intervals_timed i (earlier there) in
        (n, far, get_or-set_ne d.intervals (seconds m since) (m.double.ratio 0 1) there ∙ e)
  ]
    where
      earlier : d.interval_pos ≢ i → i < d.intervals_collected
      earlier there = ground (arith, h, v.in_order)

  add_interval-IsValid :
      (since : ℕ) (d : BpmDetector m)
      → IsValid d
      → debounce < since
      → IsValid (add_interval m since d)
  unfolding add_interval
  add_interval-IsValid since d v long = record {
    step = v.step;
    downsampling = v.downsampling;
    energy = v.energy;
    history_kept = v.history_kept;
    history_within = v.history_within;
    intervals_kept =
        omega (arith, length-set d.intervals d.interval_pos (seconds m since), v.intervals_kept);
    interval_within = omega arith;
    collected = ground arith;
    in_order = ground (arith, v.in_order);
    clock = v.clock;
    intervals_timed = timed_after since d v long;
  }

  smooth-IsValid : (d : BpmDetector m) → IsValid d → IsValid (smooth m d)
  unfolding smooth
  smooth-IsValid d v = ground arith

  beat-IsValid :
      (since : ℕ) (d : BpmDetector m) → IsValid d → debounce < since → IsValid (beat m since d)
  unfolding beat
  beat-IsValid since d v long =
      ground (arith, smooth-IsValid (add_interval m since d) (add_interval-IsValid since d v long))

  store_window-IsValid : (d : BpmDetector m) → Within d → IsValid (store_window m d)
  unfolding store_window
  store_window-IsValid d v = record {
    step = v.step;
    downsampling = v.downsampling;
    energy = omega arith;
    history_kept =
        omega (arith, length-set d.history d.history_pos (energy_of m d), v.history_kept);
    history_within = omega arith;
    intervals_kept = v.intervals_kept;
    interval_within = v.interval_within;
    collected = v.collected;
    in_order = v.in_order;
    clock = v.clock;
    intervals_timed = v.intervals_timed;
  }

  close_window-IsValid : (d : BpmDetector m) → Within d → IsValid (close_window m d)
  unfolding close_window
  close_window-IsValid d v =
      let since = d.total_samples - d.last_beat_sample in
      let stored = store_window-IsValid d v in
      elim (Bool-cases (is_onset m d && ltb debounce since)) [
        | inl onset ↦
            rw (close_window, onset) (beat-IsValid since (store_window m d) stored (ground arith))
        | inr calm ↦ rw (close_window, calm) stored
      ]

  add_sample-IsValid : (d : BpmDetector m) → IsValid d → IsValid (add_sample m d)
  unfolding add_sample
  add_sample-IsValid d v = elim (Bool-cases (ltb (d.energy_count + 1) energy_window)) [
    | inl open_window ↦ rw (add_sample, open_window) (ground arith)
    | inr full ↦ rw (add_sample, full) (close_window-IsValid (count_sample m d) (ground arith))
  ]

  add_frame-IsValid : (x : m.Float) (d : BpmDetector m) → IsValid d → IsValid (add_frame m x d)
  unfolding add_frame
  add_frame-IsValid x d v = elim (Bool-cases (ltb (d.downsample_pos + 1) d.downsample_step)) [
    | inl dropped ↦ rw (add_frame, dropped) (ground arith)
    | inr kept ↦ rw (add_frame, kept) (add_sample-IsValid (filter_frame m x 0 d) (ground arith))
  ]

  add_frames-IsValid :
      (channels frames : ℕ) (samples : List ℤ) (d : BpmDetector m)
      → IsValid d
      → IsValid (add_frames m channels frames samples d)
  unfolding add_frames
  add_frames-IsValid channels zero samples d v = v
  add_frames-IsValid channels (suc frames) samples d v =
      add_frames-IsValid channels frames (drop channels samples)
        (add_frame m (mono m channels (take channels samples)) d)
        (add_frame-IsValid (mono m channels (take channels samples)) d v)

  set_rate-IsValid : (rate : ℕ) (d : BpmDetector m) → IsValid d → IsValid (set_rate m rate d)
  unfolding set_rate
  set_rate-IsValid rate d v = ground arith

  feed-IsValid :
      (samples : List ℤ) (channels rate : ℕ) (d : BpmDetector m)
      → IsValid d
      → IsValid (feed m samples channels rate d)
  unfolding feed
  feed-IsValid samples channels rate d v =
      elim (Bool-cases (length samples == 0 || channels == 0 || rate == 0)) [
        | inl nothing ↦ rw (feed, nothing) v
        | inr some_frames ↦
            rw (feed, some_frames)
              (add_frames-IsValid channels (length samples / channels) samples (set_rate m rate d)
                (set_rate-IsValid rate d v))
      ]

  -- What a song is: calls of `feed`, each with its samples, channels and rate.
  unfoldable pub feed_all : List (List ℤ × ℕ × ℕ) → BpmDetector m → BpmDetector m
  feed_all [] d = d
  feed_all ((samples, channels, rate) ∷ rest) d = feed_all rest (feed m samples channels rate d)

  feed_all-IsValid :
      (calls : List (List ℤ × ℕ × ℕ)) (d : BpmDetector m) → IsValid d → IsValid (feed_all calls d)
  unfolding feed_all
  feed_all-IsValid [] d v = v
  feed_all-IsValid ((samples, channels, rate) ∷ rest) d v =
      feed_all-IsValid rest (feed m samples channels rate d)
        (feed-IsValid samples channels rate d v)

  -- Whatever a detector is fed since its reset, in whatever chunks, rates and channels: each position
  -- is within its array, the last beat is not after the last sample, and each interval that is
  -- counted is one of more than 125 samples at 500 Hz.
  pub fed-IsValid : (calls : List (List ℤ × ℕ × ℕ)) → IsValid (feed_all calls (reset m))
  fed-IsValid calls = feed_all-IsValid calls (reset m) reset-IsValid
