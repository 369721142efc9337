-- ===== src/Signal/Bpm.antt =====
-- src/decode/BpmDetector.cpp. The `int` counters are never negative.
pub mod Stream
pub mod Beats
mod Tests
use musi_tui.Base.{
  ℕ, zero, suc, ◌+◌, ◌-◌, ◌*◌, ◌/◌, ◌%◌, Bool, true, false, not, ◌&&◌, ◌||◌, List, [], ◌∷◌, ◌==◌,
  ltb, leb, if◌then◌else◌, length, get_or, set, take, drop, max, map,
}
use musi_tui.Base.Int.{ℤ}
use musi_tui.Base.Tabulate.{tabulate}
use musi_tui.Signal.{Arithmetic, Floats}

abbrev pub energy_window : ℕ
energy_window = 25

abbrev pub history_size : ℕ
history_size = 43

abbrev pub interval_count : ℕ
interval_count = 8

abbrev pub debounce : ℕ
debounce = 125

abbrev sum_from : {F : Type 0} → Arithmetic F → F → List F → F
sum_from a total [] = total
sum_from a total (x ∷ xs) = sum_from a (a.add total x) xs

module _ (m : Floats) where
  open m use {Float, Double, float, double, narrow}

  pub record BpmDetector : Type 0 where
    pub lpf_state : Float
    pub alpha : Float
    pub cached_rate : ℕ
    pub downsample_step : ℕ
    pub downsample_pos : ℕ
    pub energy_accum : Float
    pub energy_count : ℕ
    pub history : List Float
    pub history_pos : ℕ
    pub total_samples : ℕ
    pub last_beat_sample : ℕ
    pub intervals : List Double
    pub interval_pos : ℕ
    pub intervals_collected : ℕ
    pub smoothed_load_factor : Float
    pub load_factor : Float

  abbrev pub zero_float : Float
  zero_float = float.ratio 0 1

  -- The constructor, and `reset`.
  unfoldable pub reset : BpmDetector
  reset = record {
    lpf_state = zero_float;
    alpha = zero_float;
    cached_rate = 0;
    downsample_step = 1;
    downsample_pos = 0;
    energy_accum = zero_float;
    energy_count = 0;
    history = tabulate history_size (λ i. zero_float);
    history_pos = 0;
    total_samples = 0;
    last_beat_sample = 0;
    intervals = tabulate interval_count (λ i. double.ratio 0 1);
    interval_pos = 0;
    intervals_collected = 0;
    smoothed_load_factor = float.ratio 1 2;
    load_factor = float.ratio 1 2;
  }

  abbrev clamp_float : Float → Float → Float → Float
  clamp_float x lo hi = if float.lt x lo then lo else if float.lt hi x then hi else x

  -- The seconds between beats, by the samples at 500 Hz.
  abbrev pub seconds : ℕ → Double
  seconds samples = double.div (double.ratio samples 1) (double.ratio 500 1)

  -- The factor that the collected intervals tell.
  unfoldable pub raw_load_factor : List Double → ℕ → Float
  raw_load_factor intervals collected =
      let total = sum_from double (double.ratio 0 1) (take collected intervals) in
      let mean = double.div total (double.ratio collected 1) in
      let bpm = narrow (double.div (double.ratio 60 1) mean) in
      clamp_float (float.div (float.sub bpm (float.ratio 60 1)) (float.ratio 120 1))
        (float.ratio 1 5) (float.ratio 1 1)

  unfoldable pub smooth : BpmDetector → BpmDetector
  unfolding raw_load_factor
  smooth d =
      let ema = float.ratio 15 100 in
      let smoothed =
        float.add (float.mul ema (raw_load_factor d.intervals d.intervals_collected))
          (float.mul (float.sub (float.ratio 1 1) ema) d.smoothed_load_factor) in
      if leb 2 d.intervals_collected
      then record d { smoothed_load_factor = smoothed; load_factor = smoothed }
      else d

  unfoldable pub add_interval : ℕ → BpmDetector → BpmDetector
  add_interval since d = record d {
    intervals = set d.intervals d.interval_pos (seconds since);
    interval_pos = (d.interval_pos + 1) % interval_count;
    intervals_collected =
        (if ltb d.intervals_collected interval_count
          then d.intervals_collected + 1
          else d.intervals_collected);
  }

  -- An onset: the first one only starts the clock.
  unfoldable pub beat : ℕ → BpmDetector → BpmDetector
  unfolding smooth add_interval
  beat since d =
      let timed = if ltb 0 d.last_beat_sample then smooth (add_interval since d) else d in
      record timed { last_beat_sample = d.total_samples }

  abbrev pub energy_of : BpmDetector → Float
  energy_of d = float.div d.energy_accum (float.ratio energy_window 1)

  abbrev local_average : BpmDetector → Float
  local_average d = float.div (sum_from float zero_float d.history) (float.ratio history_size 1)

  unfoldable pub store_window : BpmDetector → BpmDetector
  store_window d = record d {
    energy_accum = zero_float;
    energy_count = 0;
    history = set d.history d.history_pos (energy_of d);
    history_pos = (d.history_pos + 1) % history_size;
  }

  abbrev pub is_onset : BpmDetector → Bool
  is_onset d = float.lt (float.mul (float.ratio 3 2) (local_average d)) (energy_of d)

  -- A window of energy is full. The history is summed before the window joins it.
  unfoldable pub close_window : BpmDetector → BpmDetector
  unfolding beat store_window
  close_window d =
      let since = d.total_samples - d.last_beat_sample in
      if is_onset d && ltb debounce since then beat since (store_window d) else store_window d

  -- A sample at 500 Hz.
  abbrev pub count_sample : BpmDetector → BpmDetector
  count_sample d = record d {
    total_samples = d.total_samples + 1;
    energy_accum = float.add d.energy_accum (float.mul d.lpf_state d.lpf_state);
    energy_count = d.energy_count + 1;
  }

  unfoldable pub add_sample : BpmDetector → BpmDetector
  unfolding close_window
  add_sample d =
      if ltb (d.energy_count + 1) energy_window
      then count_sample d
      else close_window (count_sample d)

  abbrev pub mono : ℕ → List ℤ → Float
  mono channels samples =
      float.div (sum_from float zero_float (map float.of_int samples)) (float.ratio channels 1)

  abbrev low_pass : Float → BpmDetector → Float
  low_pass x d =
      float.add (float.mul d.alpha x) (float.mul (float.sub (float.ratio 1 1) d.alpha) d.lpf_state)

  abbrev pub filter_frame : Float → ℕ → BpmDetector → BpmDetector
  filter_frame x downsample_pos d = record d {
    lpf_state = low_pass x d;
    downsample_pos = downsample_pos;
  }

  -- A frame: mixed down, filtered, and dropped but for every `downsample_step`-th one.
  unfoldable pub add_frame : Float → BpmDetector → BpmDetector
  unfolding add_sample
  add_frame x d =
      if ltb (d.downsample_pos + 1) d.downsample_step
      then filter_frame x (d.downsample_pos + 1) d
      else add_sample (filter_frame x 0 d)

  unfoldable pub add_frames : ℕ → ℕ → List ℤ → BpmDetector → BpmDetector
  unfolding add_frame
  add_frames channels zero samples d = d
  add_frames channels (suc frames) samples d =
      add_frames channels frames (drop channels samples)
        (add_frame (mono channels (take channels samples)) d)

  abbrev cutoff : Float
  cutoff =
      float.mul (float.mul (float.ratio 2 1) (float.ratio 314159265 100000000)) (float.ratio 150 1)

  unfoldable pub set_rate : ℕ → BpmDetector → BpmDetector
  set_rate rate d = if rate == d.cached_rate then d else record d {
    cached_rate = rate;
    alpha = float.div cutoff (float.add (float.ratio rate 1) cutoff);
    downsample_step = max 1 (float.truncate (float.div (float.ratio rate 1) (float.ratio 500 1)));
    downsample_pos = 0;
  }

  unfoldable pub feed : List ℤ → ℕ → ℕ → BpmDetector → BpmDetector
  unfolding add_frames
  feed samples channels rate d =
      if length samples == 0 || channels == 0 || rate == 0
      then d
      else add_frames channels (length samples / channels) samples (set_rate rate d)
