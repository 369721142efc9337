-- ===== src/Signal/Bpm/Stream.antt =====
-- It does not matter how the samples are cut into calls.
use native.Mathlib.Nat.{mul-div_left}
use musi_tui.Base.{
  ℕ, zero, suc, ◌+◌, ◌-◌, ◌*◌, ◌/◌, ◌≤◌, ◌<◌, ◌≡◌, refl, ◌∙◌, sym, ap, ap₂, inl, inr, Bool, true,
  false, ◌||◌, ◌&&◌, ◌==◌, List, [], ◌∷◌, ◌++◌, ltb, length, take, drop, arith, Bool-cases,
  length-append, length-drop, take-append_le, drop-append_le, append-nil,
}
use musi_tui.Base.Int.{ℤ}
use musi_tui.Signal.{Floats}
use musi_tui.Signal.Bpm.{
  BpmDetector, debounce, energy_window, smooth, add_interval, beat, is_onset, store_window,
  close_window, count_sample, add_sample, mono, filter_frame, add_frame, add_frames, set_rate, feed,
}

module _ (m : Floats) where
  add_frames-append :
      (channels f g : ℕ) (xs ys : List ℤ) (d : BpmDetector m)
      → length xs ≡ f * channels
      → add_frames m channels (f + g) (xs ++ ys) d
        ≡ add_frames m channels g ys (add_frames m channels f xs d)
  unfolding add_frames
  add_frames-append channels zero g [] ys d whole =
      ap (λ n. add_frames m channels n ys d) {x = 0 + g} {y = g} (omega arith)
  add_frames-append channels zero g (x ∷ xs) ys d whole = absurd (omega arith)
  add_frames-append channels (suc f) g xs ys d whole =
      let fits : channels ≤ length xs = omega arith in
      ap (λ n. add_frames m channels n (xs ++ ys) d) {x = suc f + g} {y = suc (f + g)} (omega arith)
      ∙ ap₂ (λ r t. add_frames m channels (f + g) r (add_frame m (mono m channels t) d))
          (drop-append_le channels xs ys fits) (take-append_le channels xs ys fits)
      ∙ add_frames-append channels f g (drop channels xs) ys
          (add_frame m (mono m channels (take channels xs)) d)
          (omega (arith, length-drop channels xs))

  close_window-rate : (d : BpmDetector m) → (close_window m d).cached_rate ≡ d.cached_rate
  unfolding close_window beat smooth add_interval store_window
  close_window-rate d =
      elim (Bool-cases (is_onset m d && ltb debounce (d.total_samples - d.last_beat_sample))) [
        | inl onset ↦ rw (close_window, onset) (ground arith)
        | inr calm ↦ rw (close_window, calm) refl
      ]

  add_frame-rate : (x : m.Float) (d : BpmDetector m) → (add_frame m x d).cached_rate ≡ d.cached_rate
  unfolding add_frame add_sample
  add_frame-rate x d = elim (Bool-cases (ltb (d.downsample_pos + 1) d.downsample_step)) [
    | inl dropped ↦ rw (add_frame, dropped) refl
    | inr kept ↦
        rw (add_frame, kept)
          (elim (Bool-cases (ltb (d.energy_count + 1) energy_window)) [
            | inl more ↦ rw (add_sample, more) refl
            | inr full ↦
                rw (add_sample, full) (close_window-rate (count_sample m (filter_frame m x 0 d)))
          ])
  ]

  add_frames-rate :
      (channels frames : ℕ) (samples : List ℤ) (d : BpmDetector m)
      → (add_frames m channels frames samples d).cached_rate ≡ d.cached_rate
  unfolding add_frames
  add_frames-rate channels zero samples d = refl
  add_frames-rate channels (suc frames) samples d =
      add_frames-rate channels frames (drop channels samples)
        (add_frame m (mono m channels (take channels samples)) d)
      ∙ add_frame-rate (mono m channels (take channels samples)) d

  set_rate-rate : (rate : ℕ) (d : BpmDetector m) → (set_rate m rate d).cached_rate ≡ rate
  unfolding set_rate
  set_rate-rate rate d = ground arith

  set_rate_same : (rate : ℕ) (d : BpmDetector m) → d.cached_rate ≡ rate → set_rate m rate d ≡ d
  unfolding set_rate
  set_rate_same rate d e = ground arith

  abbrev feeds_nothing : List ℤ → ℕ → ℕ → Bool
  feeds_nothing samples channels rate = length samples == 0 || channels == 0 || rate == 0

  feed_nothing :
      (samples : List ℤ) (channels rate : ℕ) (d : BpmDetector m)
      → feeds_nothing samples channels rate ≡ true
      → feed m samples channels rate d ≡ d
  unfolding feed
  feed_nothing samples channels rate d e = rw (feed, e) refl

  feed_frames :
      (samples : List ℤ) (channels rate : ℕ) (d : BpmDetector m)
      → feeds_nothing samples channels rate ≡ false
      → feed m samples channels rate d
        ≡ add_frames m channels (length samples / channels) samples (set_rate m rate d)
  unfolding feed
  feed_frames samples channels rate d e = rw (feed, e) refl

  -- The second call finds the rate set.
  feed-after :
      (channels rate f g : ℕ) (xs ys : List ℤ) (d : BpmDetector m)
      → length xs ≡ f * channels
      → length ys ≡ g * channels
      → feeds_nothing xs channels rate ≡ false
      → feeds_nothing ys channels rate ≡ false
      → feed m (xs ++ ys) channels rate d ≡ feed m ys channels rate (feed m xs channels rate d)
  feed-after channels rate f g xs ys d whole whole' some_xs some_ys =
      let pos : 0 < channels = ground arith in
      let first = add_frames m channels f xs (set_rate m rate d) in
      let count_f : length xs / channels ≡ f = ap (λ n. n / channels) whole ∙ mul-div_left f pos in
      let count_g : length ys / channels ≡ g = ap (λ n. n / channels) whole' ∙ mul-div_left g pos in
      let count : length (xs ++ ys) / channels ≡ f + g =
        ap (λ n. n / channels) {y = (f + g) * channels}
          (length-append xs ys ∙ grind (arith, whole, whole'))
        ∙ mul-div_left (f + g) pos in
      let both : feeds_nothing (xs ++ ys) channels rate ≡ false =
        ground (arith, length-append xs ys) in
      let once : feed m xs channels rate d ≡ first =
        feed_frames xs channels rate d some_xs
        ∙ ap (λ n. add_frames m channels n xs (set_rate m rate d)) count_f in
      feed_frames (xs ++ ys) channels rate d both
      ∙ ap (λ n. add_frames m channels n (xs ++ ys) (set_rate m rate d)) count
      ∙ add_frames-append channels f g xs ys (set_rate m rate d) whole
      ∙ ap₂ (λ n t. add_frames m channels n ys t) (sym count_g)
          (sym (
            set_rate_same rate first
              (add_frames-rate channels f xs (set_rate m rate d) ∙ set_rate-rate rate d)))
      ∙ sym (feed_frames ys channels rate first some_ys)
      ∙ ap (feed m ys channels rate) (sym once)

  -- Samples of one format, cut between two frames into two calls, leave the detector as they do in
  -- one call.
  pub feed-append :
      (channels rate f g : ℕ) (xs ys : List ℤ) (d : BpmDetector m)
      → length xs ≡ f * channels
      → length ys ≡ g * channels
      → feed m (xs ++ ys) channels rate d ≡ feed m ys channels rate (feed m xs channels rate d)
  feed-append channels rate f g [] ys d whole whole' =
      ap (feed m ys channels rate) (sym (feed_nothing [] channels rate d refl))
  feed-append channels rate f g (x ∷ xs) [] d whole whole' =
      ap (λ t. feed m t channels rate d) (append-nil (x ∷ xs))
      ∙ sym (feed_nothing [] channels rate (feed m (x ∷ xs) channels rate d) refl)
  feed-append channels rate f g (x ∷ xs) (y ∷ ys) d whole whole' =
      elim (Bool-cases (channels == 0 || rate == 0)) [
        | inl neither ↦
            feed_nothing (x ∷ xs ++ y ∷ ys) channels rate d (ground arith)
            ∙ sym (feed_nothing (x ∷ xs) channels rate d (ground arith))
            ∙ sym (
                feed_nothing (y ∷ ys) channels rate (feed m (x ∷ xs) channels rate d)
                  (ground arith))
        | inr both ↦
            feed-after channels rate f g (x ∷ xs) (y ∷ ys) d whole whole' (ground arith)
              (ground arith)
      ]
