-- ===== src/Audio/Sink/Slack.antt =====
-- How much source audio a callback pulls at a time.
use native.Mathlib.Nat.{
  mul-le-mul, mod-eq_of_lt, div-add-mod', mod-lt, div-mul-le_self, div-le_self,
}
use musi_tui.Base.{ℕ, ◌+◌, ◌-◌, ◌*◌, ◌/◌, ◌%◌, ◌^◌, ◌≤◌, ◌<◌, ◌≡◌, arith}
use musi_tui.Audio.Sink.{Sink, device_frames, frames_per_pull}

-- Products of 31-bit numbers fit 62 bits.
product_small : (a b : ℕ) → a < 2 ^ 31 → b < 2 ^ 31 → a * b < 2 ^ 62
product_small a b ha hb =
    let a_below : a ≤ 2 ^ 31 - 1 = omega arith in
    let b_below : b ≤ 2 ^ 31 - 1 = omega arith in omega (arith, mul-le-mul a_below b_below)

-- Division that rounds up.
abbrev ceiling : ℕ → ℕ → ℕ
ceiling x d = (x + d - 1) / d

ceiling_enough : (x d : ℕ) → 0 < d → x ≤ ceiling x d * d
ceiling_enough x d pos = omega (arith, div-add-mod' (x + d - 1) d, mod-lt (x + d - 1) pos)

-- One fewer would not do.
ceiling_tight : (x d : ℕ) → 0 < d → ceiling x d * d < x + d
ceiling_tight x d pos = omega (arith, div-mul-le_self (x + d - 1) d)

no_wrap :
    (x d : ℕ)
    → x < 2 ^ 62
    → 0 < d
    → d < 2 ^ 31
    → ((x % 2 ^ 64 + d + (2 ^ 64 - 1)) % 2 ^ 64 / d + 1) % 2 ^ 64 ≡ ceiling x d + 1
no_wrap x d hx pos hd =
    let inner : (x % 2 ^ 64 + d + (2 ^ 64 - 1)) % 2 ^ 64 ≡ x + d - 1 = omega arith in
    rw inner (mod-eq_of_lt (omega (arith, div-le_self (x + d - 1) d)))

-- What one pull asks of the source, for rates and buffers of less than 2 ^ 31: one frame more than k,
-- where k frames last as long as those of the device's buffer, and k - 1 do not.
pub frames_per_pull_lem :
    (s : Sink)
    → device_frames s < 2 ^ 31
    → s.source_format.sample_rate < 2 ^ 31
    → 0 < s.device_format.sample_rate
    → s.device_format.sample_rate < 2 ^ 31
    → (k : ℕ) × (frames_per_pull s ≡ k + 1)
      × (device_frames s * s.source_format.sample_rate ≤ k * s.device_format.sample_rate)
      × (k * s.device_format.sample_rate
          < device_frames s * s.source_format.sample_rate + s.device_format.sample_rate)
unfolding frames_per_pull
frames_per_pull_lem s hf hs pos hd =
    let x = device_frames s * s.source_format.sample_rate in
    let d = s.device_format.sample_rate in
    let small = product_small (device_frames s) s.source_format.sample_rate hf hs in
    (ceiling x d, no_wrap x d small pos hd, ceiling_enough x d pos, ceiling_tight x d pos)
