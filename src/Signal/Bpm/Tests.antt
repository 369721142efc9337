-- ===== src/Signal/Bpm/Tests.antt =====
-- A detector over whole numbers in place of floats.
use musi_tui.Base.{ℕ, ◌+◌, ◌-◌, ◌*◌, ◌/◌, ◌≡◌, refl, List, ◌++◌, ltb, [], ◌∷◌}
use musi_tui.Base.Tabulate.{tabulate}
use musi_tui.Base.Int.{ℤ, pos, pos_part}
use musi_tui.Signal.{Arithmetic, Floats}
use musi_tui.Signal.Bpm.{reset, set_rate, feed}
use musi_tui.Signal.Bpm.Stream.{feed-append}
use musi_tui.Signal.Bpm.Beats.{IsValid, feed_all, fed-IsValid}

-- Thousandths, none of them negative.
abbrev thousandths : Arithmetic ℕ
thousandths = record {
  ratio = λ p q. 1000 * p / q;
  of_int = λ z. 1000 * pos_part z;
  add = ◌+◌;
  sub = ◌-◌;
  mul = λ a b. a * b / 1000;
  div = λ a b. 1000 * a / b;
  lt = ltb;
  truncate = λ a. a / 1000;
}

abbrev floats : Floats
floats = record {
  Float = ℕ;
  Double = ℕ;
  float = thousandths;
  double = thousandths;
  narrow = λ x. x;
}

abbrev quiet_samples : List ℤ
quiet_samples = tabulate 40 (λ i. pos i)

abbrev loud_samples : List ℤ
loud_samples = tabulate 60 (λ i. pos (1000 * i))

feed-append_example :
    feed floats (quiet_samples ++ loud_samples) 2 500 (reset floats)
    ≡ feed floats loud_samples 2 500 (feed floats quiet_samples 2 500 (reset floats))
feed-append_example =
    feed-append floats 2 500 20 30 quiet_samples loud_samples (reset floats) refl refl

-- A silence, a window of noise, a silence, and a second window of noise: two beats are heard, and
-- one interval is counted.
abbrev steady : ℕ → ℕ → List ℤ
steady n level = tabulate n (λ i. pos level)

heard :
    let d =
      feed floats
        (steady 150 0 ++ steady 25 1000 ++ steady 150 0 ++ steady 25 1000)
        1
        500
        (reset floats) in
    ◌≡◌ {A = ℕ × ℕ} (d.last_beat_sample, d.intervals_collected) (350, 1)
unfolding feed reset set_rate
heard = refl

fed-IsValid_example :
    IsValid floats
      (feed_all floats ((loud_samples, 2, 500) ∷ (loud_samples, 1, 44100) ∷ []) (reset floats))
fed-IsValid_example = fed-IsValid floats ((loud_samples, 2, 500) ∷ (loud_samples, 1, 44100) ∷ [])
