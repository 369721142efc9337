-- ===== src/Base/TextOrder.antt =====
-- The order of byte strings.
use mathlib.Core.Path.{◌≡◌, refl}
use mathlib.Core.Logic.{◌⊎◌, inl, inr}
use mathlib.Core.Bool.{true, false}
use mathlib.Core.List.{[], ◌∷◌}
use native.Mathlib.Omega.{arith}
use musi_tui.Base.Tests.{Bool-cases}
use musi_tui.Base.Text.{Text, text_lt, text_eq, text_eq→eq}

pub text_lt_trans : (s t u : Text) → text_lt s t ≡ true → text_lt t u ≡ true → text_lt s u ≡ true
unfolding text_lt
text_lt_trans s t [] h k = cc
text_lt_trans s [] (c ∷ u) h k = cc
text_lt_trans [] (b ∷ t) (c ∷ u) h k = refl
text_lt_trans (a ∷ s) (b ∷ t) (c ∷ u) h k = ground (arith, text_lt_trans s t u)

pub text_lt_asym : (s t : Text) → text_lt s t ≡ true → text_lt t s ≡ false
unfolding text_lt
text_lt_asym s [] h = cc
text_lt_asym [] (b ∷ t) h = refl
text_lt_asym (a ∷ s) (b ∷ t) h = ground (arith, text_lt_asym s t)

pub text_lt_not_eq : (s t : Text) → text_lt s t ≡ true → text_eq t s ≡ false
unfolding text_lt
text_lt_not_eq s [] h = cc
text_lt_not_eq [] (b ∷ t) h = refl
text_lt_not_eq (a ∷ s) (b ∷ t) h = ground (arith, text_lt_not_eq s t)

-- Of two keys, one is before the other, or they are the same.
pub text_lt_total : (s t : Text) → text_eq s t ≡ false → text_lt s t ≡ false → text_lt t s ≡ true
unfolding text_lt
text_lt_total [] [] e h = cc
text_lt_total [] (b ∷ t) e h = cc
text_lt_total (a ∷ s) [] e h = refl
text_lt_total (a ∷ s) (b ∷ t) e h = ground (arith, text_lt_total s t)

pub text_lt_irrefl : (s : Text) → text_lt s s ≡ false
unfolding text_lt
text_lt_irrefl [] = refl
text_lt_irrefl (a ∷ s) = ground (arith, text_lt_irrefl s)

-- How two texts stand to each other, by the tests that the code makes.
abbrev pub Before : Text → Text → Type 0
Before s t = text_lt s t ≡ true

pub text_order : (s t : Text) → (Before s t) ⊎ ((s ≡ t) ⊎ (Before t s))
text_order s t = elim (Bool-cases (text_lt s t)) [
  | inl before ↦ inl before
  | inr other ↦ elim (Bool-cases (text_eq s t)) [
    | inl same ↦ inr (inl (text_eq→eq s t same))
    | inr different ↦ inr (inr (text_lt_total s t different other))
  ]
]
