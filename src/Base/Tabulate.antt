-- ===== src/Base/Tabulate.antt =====
-- Lists given by a function of the index, for buffers that are read in another order.
use musi_tui.Base.Lists.{length, get_or, take, drop}
use Prim.Native.Nat.{ℕ, zero, suc, ◌+◌, ◌-◌, ◌≤◌, ◌<◌}
use mathlib.Core.Path.{◌≡◌, refl, ap, ap₂, ◌∙◌}
use mathlib.Core.List.{List, [], ◌∷◌, ◌++◌}
use native.Mathlib.Omega.{arith}

module _ {ℓ} {A : Type ℓ} where
  abbrev pub tabulate : ℕ → (ℕ → A) → List A
  tabulate zero f = []
  tabulate (suc n) f = f 0 ∷ tabulate n (λ j. f (suc j))

  pub tabulate_ext :
      (n : ℕ) (f g : ℕ → A) → ((j : ℕ) → j < n → f j ≡ g j) → tabulate n f ≡ tabulate n g
  tabulate_ext zero f g h = refl
  tabulate_ext (suc n) f g h =
      ap₂ ◌∷◌ (h 0 (omega arith))
        (tabulate_ext n (λ j. f (suc j)) (λ j. g (suc j)) (λ j b. h (suc j) (omega arith)))

  pub tabulate-add :
      (n m : ℕ) (f : ℕ → A) → tabulate n f ++ tabulate m (λ j. f (n + j)) ≡ tabulate (n + m) f
  tabulate-add zero m f =
      tabulate_ext m (λ j. f (0 + j)) f (λ j b. ap f (omega arith))
      ∙ ap (λ t. tabulate t f) (omega arith)
  tabulate-add (suc n) m f =
      ap (λ t. f 0 ∷ t)
        (ap (λ t. tabulate n (λ j. f (suc j)) ++ t)
            (tabulate_ext m (λ j. f (suc n + j)) (λ j. f (suc (n + j))) (λ j b. ap f (omega arith)))
          ∙ tabulate-add n m (λ j. f (suc j)))
      ∙ ap (λ t. tabulate t f) {x = suc (n + m)} (omega arith)

  pub take-tabulate : (t n : ℕ) (f : ℕ → A) → t ≤ n → take t (tabulate n f) ≡ tabulate t f
  take-tabulate zero n f h = refl
  take-tabulate (suc t) zero f h = absurd (omega arith)
  take-tabulate (suc t) (suc n) f h = ap (λ r. f 0 ∷ r) (take-tabulate t n _ (omega arith))

  pub drop-tabulate :
      (t n : ℕ) (f : ℕ → A) → t ≤ n → drop t (tabulate n f) ≡ tabulate (n - t) (λ j. f (t + j))
  drop-tabulate zero n f h =
      ap (λ t. tabulate t f) (omega arith) ∙ tabulate_ext (n - 0) f _ (λ j b. ap f (omega arith))
  drop-tabulate (suc t) zero f h = absurd (omega arith)
  drop-tabulate (suc t) (suc n) f h =
      drop-tabulate t n (λ j. f (suc j)) (omega arith)
      ∙ tabulate_ext (n - t) _ _ (λ j b. ap f (omega arith))
      ∙ ap (λ k. tabulate k (λ j. f (suc t + j))) (omega arith)

  pub length-tabulate : (n : ℕ) (f : ℕ → A) → length (tabulate n f) ≡ n
  length-tabulate zero f = refl
  length-tabulate (suc n) f = ap suc (length-tabulate n (λ j. f (suc j)))

  pub take-eq-tabulate :
      (n : ℕ) (xs : List A) (d : A) → n ≤ length xs → take n xs ≡ tabulate n (λ j. get_or xs j d)
  take-eq-tabulate zero xs d h = refl
  take-eq-tabulate (suc n) [] d h = absurd (omega arith)
  take-eq-tabulate (suc n) (x ∷ xs) d h = ap (λ r. x ∷ r) (take-eq-tabulate n xs d (omega arith))

  pub get_or-take : (n i : ℕ) (xs : List A) (d : A) → i < n → get_or (take n xs) i d ≡ get_or xs i d
  get_or-take zero i xs d h = absurd (omega arith)
  get_or-take (suc n) i [] d h = refl
  get_or-take (suc n) zero (x ∷ xs) d h = refl
  get_or-take (suc n) (suc i) (x ∷ xs) d h = get_or-take n i xs d (omega arith)

  pub get_or-drop : (n i : ℕ) (xs : List A) (d : A) → get_or (drop n xs) i d ≡ get_or xs (n + i) d
  get_or-drop zero i xs d = ap (λ j. get_or xs j d) (omega arith)
  get_or-drop (suc n) i [] d = refl
  get_or-drop (suc n) i (x ∷ xs) d =
      get_or-drop n i xs d ∙ ap (λ j. get_or (x ∷ xs) j d) {x = suc (n + i)} (omega arith)
