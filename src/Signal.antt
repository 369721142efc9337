-- ===== src/Signal.antt =====
-- The analysers of src/decode. Their floating-point numbers are a parameter: two types with the
-- operations that the code uses.
pub mod Bpm
use musi_tui.Base.{ℕ, Bool}
use musi_tui.Base.Int.{ℤ}

-- The operations on `float`, or on `double`; `ratio p q` is the number nearest to p / q.
pub record Arithmetic (F : Type 0) : Type 0 where
  pub ratio : ℕ → ℕ → F
  pub of_int : ℤ → F
  pub add : F → F → F
  pub sub : F → F → F
  pub mul : F → F → F
  pub div : F → F → F
  pub lt : F → F → Bool
  pub truncate : F → ℕ

pub record Floats : Type 1 where
  pub Float : Type 0
  pub Double : Type 0
  pub float : Arithmetic Float
  pub double : Arithmetic Double
  pub narrow : Double → Float
