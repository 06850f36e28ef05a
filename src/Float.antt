-- ===== src/Float.antt =====
-- Go's `float64`, which has no definition here: the type and the operations that the program
-- uses are a parameter. The comparisons are Boolean functions under no law, so that a NaN is
-- covered.
use tiflash_autoscale.Prelude.{ℕ, Bool}
use tiflash_autoscale.Prelude.{ℤ}

pub record Float64 : Type 1 where
  pub Float : Type 0
  pub of_int : ℤ → Float
  -- The literal with the digits of the first number, shifted by that many decimal places.
  pub lit : ℕ → ℕ → Float
  pub add : Float → Float → Float
  pub sub : Float → Float → Float
  pub mul : Float → Float → Float
  pub div : Float → Float → Float
  pub lt : Float → Float → Bool
  pub le : Float → Float → Bool
  pub eq : Float → Float → Bool
  -- The conversion `int(x)`, and `math.Round`.
  pub to_int : Float → ℤ
  pub round : Float → Float
