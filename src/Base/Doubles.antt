-- ===== src/Base/Doubles.antt =====
-- The type double, as far as the code uses it: whole numbers, products, quotients, and the test
-- whether a number is positive.
use Prim.Native.Nat.{ℕ}
use mathlib.Core.Bool.{Bool}

pub record Double : Type 1 where
  pub D : Type 0
  pub whole : ℕ → D
  pub times : D → D → D
  pub over : D → D → D
  pub positive : D → Bool
