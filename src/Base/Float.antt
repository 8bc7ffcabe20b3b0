-- ===== src/Base/Float.antt =====
-- Python's `float`, which the program takes from the machine: the operations that the code calls,
-- as an interface, and the order laws of numbers that are not NaN.
use Prim.Native.Nat.{ℕ}
use mathlib.Core.Path.{◌≡◌}
use mathlib.Core.Logic.{◌⊎◌}
use mathlib.Core.Bool.{Bool, true, not}
use mathlib.Core.Option.{Option}
use quant_dss.Base.Int.{ℤ}
use quant_dss.Base.Tests.{if◌then◌else◌}

pub record Float (W : Type 0) : Type 0 where
  -- The literal m · 10^-e.
  pub lit : ℕ → ℕ → W
  -- `float("inf")`
  pub infinity : W
  pub of_int : ℤ → W
  pub add : W → W → W
  pub sub : W → W → W
  pub mul : W → W → W
  -- `a / b` where `b` is not zero; Python raises ZeroDivisionError otherwise.
  pub quotient : W → W → W
  -- `a // b` where `b` is not zero.
  pub floor_div : W → W → W
  pub neg : W → W
  pub abs : W → W
  pub lt : W → W → Bool
  pub le : W → W → Bool
  pub eq : W → W → Bool
  -- `math.floor`, which raises on an infinity and on NaN.
  pub floor : W → Option ℤ
  -- `round(x, digits)`
  pub round : ℕ → W → W

-- The comparisons of IEEE 754. NaN is the value that is not `<=` itself.
pub record IsOrdered (W : Type 0) ⦃f : Float W⦄ : Type 0 where
  pub le_refl_left : (x y : W) → f.le x y ≡ true → f.le x x ≡ true
  pub le_refl_right : (x y : W) → f.le x y ≡ true → f.le y y ≡ true
  pub le_trans : (x y z : W) → f.le x y ≡ true → f.le y z ≡ true → f.le x z ≡ true
  pub lt-eq-not-le : (x y : W) → f.le x x ≡ true → f.le y y ≡ true → f.lt x y ≡ not (f.le y x)
  pub lt-le : (x y : W) → f.lt x y ≡ true → f.le x y ≡ true
  pub le_total :
      (x y : W) → f.le x x ≡ true → f.le y y ≡ true → (f.le x y ≡ true) ⊎ (f.le y x ≡ true)

module _ {W : Type 0} ⦃f : Float W⦄ where
  abbrev pub nought : W
  nought = f.lit 0 0

  -- `min(a, b)` and `max(a, b)` keep the first of two values that compare equal.
  abbrev pub min : W → W → W
  min a b = if f.lt b a then b else a

  abbrev pub max : W → W → W
  max a b = if f.lt a b then b else a
