-- ===== src/Base/Fixed.antt =====
-- Fixed-point numbers with four digits: an instance of the float interface on which tests run.
use Prim.Native.Nat.{ℕ, ◌+◌, ◌*◌, ◌/◌, ◌^◌}
use mathlib.Core.Option.{some}
use native.Mathlib.Omega.{arith}
use quant_dss.Base.Int.{ℤ, pos, negsuc, pos_part, neg_part, sub_ℕ, ltb_ℤ, leb_ℤ, eqb_ℤ}
use quant_dss.Base.Float.{Float, IsOrdered}

-- Division by a positive number, rounded down.
abbrev div_down : ℤ → ℕ → ℤ
div_down (pos a) b = pos (a / b)
div_down (negsuc a) b = negsuc (a / b)

abbrev divide_fixed : ℤ → ℤ → ℤ
divide_fixed a (pos b) = div_down (sub_ℕ (pos_part a * 10000) (neg_part a * 10000)) b
divide_fixed a (negsuc b) =
    div_down (sub_ℕ (neg_part a * 10000) (pos_part a * 10000)) (neg_part (negsuc b))

abbrev times : ℤ → ℤ → ℤ
times a b =
    sub_ℕ (pos_part a * pos_part b + neg_part a * neg_part b)
      (pos_part a * neg_part b + neg_part a * pos_part b)

instance abbrev pub fixed_float : Float ℤ
fixed_float = record {
  lit = λ m e. pos (m * 10000 / 10 ^ e);
  infinity = pos (10 ^ 30);
  of_int = λ n. sub_ℕ (pos_part n * 10000) (neg_part n * 10000);
  add = λ a b. sub_ℕ (pos_part a + pos_part b) (neg_part a + neg_part b);
  sub = λ a b. sub_ℕ (pos_part a + neg_part b) (neg_part a + pos_part b);
  mul = λ a b. div_down (times a b) 10000;
  quotient = divide_fixed;
  floor_div = λ a b. times (div_down (divide_fixed a b) 10000) (pos 10000);
  neg = λ a. sub_ℕ (neg_part a) (pos_part a);
  abs = λ a. pos (pos_part a + neg_part a);
  lt = ltb_ℤ;
  le = leb_ℤ;
  eq = eqb_ℤ;
  floor = λ a. some (div_down a 10000);
  round = λ d a. a;
}

pub fixed-IsOrdered : IsOrdered ℤ
fixed-IsOrdered = ground arith
