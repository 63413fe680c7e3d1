-- ===== src/Instances/FixedPoint.antt =====
-- A stand-in for `float` and `double` in the tests: a sign and a magnitude in units of 10^-9, so that
-- zero has two signs, and a NaN. Results are cut off towards zero.
use micro_ros_controller_fir.Prelude.{
  ℕ, zero, suc, ◌+◌, ◌-◌, ◌*◌, ◌/◌, Bool, true, false, not, ◌||◌, ltb, leb, ◌==◌, if◌then◌else◌,
}
use micro_ros_controller_fir.Prelude.Int.{ℤ, pos, negsuc}
use micro_ros_controller_fir.Common.Real.{Float, Convert}

pub data Fixed : Type 0 where
  nan : Fixed
  num : (is_negative : Bool) → (magnitude : ℕ) → Fixed

-- m · 10^k
unfoldable pub scale : ℕ → ℕ → ℕ
scale zero m = m
scale (suc k) m = scale k (m * 10)

abbrev pub differ : Bool → Bool → Bool
differ true b = not b
differ false b = b

abbrev pub add_signed : Bool → ℕ → Bool → ℕ → Fixed
add_signed s m t n =
    if differ s t then (if leb n m then num s (m - n) else num t (n - m)) else num s (m + n)

abbrev pub mul_magnitude : ℕ → ℕ → ℕ
mul_magnitude m n = if m == 0 || n == 0 then 0 else m * n / 1_000_000_000

abbrev pub div_magnitude : ℕ → ℕ → ℕ
div_magnitude m n = if m == 0 then 0 else m * 1_000_000_000 / n

abbrev pub neg_fixed : Fixed → Fixed
neg_fixed nan = nan
neg_fixed (num s m) = num (not s) m

abbrev pub add_fixed : Fixed → Fixed → Fixed
add_fixed nan y = nan
add_fixed (num s m) nan = nan
add_fixed (num s m) (num t n) = add_signed s m t n

abbrev pub mul_fixed : Fixed → Fixed → Fixed
mul_fixed nan y = nan
mul_fixed (num s m) nan = nan
mul_fixed (num s m) (num t n) = num (differ s t) (mul_magnitude m n)

abbrev pub div_fixed : Fixed → Fixed → Fixed
div_fixed nan y = nan
div_fixed (num s m) nan = nan
div_fixed (num s m) (num t zero) = nan
div_fixed (num s m) (num t (suc n)) = num (differ s t) (div_magnitude m (suc n))

abbrev pub lt_fixed : Fixed → Fixed → Bool
lt_fixed nan y = false
lt_fixed (num s m) nan = false
lt_fixed (num false m) (num false n) = ltb m n
lt_fixed (num true m) (num true n) = ltb n m
lt_fixed (num true m) (num false n) = ltb 0 (m + n)
lt_fixed (num false m) (num true n) = false

abbrev pub ne_fixed : Fixed → Fixed → Bool
ne_fixed nan y = true
ne_fixed (num s m) nan = true
ne_fixed (num s m) (num t n) = lt_fixed (num s m) (num t n) || lt_fixed (num t n) (num s m)

abbrev pub literal : ℕ → ℕ → Fixed
literal m e = num false (scale (9 - e) m)

abbrev pub fixed : Float Fixed
fixed = record {
  decimal = literal;
  add = add_fixed;
  sub = λ x y. add_fixed x (neg_fixed y);
  mul = mul_fixed;
  div = div_fixed;
  neg = neg_fixed;
  lt = lt_fixed;
  ne = ne_fixed;
}

abbrev pub of_ℤ : ℤ → Fixed
of_ℤ (pos n) = literal n 0
of_ℤ (negsuc n) = neg_fixed (literal (suc n) 0)

abbrev pub fixed_conversions : Convert Fixed Fixed
fixed_conversions = record {
  widen = λ x. x;
  narrow = λ x. x;
  of_int = of_ℤ;
  div_double = div_fixed;
  double = literal;
  neg_double = neg_fixed;
}
