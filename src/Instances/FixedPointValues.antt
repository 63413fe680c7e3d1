-- ===== src/Instances/FixedPointValues.antt =====
-- What the fixed-point numbers do not round.
use micro_ros_controller_fir.Prelude.{ℕ, ◌≡◌, Bool, true, false, arith}
use micro_ros_controller_fir.Common.Real.{IsZero}
use micro_ros_controller_fir.App.Kinematics.Straight.{IsModerate, KeepsValue}
use micro_ros_controller_fir.Instances.FixedPoint.{
  Fixed, nan, num, scale, fixed, literal, add_fixed, neg_fixed, mul_fixed, div_fixed,
}
use micro_ros_controller_fir.Instances.FixedPointLaws.{magnitude_zero, neg-IsZero}

add_num_zero : (s t : Bool) (m : ℕ) → add_fixed (num s m) (num t 0) ≡ num s m
add_num_zero true true m = ground arith
add_num_zero true false m = ground arith
add_num_zero false true m = ground arith
add_num_zero false false m = ground arith

add_zero : (x y : Fixed) → IsModerate fixed x → IsZero fixed y → add_fixed x y ≡ x
add_zero nan y h k = absurd (cc)
add_zero (num s m) nan h k = absurd (cc)
add_zero (num s m) (num t n) h k = rw (magnitude_zero t n k) (add_num_zero s t m)

plus_undone :
    (x : Fixed) → IsModerate fixed x → div_fixed (mul_fixed (literal 1 0) x) (literal 1 0) ≡ x
unfolding scale
plus_undone nan h = absurd (cc)
plus_undone (num true m) h = ground arith
plus_undone (num false m) h = ground arith

minus_undone :
    (x : Fixed)
    → IsModerate fixed x
    → div_fixed (mul_fixed (neg_fixed (literal 1 0)) x) (neg_fixed (literal 1 0)) ≡ x
unfolding scale
minus_undone nan h = absurd (cc)
minus_undone (num true m) h = ground arith
minus_undone (num false m) h = ground arith

half_double : (x : Fixed) → IsModerate fixed x → div_fixed (add_fixed x x) (literal 2 0) ≡ x
unfolding scale
half_double nan h = absurd (cc)
half_double (num true m) h = ground arith
half_double (num false m) h = ground arith

sub_self : (x : Fixed) → IsModerate fixed x → IsZero fixed (add_fixed x (neg_fixed x))
unfolding scale
sub_self nan h = absurd (cc)
sub_self (num true m) h = ground arith
sub_self (num false m) h = ground arith

pub fixed-KeepsValue : KeepsValue fixed
fixed-KeepsValue = record {
  add_zero = λ x y h n k. add_zero x y h k;
  sub_zero = λ x y h n k. add_zero x (neg_fixed y) h (neg-IsZero y k);
  plus_undone = plus_undone;
  minus_undone = minus_undone;
  half_double = half_double;
  sub_self = sub_self;
}
