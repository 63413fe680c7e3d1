-- ===== src/Instances/FixedPointLaws.antt =====
-- The fixed-point numbers satisfy what is assumed of `float`.
use micro_ros_controller_fir.Prelude.{
  ℕ, zero, suc, ◌-◌, ◌*◌, ◌<◌, ◌≡◌, refl, Bool, true, false, arith,
}
use micro_ros_controller_fir.Common.Real.{IsOrdered, IsNan, PropagatesNan, IsZero, KeepsZero}
use micro_ros_controller_fir.Instances.FixedPoint.{
  Fixed, nan, num, scale, fixed, lt_fixed, add_fixed, neg_fixed, mul_fixed, div_fixed,
  mul_magnitude, differ,
}

scale-pos : (k m : ℕ) → 0 < m → 0 < scale k m
unfolding scale
scale-pos zero m h = h
scale-pos (suc k) m h = scale-pos k (m * 10) (omega arith)

scale_zero : (k : ℕ) → scale k 0 ≡ 0
unfolding scale
scale_zero zero = refl
scale_zero (suc k) = scale_zero k

lt_fixed_irrefl : (x : Fixed) → lt_fixed x x ≡ false
lt_fixed_irrefl nan = refl
lt_fixed_irrefl (num true m) = ground arith
lt_fixed_irrefl (num false m) = ground arith

lt_fixed_asymm : (x y : Fixed) → lt_fixed x y ≡ true → lt_fixed y x ≡ false
lt_fixed_asymm nan y h = ground arith
lt_fixed_asymm (num s m) nan h = refl
lt_fixed_asymm (num s m) (num t n) h = ground arith

pub fixed-IsOrdered : IsOrdered fixed
fixed-IsOrdered = record {
  lt_irrefl = lt_fixed_irrefl;
  lt_asymm = lt_fixed_asymm;
  zero-lt = λ m e h k. ground (arith, scale-pos (9 - e) m h, scale_zero 9);
  neg-lt-zero = λ m e h k. ground (arith, scale-pos (9 - e) m h, scale_zero 9);
  neg-lt = λ m e h k. ground (arith, scale-pos (9 - e) m h);
}

pub nan-IsNan : IsNan fixed nan
nan-IsNan nan = (refl, refl)
nan-IsNan (num s m) = (refl, refl)

num_not-IsNan : (s : Bool) (m : ℕ) → ¬ IsNan fixed (num s m)
num_not-IsNan s m h = ground (arith, h (num false (suc m)))

mul_nan : (x : Fixed) → mul_fixed x nan ≡ nan
mul_nan nan = refl
mul_nan (num s m) = refl

add_left-IsNan : (x y : Fixed) → IsNan fixed x → IsNan fixed (fixed.add x y)
add_left-IsNan nan y h = nan-IsNan
add_left-IsNan (num s m) y h = absurd (num_not-IsNan s m h)

sub_left-IsNan : (x y : Fixed) → IsNan fixed x → IsNan fixed (fixed.sub x y)
sub_left-IsNan nan y h = nan-IsNan
sub_left-IsNan (num s m) y h = absurd (num_not-IsNan s m h)

div_left-IsNan : (x y : Fixed) → IsNan fixed x → IsNan fixed (fixed.div x y)
div_left-IsNan nan y h = nan-IsNan
div_left-IsNan (num s m) y h = absurd (num_not-IsNan s m h)

mul_right-IsNan : (x y : Fixed) → IsNan fixed y → IsNan fixed (fixed.mul x y)
mul_right-IsNan x nan h = rw (mul_nan x) nan-IsNan
mul_right-IsNan x (num s m) h = absurd (num_not-IsNan s m h)

pub fixed-PropagatesNan : PropagatesNan fixed
fixed-PropagatesNan = record {
  add_left = add_left-IsNan;
  sub_left = sub_left-IsNan;
  div_left = div_left-IsNan;
  mul_right = mul_right-IsNan;
}

-- A zero is one of the two zeros.
pub magnitude_zero : (s : Bool) (m : ℕ) → IsZero fixed (num s m) → m ≡ 0
magnitude_zero true m h = ground (arith, scale_zero 9)
magnitude_zero false m h = ground (arith, scale_zero 9)

IsZero-magnitude : (s : Bool) → IsZero fixed (num s 0)
IsZero-magnitude true = ground (arith, scale_zero 9)
IsZero-magnitude false = ground (arith, scale_zero 9)

-- The product of a literal and a zero, and their quotient, are zeros; so is a sum of zeros.
mul_magnitude_zero : (n : ℕ) → mul_magnitude n 0 ≡ 0
mul_magnitude_zero n = ground arith

IsZero-mul_num :
    (x : Fixed) (t : Bool) (n : ℕ) → IsZero fixed x → IsZero fixed (mul_fixed x (num t n))
IsZero-mul_num nan t n h = ground arith
IsZero-mul_num (num s m) t n h = rw (magnitude_zero s m h) (IsZero-magnitude _)

num_mul-IsZero :
    (x : Fixed) (t : Bool) (n : ℕ) → IsZero fixed x → IsZero fixed (mul_fixed (num t n) x)
num_mul-IsZero nan t n h = ground arith
num_mul-IsZero (num s m) t n h =
    rw (magnitude_zero s m h, mul_magnitude_zero n) (IsZero-magnitude _)

IsZero-div_num :
    (x : Fixed) (t : Bool) (n : ℕ) → 0 < n → IsZero fixed x → IsZero fixed (div_fixed x (num t n))
IsZero-div_num nan t n p h = ground arith
IsZero-div_num (num s m) t zero p h = elim p [ ]
IsZero-div_num (num s m) t (suc n) p h = rw (magnitude_zero s m h) (IsZero-magnitude (differ s t))

add_signed_zeros : (s t : Bool) → IsZero fixed (add_fixed (num s 0) (num t 0))
add_signed_zeros true true = IsZero-magnitude true
add_signed_zeros true false = IsZero-magnitude true
add_signed_zeros false true = IsZero-magnitude false
add_signed_zeros false false = IsZero-magnitude false

add_zeros : (x y : Fixed) → IsZero fixed x → IsZero fixed y → IsZero fixed (add_fixed x y)
add_zeros nan y h k = ground arith
add_zeros (num s m) nan h k = ground arith
add_zeros (num s m) (num t n) h k =
    rw (magnitude_zero s m h, magnitude_zero t n k) (add_signed_zeros s t)

pub neg-IsZero : (x : Fixed) → IsZero fixed x → IsZero fixed (neg_fixed x)
neg-IsZero nan h = ground arith
neg-IsZero (num s m) h = rw (magnitude_zero s m h) (IsZero-magnitude _)

no_zero_below : (x : Fixed) (n : ℕ) → IsZero fixed x → lt_fixed (num false n) x ≡ false
no_zero_below nan n h = refl
no_zero_below (num true m) n h = refl
no_zero_below (num false m) n h = ground (arith, magnitude_zero false m h)

no_zero_above : (x : Fixed) (n : ℕ) → IsZero fixed x → lt_fixed x (num true n) ≡ false
no_zero_above nan n h = refl
no_zero_above (num false m) n h = refl
no_zero_above (num true m) n h = ground (arith, magnitude_zero true m h)

pub fixed-KeepsZero : KeepsZero fixed
fixed-KeepsZero = record {
  zero_zero = ground (arith, scale_zero 9);
  add_zeros = add_zeros;
  sub_zeros = λ x y h k. add_zeros x (neg_fixed y) h (neg-IsZero y k);
  zero-mul = λ x m e n h. IsZero-mul_num x false (scale (9 - e) m) h;
  mul-zero = λ x m e n h. num_mul-IsZero x false (scale (9 - e) m) h;
  neg-mul-zero = λ x m e n h. num_mul-IsZero x true (scale (9 - e) m) h;
  zero-div = λ x m e n h. IsZero-div_num x false (scale (9 - e) m) (scale-pos (9 - e) m n.0) h;
  zero_below = λ x m e n h. no_zero_below x (scale (9 - e) m) h;
  zero_above = λ x m e n h. no_zero_above x (scale (9 - e) m) h;
}
