-- ===== src/Common/Real.antt =====
-- The C types `float` and `double`, which antt does not have: the operations that the code uses, as
-- parameters. `F` stands for `float` and `D` for `double`.
use micro_ros_controller_fir.Prelude.{ℕ, ◌<◌, ◌≤◌, ◌≡◌, Bool, true, false}
use micro_ros_controller_fir.Prelude.Int.{ℤ}

-- `decimal m e` is the literal m · 10^-e, so `decimal 105 1` is `10.5f`.
pub record Float (F : Type 0) : Type 0 where
  pub decimal : ℕ → ℕ → F
  pub add : F → F → F
  pub sub : F → F → F
  pub mul : F → F → F
  pub div : F → F → F
  pub neg : F → F
  pub lt : F → F → Bool
  pub ne : F → F → Bool

-- Conversions between the two types, and what the code does with a `double`.
pub record Convert (F D : Type 0) : Type 0 where
  pub widen : F → D
  pub narrow : D → F
  pub of_int : ℤ → D
  pub div_double : D → D → D
  pub double : ℕ → ℕ → D
  pub neg_double : D → D

-- What IEEE 754 says of `<`: it is irreflexive and asymmetric, a NaN included, and zero lies strictly
-- between a positive literal (that does not underflow) and its negation, which are in that order.
pub record IsOrdered {F : Type 0} (fl : Float F) : Type 0 where
  pub lt_irrefl : (x : F) → fl.lt x x ≡ false
  pub lt_asymm : (x y : F) → fl.lt x y ≡ true → fl.lt y x ≡ false
  pub zero-lt : (m e : ℕ) → 0 < m → e ≤ 9 → fl.lt (fl.decimal 0 0) (fl.decimal m e) ≡ true
  pub neg-lt-zero :
      (m e : ℕ) → 0 < m → e ≤ 9 → fl.lt (fl.neg (fl.decimal m e)) (fl.decimal 0 0) ≡ true
  pub neg-lt : (m e : ℕ) → 0 < m → e ≤ 9 → fl.lt (fl.neg (fl.decimal m e)) (fl.decimal m e) ≡ true

-- A value that is unordered with every value.
abbrev pub IsNan : {F : Type 0} → Float F → F → Type 0
IsNan fl x = (y : _) → (fl.lt x y ≡ false) × (fl.lt y x ≡ false)

-- What IEEE 754 says of NaN: an operation on it gives it.
pub record PropagatesNan {F : Type 0} (fl : Float F) : Type 0 where
  pub add_left : (x y : F) → IsNan fl x → IsNan fl (fl.add x y)
  pub sub_left : (x y : F) → IsNan fl x → IsNan fl (fl.sub x y)
  pub div_left : (x y : F) → IsNan fl x → IsNan fl (fl.div x y)
  pub mul_right : (x y : F) → IsNan fl y → IsNan fl (fl.mul x y)

-- A literal that neither underflows nor overflows, and is not zero.
abbrev pub IsNormal : ℕ → ℕ → Type 0
IsNormal m e = (0 < m) × (m ≤ 1_000_000_000) × (e ≤ 9)

-- `x == 0.0f`, which holds of the negative zero too.
abbrev pub IsZero : {F : Type 0} → Float F → F → Type 0
IsZero fl x = fl.ne x (fl.decimal 0 0) ≡ false

-- What IEEE 754 says of the two zeros.
pub record KeepsZero {F : Type 0} (fl : Float F) : Type 0 where
  pub zero_zero : IsZero fl (fl.decimal 0 0)
  pub add_zeros : (x y : F) → IsZero fl x → IsZero fl y → IsZero fl (fl.add x y)
  pub sub_zeros : (x y : F) → IsZero fl x → IsZero fl y → IsZero fl (fl.sub x y)
  pub zero-mul :
      (x : F) (m e : ℕ) → IsNormal m e → IsZero fl x → IsZero fl (fl.mul x (fl.decimal m e))
  pub mul-zero :
      (x : F) (m e : ℕ) → IsNormal m e → IsZero fl x → IsZero fl (fl.mul (fl.decimal m e) x)
  pub neg-mul-zero :
      (x : F) (m e : ℕ)
      → IsNormal m e
      → IsZero fl x
      → IsZero fl (fl.mul (fl.neg (fl.decimal m e)) x)
  pub zero-div :
      (x : F) (m e : ℕ) → IsNormal m e → IsZero fl x → IsZero fl (fl.div x (fl.decimal m e))
  pub zero_below : (x : F) (m e : ℕ) → IsNormal m e → IsZero fl x → fl.lt (fl.decimal m e) x ≡ false
  pub zero_above :
      (x : F) (m e : ℕ) → IsNormal m e → IsZero fl x → fl.lt x (fl.neg (fl.decimal m e)) ≡ false
