-- ===== src/Common/Clamp.antt =====
-- The limiting of a value to a symmetric range, which robot_command.c writes out for each velocity
-- and kinematics.c for each wheel.
use micro_ros_controller_fir.Prelude.{ℕ, ◌≤◌, ◌<◌, ◌≡◌, false, arith, if◌then◌else◌}
use micro_ros_controller_fir.Common.Real.{Float, IsOrdered, IsNan}
use micro_ros_controller_fir.Common.Params.{zero_f}

module _ {F : Type 0} (fl : Float F) where
  open fl use {lt, neg, decimal}

  unfoldable pub clamp : F → F → F
  clamp limit x = if lt limit x then limit else if lt x (neg limit) then neg limit else x

  -- Neither above the limit nor below its negation; a NaN is neither.
  abbrev pub Within : F → F → Type 0
  Within limit x = (lt limit x ≡ false) × (lt x (neg limit) ≡ false)

  pub clamp-of_Within : (limit x : F) → Within limit x → clamp limit x ≡ x
  unfolding clamp
  clamp-of_Within limit x h = ground arith

  pub nan-Within : (limit x : F) → IsNan fl x → Within limit x
  nan-Within limit x h = ((h limit).1, (h (neg limit)).0)

  module _ (ieee : IsOrdered fl) where
    open ieee use {lt_irrefl, lt_asymm, zero-lt, neg-lt-zero, neg-lt}

    pub clamp-Within :
        (m e : ℕ) (x : F) → 0 < m → e ≤ 9 → Within (decimal m e) (clamp (decimal m e) x)
    unfolding clamp
    clamp-Within m e x h k = ground (
      arith,
      lt_irrefl (decimal m e),
      lt_irrefl (neg (decimal m e)),
      neg-lt m e h k,
      lt_asymm (neg (decimal m e)) (decimal m e),
    )

    pub zero-Within : (m e : ℕ) → 0 < m → e ≤ 9 → Within (decimal m e) (zero_f fl)
    zero-Within m e h k = (
      lt_asymm (zero_f fl) (decimal m e) (zero-lt m e h k),
      lt_asymm (neg (decimal m e)) (zero_f fl) (neg-lt-zero m e h k),
    )
