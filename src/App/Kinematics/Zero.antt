-- ===== src/App/Kinematics/Zero.antt =====
-- A command to stand still reaches every wheel as a zero.
use micro_ros_controller_fir.Prelude.{◌≡◌, refl, some, arith}
use micro_ros_controller_fir.Common.Real.{Float, IsZero, KeepsZero}
use micro_ros_controller_fir.Common.Clamp.{clamp, clamp-of_Within}
use micro_ros_controller_fir.Common.Types.{success, Motors, AllMotors, RobotCommand}
use micro_ros_controller_fir.Common.Params.{max_wheel_velocity_rad_s, wheel_radius_m}
use micro_ros_controller_fir.App.Kinematics.{
  turn_speed, unclamped_wheels, kinematics_compute_wheel_velocities,
}

module _ {F : Type 0} (fl : Float F) (ieee : KeepsZero fl) where
  open ieee use {
    zero_zero, add_zeros, sub_zeros, zero-mul, mul-zero, neg-mul-zero, zero-div, zero_below,
    zero_above,
  }

  clamp-IsZero : (x : F) → IsZero fl x → IsZero fl (clamp fl (max_wheel_velocity_rad_s fl) x)
  clamp-IsZero x h =
      rw
        (clamp-of_Within fl (max_wheel_velocity_rad_s fl) x
          (zero_below x 20 0 (omega arith) h, zero_above x 20 0 (omega arith) h))
        h

  turn-IsZero : (x : F) → IsZero fl x → IsZero fl (turn_speed fl x)
  unfolding turn_speed
  turn-IsZero x h = zero-div _ 2 0 (omega arith) (zero-mul x 30 2 (omega arith) h)

  pub wheels-IsZero :
      (cmd : RobotCommand F) (out : Motors F)
      → IsZero fl cmd.linear_x
      → IsZero fl cmd.angular_z
      → (w : Motors F) × (kinematics_compute_wheel_velocities fl (some cmd) (some out)
          ≡ (success, some w))
        × AllMotors (IsZero fl) w
  unfolding kinematics_compute_wheel_velocities unclamped_wheels
  wheels-IsZero cmd out h k = (_, refl, (left, right, left, right))
    where
      by_radius : (x : F) → IsZero fl x → IsZero fl (fl.div x (wheel_radius_m fl))
      by_radius x z = zero-div x 5 2 (omega arith) z

      left : IsZero fl (
          clamp fl (max_wheel_velocity_rad_s fl) (
            fl.mul
              (fl.decimal 1 0)
              (fl.div (fl.sub cmd.linear_x (turn_speed fl cmd.angular_z)) (wheel_radius_m fl))))
      left =
          clamp-IsZero _
            (mul-zero _ 1 0 (omega arith) (by_radius _ (sub_zeros _ _ h (turn-IsZero _ k))))

      right : IsZero fl (
          clamp fl (max_wheel_velocity_rad_s fl) (
            fl.mul
              (fl.neg (fl.decimal 1 0))
              (fl.div (fl.add cmd.linear_x (turn_speed fl cmd.angular_z)) (wheel_radius_m fl))))
      right =
          clamp-IsZero _
            (neg-mul-zero _ 1 0 (omega arith) (by_radius _ (add_zeros _ _ h (turn-IsZero _ k))))
