-- ===== src/App/Kinematics/Bounds.antt =====
-- How fast a wheel may be told to turn.
use micro_ros_controller_fir.Prelude.{◌≡◌, refl, some, arith}
use micro_ros_controller_fir.Common.Real.{Float, IsOrdered, IsNan, PropagatesNan}
use micro_ros_controller_fir.Common.Clamp.{clamp, Within, clamp-Within, nan-Within, clamp-of_Within}
use micro_ros_controller_fir.Common.Types.{success, Motors, AllMotors, RobotCommand}
use micro_ros_controller_fir.Common.Params.{max_wheel_velocity_rad_s, wheel_radius_m}
use micro_ros_controller_fir.App.Kinematics.{
  unclamped_wheels, kinematics_compute_wheel_velocities, turn_speed,
}

module _ {F : Type 0} (fl : Float F) where
  -- With the order of IEEE 754: every wheel velocity that the kinematics computes, for any command
  -- at all, is neither above the maximal wheel velocity nor below its negation, and the wheels of a
  -- side agree.
  pub wheels-Within :
      IsOrdered fl
      → (cmd : RobotCommand F) (out : Motors F)
      → (w : Motors F) × (kinematics_compute_wheel_velocities fl (some cmd) (some out)
          ≡ (success, some w))
        × AllMotors (Within fl (max_wheel_velocity_rad_s fl)) w
        × (w.front_left ≡ w.rear_left)
        × (w.front_right ≡ w.rear_right)
  unfolding kinematics_compute_wheel_velocities unclamped_wheels
  wheels-Within ieee cmd out = (_, refl, (limited _, limited _, limited _, limited _), refl, refl)
    where
      limited :
          (x : F)
          → Within fl (max_wheel_velocity_rad_s fl) (clamp fl (max_wheel_velocity_rad_s fl) x)
      limited x = clamp-Within fl ieee 20 0 x (omega arith) (omega arith)

  -- Where an operation on a NaN gives a NaN: a linear velocity that is a NaN reaches all four
  -- wheels; the limit does not stop it.
  pub wheels-IsNan :
      PropagatesNan fl
      → (cmd : RobotCommand F) (out : Motors F) → IsNan fl cmd.linear_x
      → (w : Motors F) × (kinematics_compute_wheel_velocities fl (some cmd) (some out)
          ≡ (success, some w))
        × AllMotors (IsNan fl) w
  unfolding kinematics_compute_wheel_velocities unclamped_wheels
  wheels-IsNan ieee cmd out h = (_, refl, (left _, right _, left _, right _))
    where
      open ieee use {add_left, sub_left, div_left, mul_right}

      keeps : (x : F) → IsNan fl x → IsNan fl (clamp fl (max_wheel_velocity_rad_s fl) x)
      keeps x n = rw (clamp-of_Within fl (max_wheel_velocity_rad_s fl) x (nan-Within fl _ x n)) n

      left :
          (s : F)
          → IsNan fl (
              clamp fl (max_wheel_velocity_rad_s fl) (
                fl.mul s
                  (fl.div (fl.sub cmd.linear_x (turn_speed fl cmd.angular_z)) (wheel_radius_m fl))))
      left s = keeps _ (mul_right _ _ (div_left _ _ (sub_left _ _ h)))

      right :
          (s : F)
          → IsNan fl (
              clamp fl (max_wheel_velocity_rad_s fl) (
                fl.mul s
                  (fl.div (fl.add cmd.linear_x (turn_speed fl cmd.angular_z)) (wheel_radius_m fl))))
      right s = keeps _ (mul_right _ _ (div_left _ _ (add_left _ _ h)))
