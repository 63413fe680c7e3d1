-- ===== src/App/Kinematics.antt =====
-- Skid-steer kinematics (apps/rover_controller/src/app/kinematics.c). A pointer that the code compares
-- with NULL is an `Option`; an output array is what stands in it after the call.
pub mod Bounds
pub mod Straight
mod Tests
pub mod Zero
use micro_ros_controller_fir.Prelude.{Option, none, some}
use micro_ros_controller_fir.Common.Real.{Float}
use micro_ros_controller_fir.Common.Clamp.{clamp}
use micro_ros_controller_fir.Common.Types.{
  Errno, einval, Rc, success, failure, Motors, for_motors, RobotCommand, RobotTwist,
}
use micro_ros_controller_fir.Common.Params.{
  wheel_radius_m, track_width_m, direction_signs, max_wheel_velocity_rad_s,
}

module _ {F : Type 0} (fl : Float F) where
  open fl use {add, sub, mul, div, decimal}

  -- `omega * ROVER_TRACK_WIDTH_M / 2.0f`
  unfoldable pub turn_speed : F → F
  turn_speed omega = div (mul omega (track_width_m fl)) (decimal 2 0)

  -- The two sides, before the limit.
  unfoldable pub unclamped_wheels : RobotCommand F → Motors F
  unfolding turn_speed
  unclamped_wheels cmd =
      let v = cmd.linear_x in
      let omega = cmd.angular_z in
      let v_left = sub v (turn_speed omega) in
      let v_right = add v (turn_speed omega) in
      record {
        front_left = mul (direction_signs fl).front_left (div v_left (wheel_radius_m fl));
        front_right = mul (direction_signs fl).front_right (div v_right (wheel_radius_m fl));
        rear_left = mul (direction_signs fl).rear_left (div v_left (wheel_radius_m fl));
        rear_right = mul (direction_signs fl).rear_right (div v_right (wheel_radius_m fl));
      }

  unfoldable pub kinematics_compute_wheel_velocities :
      Option (RobotCommand F) → Option (Motors F) → Rc × Option (Motors F)
  kinematics_compute_wheel_velocities none out = (failure einval, out)
  kinematics_compute_wheel_velocities (some cmd) none = (failure einval, none)
  kinematics_compute_wheel_velocities (some cmd) (some out) =
      (success, some (for_motors (clamp fl (max_wheel_velocity_rad_s fl)) (unclamped_wheels cmd)))

  unfoldable pub kinematics_compute_twist :
      Option (Motors F) → Option (RobotTwist F) → Rc × Option (RobotTwist F)
  kinematics_compute_twist none out = (failure einval, out)
  kinematics_compute_twist (some wheels) none = (failure einval, none)
  kinematics_compute_twist (some wheels) (some out) =
      let w_fl = div wheels.front_left (direction_signs fl).front_left in
      let w_fr = div wheels.front_right (direction_signs fl).front_right in
      let v_left = mul w_fl (wheel_radius_m fl) in
      let v_right = mul w_fr (wheel_radius_m fl) in
      (
        success,
        some (record {
          linear_x = div (add v_right v_left) (decimal 2 0);
          angular_z = div (sub v_right v_left) (track_width_m fl);
        }),
      )
