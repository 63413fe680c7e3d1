-- ===== src/App/Odometry.antt =====
-- Wheel odometry (apps/rover_controller/src/app/odometry.c), which does not integrate the pose yet.
pub mod Pose
use micro_ros_controller_fir.Prelude.{Bool, false, Option, none, some}
use micro_ros_controller_fir.Prelude.Int.{pos}
use micro_ros_controller_fir.Common.Real.{Float}
use micro_ros_controller_fir.Common.Types.{
  Errno, einval, Rc, success, failure, get_out, WheelState, RobotPose, RobotTwist, OdometryState,
}
use micro_ros_controller_fir.Common.Params.{zero_f}

unfoldable pub odometry_reset : {F : Type 0} → F → F → F → OdometryState F → OdometryState F
odometry_reset x y theta odom_state = record odom_state {
  pose = record { x = x; y = y; theta = theta };
}

unfoldable pub odometry_get :
    {F : Type 0} → Option (OdometryState F) → OdometryState F → Rc × Option (OdometryState F)
odometry_get out odom_state = get_out out odom_state

module _ {F : Type 0} (fl : Float F) where
  unfoldable pub odometry_init : OdometryState F
  odometry_init = record {
    pose = record { x = zero_f fl; y = zero_f fl; theta = zero_f fl };
    twist = record { linear_x = zero_f fl; angular_z = zero_f fl };
    timestamp_ms = pos 0;
    valid = false;
  }

  unfoldable pub odometry_update : Option (WheelState F) → OdometryState F → Rc × OdometryState F
  odometry_update none odom_state = (failure einval, odom_state)
  odometry_update (some wheel_state) odom_state = (
    success,
    record odom_state {
      twist = record { linear_x = zero_f fl; angular_z = zero_f fl };
      timestamp_ms = wheel_state.timestamp_ms;
      valid = wheel_state.valid;
    },
  )
