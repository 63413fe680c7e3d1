-- ===== src/App/Command.antt =====
-- The command target (apps/rover_controller/src/app/robot_command.c). `cmd_target` is the static
-- structure that each function takes and, where it writes it, returns; `cmd_mutex` makes each call
-- one atomic step. A pointer that the code compares with NULL is an `Option`, and `now` is what the
-- call of `time_now_ms` returns.
pub mod Limits
mod Tests
use micro_ros_controller_fir.Prelude.{Bool, true, false, Option, none, some}
use micro_ros_controller_fir.Prelude.Int.{ℤ, pos}
use micro_ros_controller_fir.Common.Real.{Float}
use micro_ros_controller_fir.Common.Types.{
  Errno, einval, Rc, success, failure, get_out, RobotCommand,
}
use micro_ros_controller_fir.Common.Clamp.{clamp}
use micro_ros_controller_fir.Common.Params.{
  max_linear_velocity_m_s, max_angular_velocity_rad_s, zero_f,
}

unfoldable pub robot_command_get :
    {F : Type 0} → Option (RobotCommand F) → RobotCommand F → Rc × Option (RobotCommand F)
robot_command_get out cmd_target = get_out out cmd_target

module _ {F : Type 0} (fl : Float F) where
  unfoldable pub robot_command_init : Rc × RobotCommand F
  robot_command_init = (
    success,
    record { linear_x = zero_f fl; angular_z = zero_f fl; timestamp_ms = pos 0; valid = false },
  )

  unfoldable pub robot_command_set :
      ℤ → Option (RobotCommand F) → RobotCommand F → Rc × RobotCommand F
  robot_command_set now none cmd_target = (failure einval, cmd_target)
  robot_command_set now (some cmd) cmd_target = (
    success,
    record {
      linear_x = clamp fl (max_linear_velocity_m_s fl) cmd.linear_x;
      angular_z = clamp fl (max_angular_velocity_rad_s fl) cmd.angular_z;
      timestamp_ms = now;
      valid = true;
    },
  )

  unfoldable pub robot_command_zero : ℤ → RobotCommand F
  robot_command_zero now = record {
    linear_x = zero_f fl;
    angular_z = zero_f fl;
    timestamp_ms = now;
    valid = false;
  }
