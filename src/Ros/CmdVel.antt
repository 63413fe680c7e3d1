-- ===== src/Ros/CmdVel.antt =====
-- The /cmd_vel subscriber (apps/rover_controller/src/ros/subscribers/cmd_vel_sub.c).
pub mod Activation
use micro_ros_controller_fir.Prelude.{Bool, true, false, not, ◌&&◌, some, if◌then◌else◌}
use micro_ros_controller_fir.Prelude.Int.{ℤ, pos}
use micro_ros_controller_fir.Common.Real.{Float, Convert}
use micro_ros_controller_fir.Common.Types.{eio, Rc, success, failure, RobotCommand}
use micro_ros_controller_fir.Safety.Monitor.{safety_monitor_motion_permitted}
use micro_ros_controller_fir.App.Command.{robot_command_set}
use micro_ros_controller_fir.App.StateMachine.{
  RobotState, idle, active, state_machine_get, state_machine_transition,
}
use micro_ros_controller_fir.Rover.State.{Rover}

-- The fields of `geometry_msgs/Twist` that the code reads.
pub record Twist (D : Type 0) : Type 0 where
  pub linear_x : D
  pub angular_z : D

-- The results of the two calls of the client library.
unfoldable pub cmd_vel_sub_init : Bool → Bool → Rc
cmd_vel_sub_init subscription_init added =
    if not subscription_init then failure eio else if not added then failure eio else success

-- `state == ROBOT_STATE_IDLE`
abbrev pub is_idle : RobotState → Bool
is_idle idle = true
is_idle _ = false

module _ {F D : Type 0} (cv : Convert F D) where
  open cv use {narrow}

  -- The command that the callback builds; `robot_command_set` fills in the time.
  unfoldable pub command_of : Twist D → RobotCommand F
  command_of twist = record {
    linear_x = narrow twist.linear_x;
    angular_z = narrow twist.angular_z;
    timestamp_ms = pos 0;
    valid = true;
  }

module _ {F D Dev : Type 0} (fl : Float F) (cv : Convert F D) where
  -- `now` is the time of the call of `time_now_ms`.
  unfoldable pub cmd_vel_callback : ℤ → Twist D → Rover F Dev → Rover F Dev
  unfolding command_of state_machine_get
  cmd_vel_callback now twist r =
      let r₁ = record r {
        cmd_target = (robot_command_set fl now (some (command_of cv twist)) r.cmd_target).1;
      } in
      if is_idle (state_machine_get r₁.current_state)
        && safety_monitor_motion_permitted r₁.fault_word
      then (let (rc, state, word) =
            state_machine_transition r₁.current_state r₁.fault_word active in
          record r₁ { current_state = state; fault_word = word })
      else r₁
