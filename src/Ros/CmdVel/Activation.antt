-- ===== src/Ros/CmdVel/Activation.antt =====
-- When a velocity command makes the robot ACTIVE, and what it stores.
use micro_ros_controller_fir.Prelude.{◌≡◌, ◌&&◌, some, arith, if◌then◌else◌}
use micro_ros_controller_fir.Prelude.Int.{ℤ}
use micro_ros_controller_fir.Common.Real.{Float, Convert}
use micro_ros_controller_fir.Safety.Monitor.{safety_monitor_motion_permitted}
use micro_ros_controller_fir.App.Command.{robot_command_set}
use micro_ros_controller_fir.App.StateMachine.{active, state_machine_transition}
use micro_ros_controller_fir.Rover.State.{Rover}
use micro_ros_controller_fir.Ros.CmdVel.{Twist, is_idle, command_of, cmd_vel_callback}

module _ {F D Dev : Type 0} (fl : Float F) (cv : Convert F D) where
  -- A velocity command stores its limited velocities with the time of arrival, makes the robot ACTIVE
  -- exactly when it was IDLE and motion was permitted, and changes nothing else.
  pub callback-effect :
      (now : ℤ) (twist : Twist D) (r : Rover F Dev)
      → cmd_vel_callback fl cv now twist r ≡ record r {
        cmd_target = (robot_command_set fl now (some (command_of cv twist)) r.cmd_target).1;
        current_state =
            if is_idle r.current_state && safety_monitor_motion_permitted r.fault_word
            then active
            else r.current_state;
      }
  unfolding cmd_vel_callback state_machine_transition
  callback-effect now twist r = ground arith
