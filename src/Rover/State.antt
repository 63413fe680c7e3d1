-- ===== src/Rover/State.antt =====
-- The static variables of the firmware's modules, one field for each; `Dev` is the state of the motor
-- drive behind `motor_dev`, which is no part of the repository.
use micro_ros_controller_fir.Prelude.{ℕ, Bool, Option, List}
use micro_ros_controller_fir.Common.Types.{RobotCommand, WheelState, OdometryState, DiagnosticFlags}
use micro_ros_controller_fir.Safety.Monitor.{Monitor}
use micro_ros_controller_fir.App.StateMachine.{RobotState}

pub record Rover (F Dev : Type 0) : Type 0 where
  pub current_state : RobotState  -- state_machine.c
  pub fault_word : ℕ  -- fault.c
  pub cmd_target : RobotCommand F  -- robot_command.c
  pub monitor : Monitor F  -- safety_monitor.c
  pub checkins : List Bool  -- watchdog.c
  pub latest_wheel_state : WheelState F  -- control_loop.c
  pub motor_dev : Option Dev  -- control_loop.c
  pub odom_state : OdometryState F  -- odometry.c
  pub diag_flags : DiagnosticFlags  -- diagnostics.c
