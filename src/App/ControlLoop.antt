-- ===== src/App/ControlLoop.antt =====
-- The motor control loop (apps/rover_controller/src/app/control_loop.c). The motor drive, whose header
-- hal/motor_drive.h is not in the repository, is a parameter. A turn of the loop also returns the
-- velocities that it hands to the drive. Arrays on the stack that the code does not initialise are
-- arguments: `stack_wheels` and `stack_feedback`.
pub mod Motion
pub mod Wheels
mod Tests
use micro_ros_controller_fir.Prelude.{
  ℕ, Bool, true, false, not, ◌||◌, Option, none, some, if◌then◌else◌,
}
use micro_ros_controller_fir.Prelude.Int.{ℤ}
use micro_ros_controller_fir.Common.Real.{Float}
use micro_ros_controller_fir.Common.Types.{
  Rc, success, get_out, written, Motors, for_motors, RobotCommand, MotorFeedback, WheelState,
}
use micro_ros_controller_fir.Common.Params.{zero_f}
use micro_ros_controller_fir.Safety.Watchdog.{subsystem_control, watchdog_check_in}
use micro_ros_controller_fir.Safety.Monitor.{
  safety_monitor_set_motor_feedback, safety_monitor_motion_permitted,
}
use micro_ros_controller_fir.App.Command.{robot_command_get, robot_command_zero}
use micro_ros_controller_fir.App.Kinematics.{kinematics_compute_wheel_velocities}
use micro_ros_controller_fir.App.Odometry.{odometry_init, odometry_update}
use micro_ros_controller_fir.App.StateMachine.{state_machine_motion_allowed}
use micro_ros_controller_fir.Rover.State.{Rover}

-- `motor_drive_set_velocity` and `motor_drive_get_feedback` of a device in state `Dev`. Both return
-- codes are ignored by the code. The second one is given the variable for the feedback as it stands,
-- and may leave it so.
pub record MotorDrive (F Dev : Type 0) : Type 0 where
  pub set_velocity : Dev → ℕ → F → Dev
  pub get_feedback : Dev → ℕ → MotorFeedback F → Dev × MotorFeedback F

unfoldable pub control_loop_get_wheel_state :
    {F : Type 0} → Option (WheelState F) → WheelState F → Rc × Option (WheelState F)
control_loop_get_wheel_state out latest_wheel_state = get_out out latest_wheel_state

-- One motor's entry in the loop that updates the wheel positions.
unfoldable pub new_position : {F : Type 0} → Bool → MotorFeedback F → F → F
new_position present feedback old =
    if present then (if feedback.valid then feedback.position_rad else old) else old

-- CONTROL_LOOP_PERIOD_MS
abbrev pub control_loop_period_ms : ℕ
control_loop_period_ms = 20

-- The thread is defined statically.
unfoldable pub control_loop_start : Rc
control_loop_start = success

module _ {F Dev : Type 0} (fl : Float F) where
  -- `dev` is what `board_get_motor_drive_device` returns.
  unfoldable pub control_loop_init : Option Dev → Rover F Dev → Rc × Rover F Dev
  control_loop_init dev r = (success, record r { odom_state = odometry_init fl; motor_dev = dev })

  -- The first part of a turn: the command to follow, and the target, zeroed unless motion is permitted.
  unfoldable pub select_command : ℤ → Rover F Dev → RobotCommand F × Rover F Dev
  unfolding robot_command_get
  select_command now r =
      let cmd = written r.cmd_target (robot_command_get (some r.cmd_target) r.cmd_target) in
      if not (state_machine_motion_allowed r.current_state)
        || not (safety_monitor_motion_permitted r.fault_word)
      then (
        record cmd { linear_x = zero_f fl; angular_z = zero_f fl },
        record r { cmd_target = robot_command_zero fl now },
      )
      else (cmd, r)

module _ {F Dev : Type 0} (fl : Float F) (drive : MotorDrive F Dev) where
  open drive use {set_velocity, get_feedback}

  -- The loop over `motor_drive_set_velocity`.
  unfoldable pub send_velocities : Dev → Motors F → Dev
  send_velocities dev v =
      let d₀ = set_velocity dev 0 v.front_left in
      let d₁ = set_velocity d₀ 1 v.front_right in
      let d₂ = set_velocity d₁ 2 v.rear_left in set_velocity d₂ 3 v.rear_right

  -- The loop over `motor_drive_get_feedback`.
  unfoldable pub read_feedback : Dev → Motors (MotorFeedback F) → Dev × Motors (MotorFeedback F)
  read_feedback dev old =
      let (d₀, front_left) = get_feedback dev 0 old.front_left in
      let (d₁, front_right) = get_feedback d₀ 1 old.front_right in
      let (d₂, rear_left) = get_feedback d₁ 2 old.rear_left in
      let (d₃, rear_right) = get_feedback d₂ 3 old.rear_right in
      (
        d₃,
        record {
          front_left = front_left;
          front_right = front_right;
          rear_left = rear_left;
          rear_right = rear_right;
        },
      )

  -- The second part: the exchange with the drive, if there is one, which tells the safety monitor.
  unfoldable pub exchange :
      Option Dev
      → Motors F
      → Motors (MotorFeedback F)
      → Rover F Dev
      → Option (Motors F) × Motors (MotorFeedback F) × Rover F Dev
  exchange none wheels feedback r = (none, feedback, r)
  exchange (some dev) wheels feedback r =
      let (dev', feedback') = read_feedback (send_velocities dev wheels) feedback in
      (
        some wheels,
        feedback',
        record r {
          motor_dev = some dev';
          monitor = safety_monitor_set_motor_feedback (some feedback') r.monitor;
        },
      )

  -- `motor_dev != NULL`
  abbrev pub is_present : Option Dev → Bool
  is_present none = false
  is_present (some dev) = true

  -- The third part: the wheel state, the odometry and the watchdog.
  unfoldable pub record_wheels : ℤ → Motors F → Motors (MotorFeedback F) → Rover F Dev → Rover F Dev
  unfolding new_position
  record_wheels now wheels feedback r =
      let old = r.latest_wheel_state.position_rad in
      let present = is_present r.motor_dev in
      let w : WheelState F = record {
        position_rad = record {
          front_left = new_position present feedback.front_left old.front_left;
          front_right = new_position present feedback.front_right old.front_right;
          rear_left = new_position present feedback.rear_left old.rear_left;
          rear_right = new_position present feedback.rear_right old.rear_right;
        };
        velocity_rad_s = wheels;
        timestamp_ms = now;
        valid = true;
      } in
      record r {
        latest_wheel_state = w;
        odom_state = (odometry_update fl (some w) r.odom_state).1;
        checkins = watchdog_check_in r.checkins subsystem_control;
      }

  -- `now_zero` and `now` are the times of the two calls of `time_now_ms`, if the first is made.
  unfoldable pub control_loop_run_once :
      ℤ → ℤ → Motors F → Motors (MotorFeedback F) → Rover F Dev → Option (Motors F) × Rover F Dev
  unfolding select_command exchange record_wheels
  control_loop_run_once now_zero now stack_wheels stack_feedback r =
      let (cmd, r₁) = select_command fl now_zero r in
      let wheels =
        written stack_wheels
          (kinematics_compute_wheel_velocities fl (some cmd) (some stack_wheels)) in
      let (sent, feedback, r₂) = exchange r₁.motor_dev wheels stack_feedback r₁ in
      (sent, record_wheels now wheels feedback r₂)
