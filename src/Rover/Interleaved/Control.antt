-- ===== src/Rover/Interleaved/Control.antt =====
-- The control loop (`control_loop_run_once` of apps/rover_controller/src/app/control_loop.c) one access
-- at a time.
use micro_ros_controller_fir.Prelude.{ℕ, Option, none, some, true, if◌then◌else◌}
use micro_ros_controller_fir.Prelude.Int.{ℤ}
use micro_ros_controller_fir.Common.Real.{Float}
use micro_ros_controller_fir.Common.Types.{written, Motors, RobotCommand, MotorFeedback, WheelState}
use micro_ros_controller_fir.Common.Params.{zero_f}
use micro_ros_controller_fir.Safety.Watchdog.{subsystem_control, watchdog_check_in}
use micro_ros_controller_fir.Safety.Monitor.{
  safety_monitor_set_motor_feedback, safety_monitor_motion_permitted,
}
use micro_ros_controller_fir.App.Command.{robot_command_get, robot_command_zero}
use micro_ros_controller_fir.App.Kinematics.{kinematics_compute_wheel_velocities}
use micro_ros_controller_fir.App.Odometry.{odometry_update}
use micro_ros_controller_fir.App.StateMachine.{state_machine_motion_allowed}
use micro_ros_controller_fir.App.ControlLoop.{MotorDrive, new_position, is_present}
use micro_ros_controller_fir.Rover.State.{Rover}

-- `enum rover_motor_id`, as the index of the two loops over the drive.
pub data MotorId : Type 0 where
  front_left front_right rear_left rear_right : MotorId

abbrev pub number : MotorId → ℕ
number front_left = 0
number front_right = 1
number rear_left = 2
number rear_right = 3

-- `i++`, until the loop ends.
abbrev pub next_motor : MotorId → Option MotorId
next_motor front_left = some front_right
next_motor front_right = some rear_left
next_motor rear_left = some rear_right
next_motor rear_right = none

abbrev pub get : {A : Type 0} → MotorId → Motors A → A
get front_left a = a.front_left
get front_right a = a.front_right
get rear_left a = a.rear_left
get rear_right a = a.rear_right

abbrev pub put : {A : Type 0} → MotorId → A → Motors A → Motors A
put front_left x a = record a { front_left = x }
put front_right x a = record a { front_right = x }
put rear_left x a = record a { rear_left = x }
put rear_right x a = record a { rear_right = x }

-- What one turn finds besides the shared data: the two times, and the arrays on the stack.
pub record Inputs (F : Type 0) : Type 0 where
  pub now_zero : ℤ
  pub now : ℤ
  pub stack_wheels : Motors F
  pub stack_feedback : Motors (MotorFeedback F)

-- Where the thread stands, by its next access.
pub data ControlPc (F : Type 0) : Type 0 where
  resting : ControlPc F  -- robot_command_get
  fetched : RobotCommand F → ControlPc F  -- state_machine_motion_allowed
  allowed : RobotCommand F → ControlPc F  -- safety_monitor_motion_permitted
  refused : RobotCommand F → ControlPc F  -- robot_command_zero
  sending : MotorId → Motors F → ControlPc F  -- motor_drive_set_velocity
  reading : MotorId → Motors F → Motors (MotorFeedback F) → ControlPc F  -- motor_drive_get_feedback
  notifying : Motors F → Motors (MotorFeedback F) → ControlPc F  -- safety_monitor_set_motor_feedback
  recording : Motors F → Motors (MotorFeedback F) → ControlPc F  -- the section of wheel_state_mutex
  integrating : ControlPc F  -- odometry_update
  checking_in : ControlPc F  -- watchdog_check_in

module _ {F Dev : Type 0} (fl : Float F) (drive : MotorDrive F Dev) (inputs : Inputs F) where
  open drive use {set_velocity, get_feedback}
  open inputs use {now_zero, now, stack_wheels, stack_feedback}

  -- The wheel velocities of a command, which are computed from local variables.
  unfoldable pub wheels_of : RobotCommand F → Motors F
  wheels_of cmd =
      written stack_wheels (kinematics_compute_wheel_velocities fl (some cmd) (some stack_wheels))

  abbrev pub zeroed : RobotCommand F → RobotCommand F
  zeroed cmd = record cmd { linear_x = zero_f fl; angular_z = zero_f fl }

  -- `if (motor_dev != NULL)`
  abbrev pub begin_exchange : Option Dev → Motors F → ControlPc F
  begin_exchange none wheels = recording wheels stack_feedback
  begin_exchange (some dev) wheels = sending front_left wheels

  abbrev pub after_sending : Option MotorId → Motors F → ControlPc F
  after_sending none wheels = reading front_left wheels stack_feedback
  after_sending (some i) wheels = sending i wheels

  abbrev pub after_reading : Option MotorId → Motors F → Motors (MotorFeedback F) → ControlPc F
  after_reading none wheels feedback = notifying wheels feedback
  after_reading (some i) wheels feedback = reading i wheels feedback

  -- The two calls of the drive; without one they are not reached.
  abbrev pub set_motor : MotorId → F → Option Dev → Option Dev
  set_motor i v none = none
  set_motor i v (some dev) = some (set_velocity dev (number i) v)

  abbrev pub read_motor :
      MotorId → Motors (MotorFeedback F) → Option Dev → Option Dev × Motors (MotorFeedback F)
  read_motor i feedback none = (none, feedback)
  read_motor i feedback (some dev) =
      let (dev', f) = get_feedback dev (number i) (get i feedback) in (some dev', put i f feedback)

  -- The section of `wheel_state_mutex`.
  unfoldable pub new_wheel_state : Motors F → Motors (MotorFeedback F) → Rover F Dev → WheelState F
  unfolding new_position
  new_wheel_state wheels feedback r =
      let old = r.latest_wheel_state.position_rad in
      let present = is_present fl drive r.motor_dev in
      record {
        position_rad = record {
          front_left = new_position present feedback.front_left old.front_left;
          front_right = new_position present feedback.front_right old.front_right;
          rear_left = new_position present feedback.rear_left old.rear_left;
          rear_right = new_position present feedback.rear_right old.rear_right;
        };
        velocity_rad_s = wheels;
        timestamp_ms = now;
        valid = true;
      }

  -- One access: what is sent to which motor, if anything, the shared data, and where the thread stands.
  unfoldable pub control_move :
      ControlPc F → Rover F Dev → Option (MotorId × F) × Rover F Dev × ControlPc F
  unfolding robot_command_get wheels_of new_wheel_state
  control_move resting r =
      (none, r, fetched (written r.cmd_target (robot_command_get (some r.cmd_target) r.cmd_target)))
  control_move (fetched cmd) r =
      (none, r, if state_machine_motion_allowed r.current_state then allowed cmd else refused cmd)
  control_move (allowed cmd) r = (
    none,
    r,
    if safety_monitor_motion_permitted r.fault_word
        then begin_exchange r.motor_dev (wheels_of cmd)
        else refused cmd,
  )
  control_move (refused cmd) r = (
    none,
    record r { cmd_target = robot_command_zero fl now_zero },
    begin_exchange r.motor_dev (wheels_of (zeroed cmd)),
  )
  control_move (sending i wheels) r = (
    some (i, get i wheels),
    record r { motor_dev = set_motor i (get i wheels) r.motor_dev },
    after_sending (next_motor i) wheels,
  )
  control_move (reading i wheels feedback) r =
      let (dev, feedback') = read_motor i feedback r.motor_dev in
      (none, record r { motor_dev = dev }, after_reading (next_motor i) wheels feedback')
  control_move (notifying wheels feedback) r = (
    none,
    record r { monitor = safety_monitor_set_motor_feedback (some feedback) r.monitor },
    recording wheels feedback,
  )
  control_move (recording wheels feedback) r =
      (none, record r { latest_wheel_state = new_wheel_state wheels feedback r }, integrating)
  control_move integrating r = (
    none,
    record r { odom_state = (odometry_update fl (some r.latest_wheel_state) r.odom_state).1 },
    checking_in,
  )
  control_move checking_in r =
      (none, record r { checkins = watchdog_check_in r.checkins subsystem_control }, resting)
