-- ===== src/Instances/Robot.antt =====
-- A robot with fixed-point numbers, in several situations.
use micro_ros_controller_fir.Prelude.{ℕ, suc, true, false, some, [], ◌∷◌}
use micro_ros_controller_fir.Prelude.Int.{pos}
use micro_ros_controller_fir.Common.Types.{Motors, MotorFeedback, RobotCommand, DiagnosticFlags}
use micro_ros_controller_fir.Safety.Monitor.{Monitor}
use micro_ros_controller_fir.App.StateMachine.{active, estop}
use micro_ros_controller_fir.App.ControlLoop.{MotorDrive}
use micro_ros_controller_fir.Ros.CmdVel.{Twist}
use micro_ros_controller_fir.Rover.State.{Rover}
use micro_ros_controller_fir.Instances.FixedPoint.{Fixed, num, literal}

abbrev pub all_four : {A : Type 0} → A → Motors A
all_four a = record { front_left = a; front_right = a; rear_left = a; rear_right = a }

abbrev pub no_feedback : MotorFeedback Fixed
no_feedback = record {
  position_rad = num false 0;
  velocity_rad_s = num false 0;
  current_a = num false 0;
  fault_flags = 0;
  valid = false;
}

-- A drive that counts its calls and reports every motor at the same position.
abbrev pub counting_drive : MotorDrive Fixed ℕ
counting_drive = record {
  set_velocity = λ d i v. suc d;
  get_feedback = λ d i f. (suc d, record f { position_rad = literal 25 1; valid = true });
}

-- A drive whose feedback calls fail.
abbrev pub mute_counting_drive : MotorDrive Fixed ℕ
mute_counting_drive = record { set_velocity = λ d i v. suc d; get_feedback = λ d i f. (d, f) }

-- Half a metre per second ahead, turning left.
abbrev pub gentle : RobotCommand Fixed
gentle = record {
  linear_x = literal 5 1;
  angular_z = literal 2 1;
  timestamp_ms = pos 1000;
  valid = true;
}

abbrev pub healthy_monitor : Monitor Fixed
healthy_monitor = record {
  agent_connected = true;
  battery_voltage_v = literal 12 0;
  motor_feedback_cache = all_four no_feedback;
}

abbrev pub dark_flags : DiagnosticFlags
dark_flags = record {
  imu_ok = false;
  gnss_ok = false;
  battery_ok = false;
  motors_ok = false;
  agent_connected = false;
  estop_active = false;
  cmd_timeout = false;
  undervoltage = false;
  overcurrent = false;
}

-- ACTIVE, with no fault and a drive, following `gentle`.
abbrev pub driving : Rover Fixed ℕ
driving = record {
  current_state = active;
  fault_word = 0;
  cmd_target = gentle;
  monitor = healthy_monitor;
  checkins = false ∷ false ∷ [];
  latest_wheel_state = record {
    position_rad = all_four (num false 0);
    velocity_rad_s = all_four (num false 0);
    timestamp_ms = pos 0;
    valid = false;
  };
  motor_dev = some 0;
  odom_state = record {
    pose = record { x = num false 0; y = num false 0; theta = num false 0 };
    twist = record { linear_x = num false 0; angular_z = num false 0 };
    timestamp_ms = pos 0;
    valid = false;
  };
  diag_flags = dark_flags;
}

abbrev pub stopped : Rover Fixed ℕ
stopped = record driving { current_state = estop }

abbrev pub alone : Rover Fixed ℕ
alone = record driving { monitor = record healthy_monitor { agent_connected = false } }

-- Full speed ahead.
abbrev pub ahead : Twist Fixed
ahead = record { linear_x = literal 1 0; angular_z = literal 0 0 }
