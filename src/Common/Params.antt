-- ===== src/Common/Params.antt =====
-- The constants of apps/rover_controller/src/common/robot_params.h and
-- apps/rover_controller/src/safety/limits.h.
use micro_ros_controller_fir.Prelude.{ℕ}
use micro_ros_controller_fir.Prelude.Int.{ℤ, pos}
use micro_ros_controller_fir.Common.Real.{Float}
use micro_ros_controller_fir.Common.Types.{Motors}

-- ROVER_CMD_TIMEOUT_MS, which SAFETY_CMD_TIMEOUT_MS repeats
abbrev pub cmd_timeout_ms : ℤ
cmd_timeout_ms = pos 500

-- SAFETY_MONITOR_PERIOD_MS
abbrev pub safety_monitor_period_ms : ℕ
safety_monitor_period_ms = 20

-- SAFETY_MOTOR_FEEDBACK_MISS_COUNT
abbrev pub motor_feedback_miss_count : ℕ
motor_feedback_miss_count = 5

abbrev pub heartbeat_period_ms : ℕ
heartbeat_period_ms = 1000

abbrev pub telemetry_odom_period_ms : ℕ
telemetry_odom_period_ms = 20

abbrev pub telemetry_diag_period_ms : ℕ
telemetry_diag_period_ms = 1000

module _ {F : Type 0} (fl : Float F) where
  open fl use {decimal, neg}

  abbrev pub wheel_radius_m : F
  wheel_radius_m = decimal 5 2

  abbrev pub track_width_m : F
  track_width_m = decimal 30 2

  abbrev pub wheelbase_m : F
  wheelbase_m = decimal 30 2

  -- ROVER_MOTOR_DIRECTION_SIGNS
  abbrev pub direction_signs : Motors F
  direction_signs = record {
    front_left = decimal 1 0;
    front_right = neg (decimal 1 0);
    rear_left = decimal 1 0;
    rear_right = neg (decimal 1 0);
  }

  abbrev pub max_linear_velocity_m_s : F
  max_linear_velocity_m_s = decimal 1 0

  abbrev pub max_angular_velocity_rad_s : F
  max_angular_velocity_rad_s = decimal 2 0

  abbrev pub max_wheel_velocity_rad_s : F
  max_wheel_velocity_rad_s = decimal 20 0

  -- ROVER_UNDERVOLTAGE_THRESHOLD_V, which SAFETY_UNDERVOLTAGE_V repeats
  abbrev pub undervoltage_threshold_v : F
  undervoltage_threshold_v = decimal 105 1

  -- ROVER_OVERCURRENT_THRESHOLD_A, which SAFETY_OVERCURRENT_A repeats
  abbrev pub overcurrent_threshold_a : F
  overcurrent_threshold_a = decimal 5 0

  -- `0.0f`
  abbrev pub zero_f : F
  zero_f = decimal 0 0
