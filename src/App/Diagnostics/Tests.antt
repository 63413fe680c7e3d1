-- ===== src/App/Diagnostics/Tests.antt =====
-- A concrete report.
use micro_ros_controller_fir.Prelude.{◌≡◌, not, some, false, [], ◌∷◌}
use micro_ros_controller_fir.Prelude.Int.{pos}
use micro_ros_controller_fir.Common.Types.{success}
use micro_ros_controller_fir.Safety.Fault.{overcurrent, motor_feedback, estop}
use micro_ros_controller_fir.Safety.Fault.Flags.{holds}
use micro_ros_controller_fir.Safety.Monitor.{command_stale, battery_low, safety_monitor_evaluate}
use micro_ros_controller_fir.App.Diagnostics.{diagnostics_update, diagnostics_get}
use micro_ros_controller_fir.App.Diagnostics.Flags.{report-evaluate}
use micro_ros_controller_fir.Instances.FixedPoint.{fixed}
use micro_ros_controller_fir.Instances.Robot.{gentle, healthy_monitor, dark_flags}

-- With an overcurrent fault and an emergency stop latched.
report-evaluate_example :
    diagnostics_get (some dark_flags) (
      diagnostics_update
        (safety_monitor_evaluate fixed (pos 1100) gentle healthy_monitor 40 (false ∷ false ∷ [])).0
        dark_flags)
    ≡ (
      success,
      some (record dark_flags {
        motors_ok = not (holds 40 motor_feedback);
        agent_connected = healthy_monitor.agent_connected;
        estop_active = holds 40 estop;
        cmd_timeout = command_stale fixed (pos 1100) gentle;
        undervoltage = battery_low fixed healthy_monitor.battery_voltage_v;
        overcurrent = holds 40 overcurrent;
      }),
    )
report-evaluate_example =
    report-evaluate fixed (pos 1100) gentle healthy_monitor 40 (false ∷ false ∷ []) dark_flags
      dark_flags
