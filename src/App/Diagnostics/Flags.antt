-- ===== src/App/Diagnostics/Flags.antt =====
-- What the diagnostics report, in terms of the faults and of what the safety monitor saw.
use micro_ros_controller_fir.Prelude.{ℕ, ◌≡◌, Bool, not, some, List, arith}
use micro_ros_controller_fir.Prelude.Int.{ℤ}
use micro_ros_controller_fir.Common.Real.{Float}
use micro_ros_controller_fir.Common.Types.{success, RobotCommand, DiagnosticFlags}
use micro_ros_controller_fir.Safety.Fault.{
  cmd_timeout, agent_lost, undervoltage, overcurrent, motor_feedback, estop,
}
use micro_ros_controller_fir.Safety.Fault.Flags.{holds, is_set-mask}
use micro_ros_controller_fir.Safety.Monitor.{
  Monitor, command_stale, battery_low, safety_monitor_evaluate,
}
use micro_ros_controller_fir.Safety.Monitor.Verdict.{evaluate-verdict}
use micro_ros_controller_fir.App.Diagnostics.{diagnostics_update, diagnostics_get}

-- Each flag that an update sets, by the fault that it reports; the other three stay.
pub update-holds :
    (w : ℕ) (d : DiagnosticFlags)
    → diagnostics_update w d ≡ record d {
      cmd_timeout = holds w cmd_timeout;
      agent_connected = not (holds w agent_lost);
      undervoltage = holds w undervoltage;
      overcurrent = holds w overcurrent;
      motors_ok = not (holds w motor_feedback);
      estop_active = holds w estop;
    }
unfolding diagnostics_update
update-holds w d = simp is_set-mask

-- After an evaluation of the safety monitor and an update of the flags, `diagnostics_get` returns what
-- the monitor saw: whether the command is stale, the agent connected and the battery low; and the
-- overcurrent, motor feedback and emergency stop faults as they are latched. The flags for IMU, GNSS and
-- battery stay as they were.
pub report-evaluate :
    {F : Type 0} (fl : Float F) (now : ℤ) (cmd : RobotCommand F) (m : Monitor F) (w : ℕ)
    (checkins : List Bool) (d out : DiagnosticFlags)
    → diagnostics_get
        (some out)
        (diagnostics_update (safety_monitor_evaluate fl now cmd m w checkins).0 d)
      ≡ (
        success,
        some (record {
          imu_ok = d.imu_ok;
          gnss_ok = d.gnss_ok;
          battery_ok = d.battery_ok;
          motors_ok = not (holds w motor_feedback);
          agent_connected = m.agent_connected;
          estop_active = holds w estop;
          cmd_timeout = command_stale fl now cmd;
          undervoltage = battery_low fl m.battery_voltage_v;
          overcurrent = holds w overcurrent;
        }),
      )
unfolding diagnostics_get
report-evaluate fl now cmd m w checkins d out = simp (update-holds, evaluate-verdict) (ground arith)
