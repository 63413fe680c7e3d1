-- ===== src/App/Diagnostics.antt =====
-- The diagnostic flags (apps/rover_controller/src/app/diagnostics.c). The update reads the fault word
-- once for each flag. It holds a spinlock, and with it the interrupts of the one processor, through all
-- of these reads, so they find the same word, which is `fault_word`.
pub mod Flags
mod Tests
use micro_ros_controller_fir.Prelude.{ℕ, Bool, false, not, Option}
use micro_ros_controller_fir.Common.Types.{Rc, get_out, DiagnosticFlags}
use micro_ros_controller_fir.Safety.Fault.{
  FaultBit, cmd_timeout, agent_lost, undervoltage, overcurrent, motor_feedback, estop, mask,
  fault_is_set,
}

unfoldable pub diagnostics_init : DiagnosticFlags
diagnostics_init = record {
  imu_ok = false;
  gnss_ok = false;
  battery_ok = false;
  motors_ok = false;
  agent_connected = false;
  estop_active = false;
  cmd_timeout = false;
  undervoltage = false;
  overcurrent = false;
}

unfoldable pub diagnostics_update : ℕ → DiagnosticFlags → DiagnosticFlags
diagnostics_update fault_word diag_flags = record diag_flags {
  cmd_timeout = fault_is_set fault_word (mask cmd_timeout);
  agent_connected = not (fault_is_set fault_word (mask agent_lost));
  undervoltage = fault_is_set fault_word (mask undervoltage);
  overcurrent = fault_is_set fault_word (mask overcurrent);
  motors_ok = not (fault_is_set fault_word (mask motor_feedback));
  estop_active = fault_is_set fault_word (mask estop);
}

unfoldable pub diagnostics_get :
    Option DiagnosticFlags → DiagnosticFlags → Rc × Option DiagnosticFlags
diagnostics_get out diag_flags = get_out out diag_flags
