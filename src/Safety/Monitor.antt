-- ===== src/Safety/Monitor.antt =====
-- The safety monitor (apps/rover_controller/src/safety/safety_monitor.c). `Monitor` holds the module's
-- static variables. The evaluation reads the command target and writes the fault word and the
-- check-ins of the watchdog. The local variable that the command is read into has no content before
-- that matters, so that of the target stands for it; `now` is what its call of `time_now_ms` returns.
pub mod Verdict
mod Tests
use micro_ros_controller_fir.Prelude.{
  ℕ, Bool, true, false, not, ◌&&◌, ◌||◌, Option, none, some, List, if◌then◌else◌,
}
use micro_ros_controller_fir.Prelude.Int.{ℤ}
use micro_ros_controller_fir.Common.Real.{Float}
use micro_ros_controller_fir.Common.Types.{
  Rc, success, written, Motors, for_motors, MotorFeedback, RobotCommand,
}
use micro_ros_controller_fir.Common.Params.{cmd_timeout_ms, undervoltage_threshold_v, zero_f}
use micro_ros_controller_fir.Common.Time.{time_is_expired_ms}
use micro_ros_controller_fir.Safety.Fault.{
  FaultBit, cmd_timeout, agent_lost, undervoltage, mask, fault_init, fault_set, fault_clear,
  fault_motion_inhibited,
}
use micro_ros_controller_fir.Safety.Watchdog.{
  subsystem_safety, watchdog_init, watchdog_feed, watchdog_check_in,
}
use micro_ros_controller_fir.App.Command.{robot_command_get}

pub record Monitor (F : Type 0) : Type 0 where
  pub agent_connected : Bool
  pub battery_voltage_v : F
  pub motor_feedback_cache : Motors (MotorFeedback F)

unfoldable pub safety_monitor_set_agent_connected : {F : Type 0} → Bool → Monitor F → Monitor F
safety_monitor_set_agent_connected connected m = record m { agent_connected = connected }

unfoldable pub safety_monitor_set_battery_voltage : {F : Type 0} → F → Monitor F → Monitor F
safety_monitor_set_battery_voltage voltage_v m = record m { battery_voltage_v = voltage_v }

unfoldable pub safety_monitor_set_motor_feedback :
    {F : Type 0} → Option (Motors (MotorFeedback F)) → Monitor F → Monitor F
safety_monitor_set_motor_feedback none m = m
safety_monitor_set_motor_feedback (some feedback) m = record m {
  motor_feedback_cache = for_motors (λ f. f) feedback;
}

unfoldable pub safety_monitor_motion_permitted : ℕ → Bool
safety_monitor_motion_permitted fault_word = not (fault_motion_inhibited fault_word)

-- The thread is defined statically.
unfoldable pub safety_monitor_start : Rc
safety_monitor_start = success

-- `motor_feedback_cache[i].valid = false`
abbrev pub invalidate : {F : Type 0} → MotorFeedback F → MotorFeedback F
invalidate f = record f { valid = false }

module _ {F : Type 0} (fl : Float F) where
  open fl use {lt}

  unfoldable pub safety_monitor_init : Monitor F → List Bool → Rc × Monitor F × ℕ × List Bool
  unfolding watchdog_init
  safety_monitor_init m checkins =
      let (rc, checkins') = watchdog_init checkins in
      (
        rc,
        record {
          agent_connected = false;
          battery_voltage_v = zero_f fl;
          motor_feedback_cache = for_motors invalidate m.motor_feedback_cache;
        },
        fault_init,
        checkins',
      )

  -- The three tests of the evaluation.
  unfoldable pub command_stale : ℤ → RobotCommand F → Bool
  command_stale now cmd = not cmd.valid || time_is_expired_ms now cmd.timestamp_ms cmd_timeout_ms

  unfoldable pub battery_low : F → Bool
  battery_low voltage = lt (zero_f fl) voltage && lt voltage (undervoltage_threshold_v fl)

  unfoldable pub safety_monitor_evaluate :
      ℤ → RobotCommand F → Monitor F → ℕ → List Bool → ℕ × List Bool
  unfolding robot_command_get
  safety_monitor_evaluate now cmd_target m fault_word checkins =
      let cmd = written cmd_target (robot_command_get (some cmd_target) cmd_target) in
      let w₁ =
        if command_stale now cmd
        then fault_set fault_word (mask cmd_timeout)
        else fault_clear fault_word (mask cmd_timeout) in
      let w₂ =
        if not m.agent_connected
        then fault_set w₁ (mask agent_lost)
        else fault_clear w₁ (mask agent_lost) in
      let w₃ =
        if battery_low m.battery_voltage_v
        then fault_set w₂ (mask undervoltage)
        else fault_clear w₂ (mask undervoltage) in
      (w₃, watchdog_check_in checkins subsystem_safety)

  -- One turn of the thread's loop; the Boolean tells whether the watchdog would be fed.
  unfoldable pub safety_monitor_turn :
      ℤ → RobotCommand F → Monitor F → ℕ → List Bool → Bool × ℕ × List Bool
  unfolding safety_monitor_evaluate
  safety_monitor_turn now cmd_target m fault_word checkins =
      let (fault_word', checkins') = safety_monitor_evaluate now cmd_target m fault_word checkins in
      let (fed, checkins'') = watchdog_feed checkins' in (fed, fault_word', checkins'')
