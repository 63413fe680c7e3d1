-- ===== src/Safety/Monitor/Verdict.antt =====
-- What an evaluation decides about every fault, and about motion.
use micro_ros_controller_fir.Prelude.{ℕ, ◌≡◌, Bool, not, ◌&&◌, List, arith}
use micro_ros_controller_fir.Prelude.Int.{ℤ}
use micro_ros_controller_fir.Common.Real.{Float}
use micro_ros_controller_fir.Common.Types.{RobotCommand}
use micro_ros_controller_fir.Safety.Fault.{
  FaultBit, cmd_timeout, agent_lost, undervoltage, estop, watchdog,
}
use micro_ros_controller_fir.Safety.Fault.Flags.{holds, decide-holds, motion_inhibited-holds}
use micro_ros_controller_fir.Safety.Monitor.{
  Monitor, command_stale, battery_low, safety_monitor_evaluate, safety_monitor_motion_permitted,
}

module _ {F : Type 0} (fl : Float F) where
  -- The evaluation as a specification: three faults are decided afresh, the others stay.
  abbrev pub verdict : ℤ → RobotCommand F → Monitor F → ℕ → FaultBit → Bool
  verdict now cmd m w cmd_timeout = command_stale fl now cmd
  verdict now cmd m w agent_lost = not m.agent_connected
  verdict now cmd m w undervoltage = battery_low fl m.battery_voltage_v
  verdict now cmd m w f = holds w f

  -- After an evaluation the command timeout, the lost agent and the undervoltage are active exactly
  -- when their condition holds now, whatever was latched before, and every other fault is as it was.
  pub evaluate-verdict :
      (now : ℤ) (cmd : RobotCommand F) (m : Monitor F) (w : ℕ) (checkins : List Bool) (f : FaultBit)
      → holds (safety_monitor_evaluate fl now cmd m w checkins).0 f ≡ verdict now cmd m w f
  unfolding safety_monitor_evaluate
  evaluate-verdict now cmd m w c cmd_timeout = simp decide-holds
  evaluate-verdict now cmd m w c f = simp decide-holds

  -- After an evaluation motion is permitted exactly when the command is valid and fresh, the agent is
  -- connected, the battery is not low, and neither an emergency stop nor a watchdog fault is latched.
  pub evaluate-permits :
      (now : ℤ) (cmd : RobotCommand F) (m : Monitor F) (w : ℕ) (checkins : List Bool)
      → safety_monitor_motion_permitted (safety_monitor_evaluate fl now cmd m w checkins).0 ≡ (
          not (command_stale fl now cmd)
          && m.agent_connected
          && not (battery_low fl m.battery_voltage_v)
          && not (holds w estop)
          && not (holds w watchdog))
  unfolding safety_monitor_motion_permitted
  evaluate-permits now cmd m w c = simp (motion_inhibited-holds, evaluate-verdict) (ground arith)
