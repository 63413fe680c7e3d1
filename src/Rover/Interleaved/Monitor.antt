-- ===== src/Rover/Interleaved/Monitor.antt =====
-- The safety monitor (`safety_monitor_evaluate` and the thread of
-- apps/rover_controller/src/safety/safety_monitor.c) one access at a time.
use micro_ros_controller_fir.Prelude.{◌≡◌, refl, Bool, not, some, if◌then◌else◌}
use micro_ros_controller_fir.Prelude.Int.{ℤ}
use micro_ros_controller_fir.Common.Real.{Float}
use micro_ros_controller_fir.Common.Types.{written, RobotCommand}
use micro_ros_controller_fir.Safety.Fault.{
  cmd_timeout, agent_lost, undervoltage, mask, fault_set, fault_clear,
}
use micro_ros_controller_fir.Safety.Watchdog.{subsystem_safety, watchdog_feed, watchdog_check_in}
use micro_ros_controller_fir.Safety.Monitor.{command_stale, battery_low}
use micro_ros_controller_fir.App.Command.{robot_command_get}
use micro_ros_controller_fir.Rover.State.{Rover}

pub data MonitorPc (F : Type 0) : Type 0 where
  asleep : MonitorPc F  -- robot_command_get
  has_command : RobotCommand F → MonitorPc F  -- fault_set or fault_clear of the command timeout
  timeout_decided : MonitorPc F  -- the section of monitor_lock
  has_inputs : (connected : Bool) → (voltage : F) → MonitorPc F  -- ... of the lost agent
  agent_decided : (voltage : F) → MonitorPc F  -- ... of the undervoltage
  battery_decided : MonitorPc F  -- watchdog_check_in
  evaluated : MonitorPc F  -- watchdog_feed

module _ {F Dev : Type 0} (fl : Float F) where
  -- `now` is the time that the command is compared with.
  unfoldable pub monitor_move : ℤ → MonitorPc F → Rover F Dev → Rover F Dev × MonitorPc F
  unfolding robot_command_get
  monitor_move now asleep r =
      (r, has_command (written r.cmd_target (robot_command_get (some r.cmd_target) r.cmd_target)))
  monitor_move now (has_command cmd) r = (
    record r {
      fault_word =
          if command_stale fl now cmd
          then fault_set r.fault_word (mask cmd_timeout)
          else fault_clear r.fault_word (mask cmd_timeout);
    },
    timeout_decided,
  )
  monitor_move now timeout_decided r =
      (r, has_inputs r.monitor.agent_connected r.monitor.battery_voltage_v)
  monitor_move now (has_inputs connected voltage) r = (
    record r {
      fault_word =
          if not connected
          then fault_set r.fault_word (mask agent_lost)
          else fault_clear r.fault_word (mask agent_lost);
    },
    agent_decided voltage,
  )
  monitor_move now (agent_decided voltage) r = (
    record r {
      fault_word =
          if battery_low fl voltage
          then fault_set r.fault_word (mask undervoltage)
          else fault_clear r.fault_word (mask undervoltage);
    },
    battery_decided,
  )
  monitor_move now battery_decided r =
      (record r { checkins = watchdog_check_in r.checkins subsystem_safety }, evaluated)
  monitor_move now evaluated r = (record r { checkins = (watchdog_feed r.checkins).1 }, asleep)

  -- An access of the safety monitor leaves the lifecycle state and its own inputs.
  pub monitor_move-frame :
      (now : ℤ) (pc : MonitorPc F) (r : Rover F Dev)
      → let r' = (monitor_move now pc r).0 in
        (r'.current_state ≡ r.current_state) × (r'.monitor ≡ r.monitor)
  unfolding monitor_move
  monitor_move-frame now asleep r = (refl, refl)
  monitor_move-frame now (has_command cmd) r = (refl, refl)
  monitor_move-frame now timeout_decided r = (refl, refl)
  monitor_move-frame now (has_inputs connected voltage) r = (refl, refl)
  monitor_move-frame now (agent_decided voltage) r = (refl, refl)
  monitor_move-frame now battery_decided r = (refl, refl)
  monitor_move-frame now evaluated r = (refl, refl)
