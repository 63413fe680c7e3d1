-- ===== src/Ros/BatteryPub.antt =====
-- The battery publisher (apps/rover_controller/src/ros/publishers/battery_pub.c). The power monitor, whose
-- header hal/power_monitor.h is not in the repository, is a parameter. So is the field `valid`, which the
-- code reads of a battery state, while `struct battery_state` of hal/sensor_types.h has no such field. Of
-- the static message only the fields that the code writes are held here; `stack` is the local structure,
-- which the code does not initialise.
pub mod Readings
mod Tests
use micro_ros_controller_fir.Prelude.{
  ℕ, zero, suc, Bool, not, ◌||◌, Option, none, some, List, [], ◌∷◌, if◌then◌else◌,
}
use micro_ros_controller_fir.Common.Types.{Rc, BatteryState}
use micro_ros_controller_fir.Ros.Telemetry.{failed, publisher_init}

-- `power_monitor_read` of a monitor in state `Dev` is given the structure as it stands, and may leave it
-- so.
pub record PowerMonitor (F Dev : Type 0) : Type 0 where
  pub power_monitor_read : Dev → BatteryState F → Dev × Rc × BatteryState F
  pub valid : BatteryState F → Bool

-- `POWER_SUPPLY_STATUS_UNKNOWN` of the message package is the argument `unknown`.
pub record BatteryMsg (F : Type 0) : Type 0 where
  pub voltage : F
  pub current : F
  pub power_supply_status : ℕ

unfoldable pub battery_pub_init : Bool → Rc
unfolding publisher_init
battery_pub_init created = publisher_init created

module _ {F Dev : Type 0} (power : PowerMonitor F Dev) (unknown : ℕ) where
  open power use {power_monitor_read, valid}

  abbrev pub battery_msg_of : BatteryState F → BatteryMsg F
  battery_msg_of bat = record {
    voltage = bat.voltage_v;
    current = bat.current_a;
    power_supply_status = unknown;
  }

  -- The message that is published, if any, the static message and the power monitor after it.
  unfoldable pub battery_pub_publish :
      BatteryState F → Dev → BatteryMsg F → Option (BatteryMsg F) × BatteryMsg F × Dev
  battery_pub_publish stack dev msg =
      let (dev', rc, bat) = power_monitor_read dev stack in
      if failed rc || not (valid bat)
      then (none, msg, dev')
      else (some (battery_msg_of bat), battery_msg_of bat, dev')
