-- ===== src/Ros/BatteryPub/Tests.antt =====
-- A power monitor that counts its readings; every third one fails, and those below 11 are not marked valid.
use micro_ros_controller_fir.Prelude.{
  ℕ, ◌%◌, ◌≡◌, refl, ltb, not, [], ◌∷◌, ◌==◌, ◌-◌, if◌then◌else◌,
}
use micro_ros_controller_fir.Prelude.Int.{pos}
use micro_ros_controller_fir.Common.Types.{eio, success, failure, BatteryState}
use micro_ros_controller_fir.Ros.BatteryPub.{PowerMonitor, battery_pub_publish}
use micro_ros_controller_fir.Ros.BatteryPub.Readings.{published}

abbrev reading : ℕ → BatteryState ℕ
reading v = record {
  voltage_v = v;
  current_a = 1;
  power_w = v;
  soc = 0;
  status_flags = 0;
  timestamp_ms = pos 0;
}

abbrev falling : PowerMonitor ℕ ℕ
falling = record {
  power_monitor_read = λ v stack.
      (v - 1, if v % 3 == 0 then failure eio else success, if v % 3 == 0 then stack else reading v);
  valid = λ bat. not (ltb bat.voltage_v 11);
}

falling_result :
    published falling 0
      (reading 99 ∷ reading 99 ∷ reading 99 ∷ reading 99 ∷ [])
      13
      (record { voltage = 0; current = 0; power_supply_status = 0 })
    ≡ record { voltage = 13; current = 1; power_supply_status = 0 }
      ∷ record { voltage = 11; current = 1; power_supply_status = 0 }
      ∷ []
unfolding published battery_pub_publish
falling_result = refl
