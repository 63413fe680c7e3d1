-- ===== src/Common/Time.antt =====
-- apps/rover_controller/src/common/time_utils.c. The kernel's `k_uptime_get` is a parameter: each
-- function takes the time that its call of it returns.
pub mod Laws
use micro_ros_controller_fir.Prelude.{◌||◌, Bool, true, if◌then◌else◌}
use micro_ros_controller_fir.Prelude.Int.{ℤ, pos, ◌-ℤ◌, leb_ℤ, ltb_ℤ}

unfoldable pub time_is_expired_ms : ℤ → ℤ → ℤ → Bool
time_is_expired_ms now timestamp_ms timeout_ms =
    if leb_ℤ timestamp_ms (pos 0) || leb_ℤ timeout_ms (pos 0)
    then true
    else leb_ℤ timeout_ms (now -ℤ timestamp_ms)

unfoldable pub time_elapsed_ms : ℤ → ℤ → ℤ
time_elapsed_ms now timestamp_ms =
    let delta = now -ℤ timestamp_ms in if ltb_ℤ (pos 0) delta then delta else pos 0
