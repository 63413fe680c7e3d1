-- ===== src/Common/Time/Laws.antt =====
-- What the time helpers promise.
use micro_ros_controller_fir.Prelude.{ℕ, ◌-◌, ◌^◌, ◌<◌, ◌≡◌, ◌⊎◌, ◌↔◌, true, arith}
use micro_ros_controller_fir.Prelude.Int.{ℤ, pos, negsuc, ◌-ℤ◌, ◌≤ℤ◌, ◌<ℤ◌, -ℤ_parts}
use micro_ros_controller_fir.Common.Time.{time_is_expired_ms, time_elapsed_ms}

-- A stamp is expired exactly if it is not positive, the timeout is not positive, or at least the
-- timeout has passed since.
expired_iff :
    (now timestamp_ms timeout_ms : ℤ)
    → (time_is_expired_ms now timestamp_ms timeout_ms ≡ true)
      ↔ ((timestamp_ms ≤ℤ pos 0) ⊎ (timeout_ms ≤ℤ pos 0) ⊎ (timeout_ms ≤ℤ now -ℤ timestamp_ms))
unfolding time_is_expired_ms
expired_iff now t d = ground arith

-- A stamp that is expired at one time is expired at every later time.
pub expired_mono :
    (now later timestamp_ms timeout_ms : ℤ)
    → now ≤ℤ later
    → time_is_expired_ms now timestamp_ms timeout_ms ≡ true
    → time_is_expired_ms later timestamp_ms timeout_ms ≡ true
unfolding time_is_expired_ms
expired_mono now later t d h e = ground (arith, -ℤ_parts now t, -ℤ_parts later t)

-- The elapsed time is the difference of the two times, or 0 where that is greater: it is one of the
-- two, and not below either.
time_elapsed_lem :
    (now timestamp_ms : ℤ)
    → let elapsed = time_elapsed_ms now timestamp_ms in
      ((elapsed ≡ now -ℤ timestamp_ms) ⊎ (elapsed ≡ pos 0))
      × (now -ℤ timestamp_ms ≤ℤ elapsed)
      × (pos 0 ≤ℤ elapsed)
unfolding time_elapsed_ms
time_elapsed_lem now t = ground arith

-- For times from 0 up to INT64_MAX the difference in `time_is_expired_ms` stays inside `int64_t`.
pub no_overflow :
    (now timestamp_ms : ℕ)
    → now < 2 ^ 63
    → timestamp_ms < 2 ^ 63
    → (negsuc (2 ^ 63 - 1) ≤ℤ pos now -ℤ pos timestamp_ms)
      × (pos now -ℤ pos timestamp_ms <ℤ pos (2 ^ 63))
no_overflow now t p q = omega (arith, -ℤ_parts (pos now) (pos t))
