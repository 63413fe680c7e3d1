-- ===== src/Ros/Stamp/Laws.antt =====
-- What a stamp tells of the time.
use micro_ros_controller_fir.Prelude.{ℕ, ◌+◌, ◌*◌, ◌/◌, ◌^◌, ◌<◌, ◌≡◌, arith}
use micro_ros_controller_fir.Prelude.Int.{pos}
use micro_ros_controller_fir.Ros.Stamp.{stamp_of}

-- For a time from 0 up to, but not including, 2 ^ 31 seconds the stamp has the whole seconds and
-- less than a second in nanoseconds, and gives the time back to the millisecond.
pub stamp_roundtrip :
    (n : ℕ)
    → n < 2 ^ 31 * 1000
    → let s = stamp_of (pos n) in
      (s.sec ≡ pos (n / 1000))
      × (s.nanosec < 1_000_000_000)
      × (n / 1000 * 1000 + s.nanosec / 1_000_000 ≡ n)
unfolding stamp_of
stamp_roundtrip n h = ground arith
