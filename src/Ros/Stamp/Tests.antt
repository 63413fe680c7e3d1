-- ===== src/Ros/Stamp/Tests.antt =====
-- A concrete stamp.
use micro_ros_controller_fir.Prelude.{◌+◌, ◌*◌, ◌/◌, ◌<◌, ◌≡◌, arith}
use micro_ros_controller_fir.Prelude.Int.{pos}
use micro_ros_controller_fir.Ros.Stamp.{stamp_of}
use micro_ros_controller_fir.Ros.Stamp.Laws.{stamp_roundtrip}

stamp_roundtrip_example :
    let s = stamp_of (pos 123_456) in
    (s.sec ≡ pos (123_456 / 1000))
    × (s.nanosec < 1_000_000_000)
    × (123_456 / 1000 * 1000 + s.nanosec / 1_000_000 ≡ 123_456)
stamp_roundtrip_example = stamp_roundtrip 123_456 (omega arith)
