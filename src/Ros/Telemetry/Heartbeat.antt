-- ===== src/Ros/Telemetry/Heartbeat.antt =====
-- What a listener can tell from two heartbeats.
use micro_ros_controller_fir.Prelude.{ℕ, ◌+◌, ◌-◌, ◌%◌, ◌^◌, ◌<◌, ◌≡◌, arith}
use micro_ros_controller_fir.Prelude.Int.{pos}
use micro_ros_controller_fir.Ros.Telemetry.{heartbeat_pub_publish}

-- For a first time that is not negative, the difference of two heartbeats as 32-bit numbers is the
-- time between them, if that is less than 2 ^ 32 milliseconds, also across a wrap-around.
heartbeat_elapsed :
    (now elapsed : ℕ)
    → elapsed < 2 ^ 32
    → (heartbeat_pub_publish (pos (now + elapsed)) + (2 ^ 32 - heartbeat_pub_publish (pos now)))
        % 2 ^ 32
      ≡ elapsed
unfolding heartbeat_pub_publish
heartbeat_elapsed now elapsed h = omega arith
