-- ===== src/Ros/Telemetry/Tests.antt =====
-- Concrete messages.
use micro_ros_controller_fir.Prelude.{
  ◌≡◌, some, none, true, List, [], ◌∷◌, if◌then◌else◌, ℕ, refl, false,
}
use micro_ros_controller_fir.App.Odometry.{odometry_init}
use micro_ros_controller_fir.App.Odometry.Pose.{Call, reset, update, calls, last_pose, last_stamp}
use micro_ros_controller_fir.Ros.Telemetry.{
  OdomMsg, odom_pub_publish, joint_names, wheel_states_pub_init, wheel_states_pub_publish,
}
use micro_ros_controller_fir.Ros.Telemetry.Ready.{odom_published}
use micro_ros_controller_fir.Prelude.Int.{pos}
use micro_ros_controller_fir.Rover.State.{Rover}
use micro_ros_controller_fir.Rover.Threads.{Event, safety, control, final}
use micro_ros_controller_fir.Ros.Telemetry.Wheels.{has_turn, wheel_states_published}
use micro_ros_controller_fir.Instances.Robot.{all_four, no_feedback, counting_drive, driving}
use micro_ros_controller_fir.Instances.FixedPoint.{Fixed, fixed, fixed_conversions, literal}

abbrev trip : List (Call Fixed)
trip =
    reset (literal 3 0) (literal 4 0) (literal 0 0)
    ∷ update (some (record driving.latest_wheel_state { valid = true }))
    ∷ []

abbrev empty_msg : OdomMsg Fixed
empty_msg = record {
  position_x = literal 0 0;
  position_y = literal 0 0;
  position_z = literal 0 0;
  linear_x = literal 0 0;
  angular_z = literal 0 0;
}

odom_published_example :
    let pose = last_pose fixed (odometry_init fixed).pose trip in
    (odom_pub_publish fixed_conversions driving.odom_state
      (calls fixed (odometry_init fixed) trip)
      empty_msg).0
    ≡ (if (last_stamp fixed (odometry_init fixed).timestamp_ms (odometry_init fixed).valid trip).1
        then some (record {
          position_x = pose.x;
          position_y = pose.y;
          position_z = literal 0 1;
          linear_x = literal 0 0;
          angular_z = literal 0 0;
        })
        else none)
odom_published_example = odom_published fixed fixed_conversions trip driving.odom_state empty_msg

-- No wheel state is recorded before the first turn.
abbrev started : Rover Fixed ℕ
started = record driving {
  latest_wheel_state = record driving.latest_wheel_state { valid = false };
}

abbrev events : List (Event Fixed Fixed)
events =
    safety (pos 10)
    ∷ control (pos 20) (pos 21) (all_four (literal 0 0)) (all_four no_feedback)
    ∷ safety (pos 30)
    ∷ []

wheel_states_published_example :
    (wheel_states_pub_publish driving.latest_wheel_state
      (final fixed fixed_conversions counting_drive started events).latest_wheel_state
      (wheel_states_pub_init true
        (record { name = []; position = literal 0 0 ∷ []; velocity = [] })).1).0
    ≡ (if has_turn events
        then some (record { name = joint_names; position = literal 0 0 ∷ []; velocity = [] })
        else none)
wheel_states_published_example =
    wheel_states_published fixed fixed_conversions counting_drive started events
      driving.latest_wheel_state (record { name = []; position = literal 0 0 ∷ []; velocity = [] })
      refl
