-- ===== src/App/Kinematics/Tests.antt =====
-- The kinematics at a concrete command.
use micro_ros_controller_fir.Prelude.{◌≡◌, refl, true, some}
use micro_ros_controller_fir.Prelude.Int.{pos}
use micro_ros_controller_fir.Common.Real.{IsZero}
use micro_ros_controller_fir.Common.Types.{success, AllMotors, RobotCommand, RobotTwist}
use micro_ros_controller_fir.Common.Clamp.{Within}
use micro_ros_controller_fir.Common.Params.{wheel_radius_m, max_wheel_velocity_rad_s}
use micro_ros_controller_fir.App.Kinematics.{
  turn_speed, unclamped_wheels, kinematics_compute_wheel_velocities, kinematics_compute_twist,
}
use micro_ros_controller_fir.App.Kinematics.Straight.{IsModerate, straight-twist}
use micro_ros_controller_fir.Instances.FixedPoint.{Fixed, fixed, literal, scale}
use micro_ros_controller_fir.Instances.FixedPointLaws.{fixed-KeepsZero}
use micro_ros_controller_fir.Instances.FixedPointValues.{fixed-KeepsValue}
use micro_ros_controller_fir.Instances.Robot.{all_four}

-- 0.7 m/s.
abbrev straight : RobotCommand Fixed
straight = record {
  linear_x = literal 7 1;
  angular_z = literal 0 0;
  timestamp_ms = pos 0;
  valid = true;
}

abbrev no_twist : RobotTwist Fixed
no_twist = record { linear_x = literal 0 0; angular_z = literal 0 0 }

abbrev wheel_speed : Fixed
wheel_speed = fixed.div straight.linear_x (wheel_radius_m fixed)

abbrev ground_speed : Fixed
ground_speed = fixed.mul wheel_speed (wheel_radius_m fixed)

straight-IsModerate : IsModerate fixed straight.linear_x
unfolding scale
straight-IsModerate = (refl, refl)

not_zero : fixed.ne straight.linear_x (literal 0 0) ≡ true
unfolding scale
not_zero = refl

no_turn : IsZero fixed straight.angular_z
unfolding scale
no_turn = refl

wheel-IsModerate : IsModerate fixed wheel_speed
unfolding scale
wheel-IsModerate = (refl, refl)

ground-IsModerate : IsModerate fixed ground_speed
unfolding scale
ground-IsModerate = (refl, refl)

no_limit :
    AllMotors (Within fixed (max_wheel_velocity_rad_s fixed)) (unclamped_wheels fixed straight)
unfolding scale unclamped_wheels turn_speed
no_limit = ((refl, refl), (refl, refl), (refl, refl), (refl, refl))

straight-twist_example :
    (omega : Fixed) × IsZero fixed omega
    × (kinematics_compute_twist fixed
          (kinematics_compute_wheel_velocities fixed
            (some straight)
            (some (all_four (literal 0 0)))).1
          (some no_twist)
        ≡ (success, some (record { linear_x = ground_speed; angular_z = omega })))
straight-twist_example =
    straight-twist fixed fixed-KeepsZero fixed-KeepsValue straight (all_four (literal 0 0)) no_twist
      straight-IsModerate not_zero no_turn wheel-IsModerate ground-IsModerate no_limit
