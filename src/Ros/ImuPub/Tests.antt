-- ===== src/Ros/ImuPub/Tests.antt =====
-- Concrete samples.
use micro_ros_controller_fir.Prelude.{◌≡◌, refl, true, false, [], ◌∷◌}
use micro_ros_controller_fir.Prelude.Int.{pos}
use micro_ros_controller_fir.Common.Types.{Vector, ImuSample}
use micro_ros_controller_fir.Ros.ImuPub.{ImuMsg, has_mag, no_rotation, minus_one, imu_pub_publish}
use micro_ros_controller_fir.Ros.ImuPub.Covariance.{publish_all, mark_is_sticky}
use micro_ros_controller_fir.Instances.FixedPoint.{Fixed, fixed, fixed_conversions, literal, scale}

abbrev gravity : Vector Fixed
gravity = record { x = literal 0 0; y = literal 0 0; z = literal 981 2 }

abbrev nothing : Vector Fixed
nothing = record { x = literal 0 0; y = literal 0 0; z = literal 0 0 }

abbrev plain : ImuSample Fixed
plain = record { accel = gravity; gyro = nothing; mag = nothing; timestamp_ms = pos 1500 }

-- The same with a magnetic field.
abbrev magnetic : ImuSample Fixed
magnetic = record plain { mag = gravity }

abbrev fresh_msg : ImuMsg Fixed
fresh_msg = record {
  stamp = record { sec = pos 0; nanosec = 0 };
  linear_acceleration = nothing;
  angular_velocity = nothing;
  orientation = record { x = literal 0 0; y = literal 0 0; z = literal 0 0; w = literal 0 0 };
  orientation_covariance_0 = literal 0 0;
}

plain-has_mag : has_mag fixed plain ≡ false
unfolding has_mag scale
plain-has_mag = refl

magnetic-has_mag : has_mag fixed magnetic ≡ true
unfolding has_mag scale
magnetic-has_mag = refl

mark_is_sticky_example :
    let sent = imu_pub_publish fixed fixed_conversions magnetic (
      publish_all fixed fixed_conversions
        (imu_pub_publish fixed fixed_conversions plain fresh_msg)
        (magnetic ∷ [])) in
    (sent.orientation ≡ no_rotation fixed_conversions)
    × (sent.orientation_covariance_0 ≡ minus_one fixed_conversions)
mark_is_sticky_example =
    mark_is_sticky fixed fixed_conversions fresh_msg plain (magnetic ∷ []) magnetic plain-has_mag
      magnetic-has_mag
