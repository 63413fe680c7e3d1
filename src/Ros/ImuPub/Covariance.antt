-- ===== src/Ros/ImuPub/Covariance.antt =====
-- What the IMU messages say of the orientation.
use micro_ros_controller_fir.Prelude.{◌≡◌, true, false, List, [], ◌∷◌, arith}
use micro_ros_controller_fir.Prelude.Int.{ℤ}
use micro_ros_controller_fir.Common.Real.{Float, Convert, KeepsZero}
use micro_ros_controller_fir.Common.Types.{Vector, ImuSample}
use micro_ros_controller_fir.Hal.Imu.{imu_sample_of}
use micro_ros_controller_fir.Ros.Stamp.{stamp_of}
use micro_ros_controller_fir.Ros.ImuPub.{
  ImuMsg, has_mag, no_rotation, minus_one, imu_pub_publish, widen_vector,
}

module _ {F D V : Type 0} (fl : Float F) (cv : Convert F D) (to_float : V → F) where
  -- With the laws of IEEE 754 for zeros: a sample of the IMU adapter is published with its own
  -- time, acceleration and angular velocity, and always with the mark that no orientation is known,
  -- since the adapter fills in no magnetometer data; the orientation of the message is not written.
  publish-sample :
      KeepsZero fl
      → (now : ℤ) (accel gyro : Vector V) (msg : ImuMsg D)
      → let sample = imu_sample_of fl to_float now accel gyro in
        imu_pub_publish fl cv sample msg ≡ record {
          stamp = stamp_of now;
          linear_acceleration = widen_vector cv sample.accel;
          angular_velocity = widen_vector cv sample.gyro;
          orientation = msg.orientation;
          orientation_covariance_0 = minus_one cv;
        }
  unfolding imu_pub_publish imu_sample_of has_mag
  publish-sample ieee now accel gyro msg = ground (arith, ieee.zero_zero)

module _ {F D : Type 0} (fl : Float F) (cv : Convert F D) where
  pub publish_all : ImuMsg D → List (ImuSample F) → ImuMsg D
  publish_all msg [] = msg
  publish_all msg (s ∷ ss) = publish_all (imu_pub_publish fl cv s msg) ss

  covariance_stays :
      (msg : ImuMsg D) (s : ImuSample F)
      → msg.orientation_covariance_0 ≡ minus_one cv
      → (imu_pub_publish fl cv s msg).orientation_covariance_0 ≡ minus_one cv
  unfolding imu_pub_publish
  covariance_stays msg s h = ground arith

  covariance_set :
      (msg : ImuMsg D) (s : ImuSample F)
      → has_mag fl s ≡ false
      → (imu_pub_publish fl cv s msg).orientation_covariance_0 ≡ minus_one cv
  unfolding imu_pub_publish
  covariance_set msg s h = rw h

  covariance_all :
      (msg : ImuMsg D) (ss : List (ImuSample F))
      → msg.orientation_covariance_0 ≡ minus_one cv
      → (publish_all msg ss).orientation_covariance_0 ≡ minus_one cv
  unfolding publish_all
  covariance_all msg [] h = h
  covariance_all msg (s ∷ ss) h =
      covariance_all (imu_pub_publish fl cv s msg) ss (covariance_stays msg s h)

  orientation_set :
      (msg : ImuMsg D) (s : ImuSample F)
      → has_mag fl s ≡ true
      → (imu_pub_publish fl cv s msg).orientation ≡ no_rotation cv
  unfolding imu_pub_publish
  orientation_set msg s h = rw h

  -- If a sample without magnetometer data has been published, then whatever was published since, a
  -- sample with magnetometer data is published with an orientation and still with the mark that no
  -- orientation is known.
  pub mark_is_sticky :
      (msg : ImuMsg D) (first : ImuSample F) (between : List (ImuSample F)) (last : ImuSample F)
      → has_mag fl first ≡ false
      → has_mag fl last ≡ true
      → let sent =
          imu_pub_publish fl cv last (publish_all (imu_pub_publish fl cv first msg) between) in
        (sent.orientation ≡ no_rotation cv) × (sent.orientation_covariance_0 ≡ minus_one cv)
  mark_is_sticky msg first between last h k = (
    orientation_set _ last k,
    covariance_stays _ last (covariance_all _ between (covariance_set msg first h)),
  )
