-- ===== src/Ros/ImuPub.antt =====
-- The IMU publisher (apps/rover_controller/src/ros/publishers/imu_pub.c). `ImuMsg` holds the fields of
-- the static `sensor_msgs/Imu` that the code writes; the message is what `rcl_publish` is given.
pub mod Covariance
mod Tests
use micro_ros_controller_fir.Prelude.{Bool, not, ◌||◌, if◌then◌else◌}
use micro_ros_controller_fir.Common.Real.{Float, Convert}
use micro_ros_controller_fir.Common.Types.{Errno, eio, Rc, success, failure, Vector, ImuSample}
use micro_ros_controller_fir.Common.Params.{zero_f}
use micro_ros_controller_fir.Ros.Stamp.{Stamp, stamp_of}

pub record Quaternion (D : Type 0) : Type 0 where
  pub x : D
  pub y : D
  pub z : D
  pub w : D

pub record ImuMsg (D : Type 0) : Type 0 where
  pub stamp : Stamp
  pub linear_acceleration : Vector D
  pub angular_velocity : Vector D
  pub orientation : Quaternion D
  pub orientation_covariance_0 : D

-- The result of `rclc_publisher_init_default`.
unfoldable pub imu_pub_init : Bool → Rc
imu_pub_init publisher_init = if not publisher_init then failure eio else success

-- The test for magnetometer data.
unfoldable pub has_mag : {F : Type 0} → Float F → ImuSample F → Bool
has_mag fl sample =
    fl.ne sample.mag.x (zero_f fl)
    || fl.ne sample.mag.y (zero_f fl)
    || fl.ne sample.mag.z (zero_f fl)

module _ {F D : Type 0} (cv : Convert F D) where
  open cv use {widen, double, neg_double}

  abbrev pub widen_vector : Vector F → Vector D
  widen_vector v = record { x = widen v.x; y = widen v.y; z = widen v.z }

  abbrev pub no_rotation : Quaternion D
  no_rotation = record { x = double 0 1; y = double 0 1; z = double 0 1; w = double 10 1 }

  abbrev pub minus_one : D
  minus_one = neg_double (double 10 1)

module _ {F D : Type 0} (fl : Float F) (cv : Convert F D) where
  -- The message after the call, which is also what is published.
  unfoldable pub imu_pub_publish : ImuSample F → ImuMsg D → ImuMsg D
  imu_pub_publish sample msg =
      let filled = record msg {
        stamp = stamp_of sample.timestamp_ms;
        linear_acceleration = widen_vector cv sample.accel;
        angular_velocity = widen_vector cv sample.gyro;
      } in
      if has_mag fl sample
      then record filled { orientation = no_rotation cv }
      else record filled { orientation_covariance_0 = minus_one cv }
