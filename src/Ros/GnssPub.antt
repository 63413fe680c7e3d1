-- ===== src/Ros/GnssPub.antt =====
-- The GNSS publisher (apps/rover_controller/src/ros/publishers/gnss_pub.c). `NavSatFix` holds the
-- fields of the static `sensor_msgs/NavSatFix` that the code writes. The constants of Zephyr's
-- `enum gnss_fix_quality` and of `sensor_msgs/NavSatStatus` are parameters.
pub mod Status
mod Tests
use micro_ros_controller_fir.Prelude.{ℕ, Bool, not, ◌||◌, if◌then◌else◌, ◌==◌}
use micro_ros_controller_fir.Prelude.Int.{ℤ}
use micro_ros_controller_fir.Common.Real.{Convert}
use micro_ros_controller_fir.Common.Types.{Errno, eio, Rc, success, failure, GnssFix}
use micro_ros_controller_fir.Ros.Stamp.{Stamp, stamp_of}

pub record Constants : Type 0 where
  pub quality_invalid : ℕ
  pub quality_dgnss : ℕ
  pub quality_rtk : ℕ
  pub quality_float_rtk : ℕ
  pub status_no_fix : ℤ
  pub status_fix : ℤ
  pub status_sbas_fix : ℤ
  pub status_gbas_fix : ℤ
  pub service_gps : ℕ
  pub covariance_type_unknown : ℕ

pub record NavSatFix (D : Type 0) : Type 0 where
  pub stamp : Stamp
  pub latitude : D
  pub longitude : D
  pub altitude : D
  pub status : ℤ
  pub service : ℕ
  pub position_covariance_0 : D
  pub position_covariance_type : ℕ

module _ (c : Constants) where
  -- The switch over the quality; the cases that share a body are joined.
  unfoldable pub status_of : ℕ → ℤ
  status_of quality =
      if quality == c.quality_invalid
      then c.status_no_fix
      else if quality == c.quality_dgnss
      then c.status_sbas_fix
      else if quality == c.quality_rtk || quality == c.quality_float_rtk
      then c.status_gbas_fix
      else c.status_fix

  module _ {F D : Type 0} (cv : Convert F D) where
    -- The frame id, a constant string, is left out.
    unfoldable pub gnss_pub_init : Bool → NavSatFix D → Rc × NavSatFix D
    gnss_pub_init publisher_init msg = if not publisher_init then (failure eio, msg) else (
      success,
      record msg {
        position_covariance_0 = cv.neg_double (cv.double 10 1);
        position_covariance_type = c.covariance_type_unknown;
      },
    )

  -- The message after the call, which is also what is published.
  unfoldable pub gnss_pub_publish : {D : Type 0} → GnssFix D → NavSatFix D → NavSatFix D
  gnss_pub_publish fix msg = record msg {
    stamp = stamp_of fix.timestamp_ms;
    latitude = fix.latitude;
    longitude = fix.longitude;
    altitude = fix.altitude;
    status = status_of fix.quality;
    service = c.service_gps;
  }
