-- ===== src/Ros/GnssPub/Tests.antt =====
-- A concrete report.
use micro_ros_controller_fir.Prelude.{◌≡◌, refl, ◌⊎◌, inr, arith, true, false, List, [], ◌∷◌, ◌++◌}
use micro_ros_controller_fir.Prelude.Int.{pos, negsuc}
use micro_ros_controller_fir.Common.Types.{GnssFix}
use micro_ros_controller_fir.Hal.Queue.{MsgQueue}
use micro_ros_controller_fir.Hal.Gnss.{gnss_msgq_count, GnssData, gnss_fix_of, gnss_data_cb}
use micro_ros_controller_fir.Ros.Stamp.{stamp_of}
use micro_ros_controller_fir.Ros.GnssPub.{Constants, NavSatFix, gnss_pub_publish}
use micro_ros_controller_fir.Ros.GnssPub.Status.{IsDistinct, gbas_fix, publish-report}
use micro_ros_controller_fir.Instances.Fifo.{fifo}
use micro_ros_controller_fir.Instances.FixedPoint.{Fixed, fixed_conversions, literal}

abbrev constants : Constants
constants = record {
  quality_invalid = 0;
  quality_dgnss = 2;
  quality_rtk = 4;
  quality_float_rtk = 5;
  status_no_fix = negsuc 0;
  status_fix = pos 0;
  status_sbas_fix = pos 1;
  status_gbas_fix = pos 2;
  service_gps = 1;
  covariance_type_unknown = 0;
}

constants-IsDistinct : IsDistinct constants
constants-IsDistinct = record {
  invalid_dgnss = λ e. ground arith;
  invalid_rtk = λ e. ground arith;
  invalid_float_rtk = λ e. ground arith;
  dgnss_rtk = λ e. ground arith;
  dgnss_float_rtk = λ e. ground arith;
}

abbrev rtk_report : GnssData
rtk_report = record {
  satellites_cnt = 11;
  fix_quality = 5;
  no_fix = false;
  latitude = pos 40_000_000_000;
  longitude = negsuc 3_000_000_000;
  altitude = pos 650_000;
}

abbrev no_position : NavSatFix Fixed
no_position = record {
  stamp = record { sec = pos 0; nanosec = 0 };
  latitude = literal 0 0;
  longitude = literal 0 0;
  altitude = literal 0 0;
  status = negsuc 0;
  service = 0;
  position_covariance_0 = literal 0 0;
  position_covariance_type = 0;
}

-- A message waits.
abbrev waiting : List (GnssFix Fixed)
waiting = gnss_fix_of fixed_conversions (pos 900) rtk_report ∷ []

abbrev receiver_queue : MsgQueue (GnssFix Fixed) gnss_msgq_count
receiver_queue = fifo (GnssFix Fixed) gnss_msgq_count

publish-report_example :
    let after = gnss_data_cb fixed_conversions receiver_queue (pos 1500) rtk_report waiting in
    ((rtk_report.no_fix ≡ true) × (after ≡ waiting))
    ⊎ ((rtk_report.no_fix ≡ false)
        × ((fix : GnssFix Fixed) × (after ≡ waiting ++ fix ∷ [])
            × (gnss_pub_publish constants fix no_position ≡ record no_position {
              stamp = stamp_of (pos 1500);
              latitude =
                  fixed_conversions.div_double
                    (fixed_conversions.of_int rtk_report.latitude)
                    (fixed_conversions.double 1_000_000_000 0);
              longitude =
                  fixed_conversions.div_double
                    (fixed_conversions.of_int rtk_report.longitude)
                    (fixed_conversions.double 1_000_000_000 0);
              altitude =
                  fixed_conversions.div_double
                    (fixed_conversions.of_int rtk_report.altitude)
                    (fixed_conversions.double 1000 0);
              status = pos 2;
              service = constants.service_gps;
            })))
publish-report_example =
    publish-report fixed_conversions constants receiver_queue (pos 1500) rtk_report waiting
      no_position (pos 2) constants-IsDistinct (omega arith) (gbas_fix (inr refl) refl)
