-- ===== src/Hal/Gnss.antt =====
-- The GNSS adapter (apps/rover_controller/src/hal/gnss.c). `GnssData` holds the fields of the driver's
-- `struct gnss_data` that the callback reads.
use micro_ros_controller_fir.Prelude.{ℕ, ◌%◌, Bool, not, if◌then◌else◌}
use micro_ros_controller_fir.Prelude.Int.{ℤ}
use micro_ros_controller_fir.Common.Real.{Convert}
use micro_ros_controller_fir.Common.Types.{enodev, Rc, success, failure, GnssFix}
use micro_ros_controller_fir.Hal.Queue.{MsgQueue}

-- GNSS_MSGQ_COUNT
abbrev pub gnss_msgq_count : ℕ
gnss_msgq_count = 8

-- The result of `device_is_ready`.
unfoldable pub gnss_init : Bool → Rc
gnss_init device_is_ready = if not device_is_ready then failure enodev else success

pub record GnssData : Type 0 where
  pub satellites_cnt : ℕ
  pub fix_quality : ℕ
  pub no_fix : Bool  -- `fix_status == GNSS_FIX_STATUS_NO_FIX`
  pub latitude : ℤ  -- nanodegrees
  pub longitude : ℤ  -- nanodegrees
  pub altitude : ℤ  -- millimetres

module _ {F D : Type 0} (cv : Convert F D) where
  open cv use {of_int, div_double, double}

  -- The local `fix` at the end of the callback. It is initialised to zeros, and without a fix its
  -- position stays so.
  unfoldable pub gnss_fix_of : ℤ → GnssData → GnssFix D
  gnss_fix_of now report = record {
    latitude =
        if not report.no_fix
        then div_double (of_int report.latitude) (double 1_000_000_000 0)
        else double 0 0;
    longitude =
        if not report.no_fix
        then div_double (of_int report.longitude) (double 1_000_000_000 0)
        else double 0 0;
    altitude =
        if not report.no_fix
        then div_double (of_int report.altitude) (double 1000 0)
        else double 0 0;
    quality = report.fix_quality % 256;
    num_satellites = report.satellites_cnt % 256;
    timestamp_ms = now;
  }

  module _ (msgq : MsgQueue (GnssFix D) gnss_msgq_count) where
    open msgq use {Queue, k_msgq_put}

    unfoldable pub gnss_data_cb : ℤ → GnssData → Queue → Queue
    gnss_data_cb now report q =
        if not report.no_fix then (k_msgq_put q (gnss_fix_of now report)).1 else q
