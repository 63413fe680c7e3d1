-- ===== src/Hal/Imu.antt =====
-- The IMU adapter (apps/rover_controller/src/hal/imu.c). The sensor driver is Zephyr's: what its calls
-- return are arguments of the handler, `none` for a call that fails, and so is its conversion of a
-- `struct sensor_value` to a float.
use micro_ros_controller_fir.Prelude.{ℕ, Bool, true, false, not, Option, some, if◌then◌else◌}
use micro_ros_controller_fir.Prelude.Int.{ℤ}
use micro_ros_controller_fir.Common.Real.{Float}
use micro_ros_controller_fir.Common.Types.{enodev, eio, Rc, success, failure, Vector, ImuSample}
use micro_ros_controller_fir.Common.Params.{zero_f}
use micro_ros_controller_fir.Hal.Queue.{MsgQueue}

-- IMU_MSGQ_COUNT
abbrev pub imu_msgq_count : ℕ
imu_msgq_count = 32

-- The results of `device_is_ready` and of `sensor_trigger_set`.
unfoldable pub imu_init : Bool → Bool → Rc
imu_init device_is_ready trigger_set =
    if not device_is_ready then failure enodev else if not trigger_set then failure eio else success

module _ {F V : Type 0} (fl : Float F) (sensor_value_to_float : V → F) where
  -- The loop over the three axes.
  abbrev pub to_floats : Vector V → Vector F
  to_floats v = record {
    x = sensor_value_to_float v.x;
    y = sensor_value_to_float v.y;
    z = sensor_value_to_float v.z;
  }

  -- `struct imu_sample sample = {0}` with the measured values; `mag` is left at zero.
  unfoldable pub imu_sample_of : ℤ → Vector V → Vector V → ImuSample F
  imu_sample_of now accel gyro = record {
    accel = to_floats accel;
    gyro = to_floats gyro;
    mag = record { x = zero_f fl; y = zero_f fl; z = zero_f fl };
    timestamp_ms = now;
  }

  module _ (msgq : MsgQueue (ImuSample F) imu_msgq_count) where
    open msgq use {Queue, k_msgq_put}

    -- `fetched` tells whether `sensor_sample_fetch` succeeded.
    unfoldable pub imu_trigger_handler :
        ℤ → (fetched : Bool) → Option (Vector V) → Option (Vector V) → Queue → Queue
    imu_trigger_handler now false accel gyro q = q
    imu_trigger_handler now true (some accel) (some gyro) q =
        (k_msgq_put q (imu_sample_of now accel gyro)).1
    imu_trigger_handler now true accel gyro q = q
