-- ===== src/Main/Tests.antt =====
-- A concrete start, and a concrete burst.
use micro_ros_controller_fir.Prelude.{
  ◌≡◌, refl, Bool, true, false, some, List, [], ◌∷◌, take, arith, Option, none,
}
use micro_ros_controller_fir.Prelude.Int.{pos, negsuc}
use micro_ros_controller_fir.Common.Types.{enodev, Rc, success, failure, Vector, ImuSample, GnssFix}
use micro_ros_controller_fir.Hal.Queue.{MsgQueue}
use micro_ros_controller_fir.Hal.Imu.{imu_msgq_count}
use micro_ros_controller_fir.Hal.Gnss.{gnss_msgq_count, GnssData}
use micro_ros_controller_fir.Ros.ImuPub.{imu_pub_publish}
use micro_ros_controller_fir.Ros.GnssPub.{Constants, gnss_pub_publish}
use micro_ros_controller_fir.Main.{Layer, imu, Pipeline, microros_publish_turn}
use micro_ros_controller_fir.Main.Drain.{published, last_message}
use micro_ros_controller_fir.Main.Preempted.{Taken, arrived, gets, gets-Taken}
use micro_ros_controller_fir.Main.Turn.{has_data}
use micro_ros_controller_fir.Main.Sources.{
  Source, imu_interrupt, gnss_report, samples_of, fixes_of, notified, sources_published,
}
use micro_ros_controller_fir.Main.Delivered.{Delivered}
use micro_ros_controller_fir.Main.Loop.{
  Round, publish_rounds, all_samples, all_fixes, rounds-Delivered,
}
use micro_ros_controller_fir.Instances.FixedPoint.{Fixed, fixed, fixed_conversions, literal}
use micro_ros_controller_fir.Instances.Fifo.{fifo}

-- The IMU is missing.
abbrev imu_fails : Layer → Rc
imu_fails imu = failure enodev
imu_fails _ = success

abbrev imu_fifo : MsgQueue (ImuSample Fixed) imu_msgq_count
imu_fifo = fifo (ImuSample Fixed) imu_msgq_count

abbrev gnss_fifo : MsgQueue (GnssFix Fixed) gnss_msgq_count
gnss_fifo = fifo (GnssFix Fixed) gnss_msgq_count

abbrev constants : Constants
constants = record {
  quality_invalid = 0;
  quality_dgnss = 2;
  quality_rtk = 4;
  quality_float_rtk = 5;
  status_no_fix = negsuc 0;
  status_fix = pos 0;
  status_sbas_fix = pos 1;
  status_gbas_fix = pos 2;
  service_gps = 1;
  covariance_type_unknown = 0;
}

abbrev origin : Vector Fixed
origin = record { x = literal 0 0; y = literal 0 0; z = literal 0 0 }

abbrev idle_pipeline : Pipeline fixed fixed_conversions constants imu_fifo gnss_fifo
idle_pipeline = record {
  imu_msg = record {
    stamp = record { sec = pos 0; nanosec = 0 };
    linear_acceleration = origin;
    angular_velocity = origin;
    orientation = record { x = literal 0 0; y = literal 0 0; z = literal 0 0; w = literal 0 0 };
    orientation_covariance_0 = literal 0 0;
  };
  imu_queue = [];
  gnss_msg = record {
    stamp = record { sec = pos 0; nanosec = 0 };
    latitude = literal 0 0;
    longitude = literal 0 0;
    altitude = literal 0 0;
    status = negsuc 0;
    service = 0;
    position_covariance_0 = literal 0 0;
    position_covariance_type = 0;
  };
  gnss_queue = [];
}

-- A sample, a report without a fix, an interrupt whose sample cannot be fetched, and a fix.
abbrev report : GnssData
report = record {
  satellites_cnt = 9;
  fix_quality = 1;
  no_fix = false;
  latitude = pos 40_000_000_000;
  longitude = pos 3_000_000_000;
  altitude = pos 650_000;
}

abbrev sources : List (Source Fixed)
sources =
    imu_interrupt (pos 10) true (some origin) (some origin)
    ∷ gnss_report (pos 11) (record report { no_fix = true })
    ∷ imu_interrupt (pos 12) false none none
    ∷ gnss_report (pos 13) report
    ∷ []

abbrev both_samples : List (ImuSample Fixed)
both_samples = take 32 (samples_of fixed fixed_conversions (λ x. x) sources)

abbrev both_fixes : List (GnssFix Fixed)
both_fixes = take 8 (fixes_of fixed fixed_conversions (λ x. x) sources)

sources_published_example :
    (q : List (ImuSample Fixed)) × (q' : List (GnssFix Fixed)) × (microros_publish_turn fixed
        fixed_conversions constants imu_fifo gnss_fifo 33 true
        (has_data both_samples)
        (has_data both_fixes)
        (notified fixed fixed_conversions
          (λ x. x)
          constants
          imu_fifo
          gnss_fifo
          idle_pipeline
          sources)
      ≡ some (
        published (imu_pub_publish fixed fixed_conversions) idle_pipeline.imu_msg both_samples,
        published (gnss_pub_publish constants) idle_pipeline.gnss_msg both_fixes,
        record {
          imu_msg =
              last_message
                (imu_pub_publish fixed fixed_conversions)
                idle_pipeline.imu_msg
                both_samples;
          imu_queue = q;
          gnss_msg = last_message (gnss_pub_publish constants) idle_pipeline.gnss_msg both_fixes;
          gnss_queue = q';
        },
      ))
    × (q ≡ [])
    × (q' ≡ [])
sources_published_example =
    sources_published fixed fixed_conversions (λ x. x) constants imu_fifo gnss_fifo idle_pipeline
      sources 33 refl refl (omega arith)

-- Three interrupts, one of them without a sample, while the thread makes four gets.
abbrev early : ImuSample Fixed
early = record { accel = origin; gyro = origin; mag = origin; timestamp_ms = pos 10 }

abbrev late : ImuSample Fixed
late = record { accel = origin; gyro = origin; mag = origin; timestamp_ms = pos 20 }

abbrev arrivals : List (Option (ImuSample Fixed))
arrivals = some early ∷ none ∷ some late ∷ none ∷ []

gets-Taken_example :
    Taken imu_fifo
      (imu_pub_publish fixed fixed_conversions)
      (early ∷ arrived arrivals)
      idle_pipeline.imu_msg
      (gets imu_fifo
        (imu_pub_publish fixed fixed_conversions)
        arrivals
        (early ∷ [])
        idle_pipeline.imu_msg)
gets-Taken_example =
    gets-Taken imu_fifo (imu_pub_publish fixed fixed_conversions) arrivals (early ∷ [])
      idle_pipeline.imu_msg (omega arith)

-- The poll after the first sources fails, and the one after the same sources again succeeds.
abbrev two_rounds : List (Round Fixed)
two_rounds =
    record { sources = sources; polled = false } ∷ record { sources = sources; polled = true } ∷ []

abbrev imu_available : List (ImuSample Fixed) → Bool
imu_available q = has_data q

abbrev gnss_available : List (GnssFix Fixed) → Bool
gnss_available q = has_data q

rounds-Delivered_example :
    Delivered fixed fixed_conversions constants imu_fifo gnss_fifo idle_pipeline.imu_msg
      idle_pipeline.gnss_msg
      (all_samples fixed fixed_conversions (λ x. x) two_rounds)
      (all_fixes fixed fixed_conversions (λ x. x) two_rounds)
      (publish_rounds fixed fixed_conversions
        (λ x. x)
        constants
        imu_fifo
        gnss_fifo
        imu_available
        gnss_available
        33
        two_rounds
        idle_pipeline)
rounds-Delivered_example =
    rounds-Delivered fixed fixed_conversions (λ x. x) constants imu_fifo gnss_fifo imu_available
      gnss_available (λ q. refl) (λ q. refl) 33 (omega arith) two_rounds idle_pipeline
      (omega arith, omega arith, (omega arith, omega arith, tt))
