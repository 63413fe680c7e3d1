-- ===== src/Main/Sources.antt =====
-- From the interrupts of both sensors to the publishers.
use micro_ros_controller_fir.Prelude.{
  ℕ, ◌<◌, ◌≡◌, refl, Bool, true, false, Option, none, some, List, [], ◌∷◌, arith, take,
  length-take-le, Bool-cases, inl, inr, if◌then◌else◌,
}
use micro_ros_controller_fir.Prelude.Int.{ℤ}
use micro_ros_controller_fir.Common.Real.{Float, Convert}
use micro_ros_controller_fir.Common.Types.{Vector, ImuSample, GnssFix}
use micro_ros_controller_fir.Hal.Queue.{MsgQueue}
use micro_ros_controller_fir.Hal.Imu.{imu_msgq_count, imu_sample_of, imu_trigger_handler}
use micro_ros_controller_fir.Hal.Gnss.{gnss_msgq_count, GnssData, gnss_fix_of, gnss_data_cb}
use micro_ros_controller_fir.Ros.ImuPub.{imu_pub_publish}
use micro_ros_controller_fir.Ros.GnssPub.{Constants, gnss_pub_publish}
use micro_ros_controller_fir.Main.{Pipeline, microros_publish_turn}
use micro_ros_controller_fir.Main.Drain.{published, last_message, arrivals, contents-arrivals}
use micro_ros_controller_fir.Main.Turn.{has_data, turn_published}

-- An interrupt of the IMU, with what the calls of its driver give, or a report of the receiver.
pub data Source (V : Type 0) : Type 0 where
  imu_interrupt : (now : ℤ) (fetched : Bool) (accel gyro : Option (Vector V)) → Source V
  gnss_report : (now : ℤ) → GnssData → Source V

module _ {F D V : Type 0} (fl : Float F) (cv : Convert F D) (to_float : V → F) where
  -- The samples of the interrupts at which no call fails.
  abbrev pub samples_of : List (Source V) → List (ImuSample F)
  samples_of [] = []
  samples_of (imu_interrupt now true (some accel) (some gyro) ∷ ss) =
      imu_sample_of fl to_float now accel gyro ∷ samples_of ss
  samples_of (s ∷ ss) = samples_of ss

  -- The fixes of the reports that have one.
  abbrev pub fixes_of : List (Source V) → List (GnssFix D)
  fixes_of [] = []
  fixes_of (gnss_report now report ∷ ss) =
      let rest = fixes_of ss in if report.no_fix then rest else gnss_fix_of cv now report ∷ rest
  fixes_of (s ∷ ss) = fixes_of ss

  module _ (c : Constants) (imu_msgq : MsgQueue (ImuSample F) imu_msgq_count)
      (gnss_msgq : MsgQueue (GnssFix D) gnss_msgq_count) where
    -- The handlers of both adapters.
    unfoldable pub notified :
        Pipeline fl cv c imu_msgq gnss_msgq → List (Source V) → Pipeline fl cv c imu_msgq gnss_msgq
    notified p [] = p
    notified p (imu_interrupt now fetched accel gyro ∷ ss) =
        notified
          (record p {
            imu_queue = imu_trigger_handler fl to_float imu_msgq now fetched accel gyro p.imu_queue;
          })
          ss
    notified p (gnss_report now report ∷ ss) =
        notified (record p { gnss_queue = gnss_data_cb cv gnss_msgq now report p.gnss_queue }) ss

    pub notified-arrivals :
        (p : Pipeline fl cv c imu_msgq gnss_msgq) (ss : List (Source V))
        → notified p ss ≡ record p {
          imu_queue = arrivals imu_msgq p.imu_queue (samples_of ss);
          gnss_queue = arrivals gnss_msgq p.gnss_queue (fixes_of ss);
        }
    unfolding notified imu_trigger_handler gnss_data_cb
    notified-arrivals p [] = refl
    notified-arrivals p (imu_interrupt now false accel gyro ∷ ss) = notified-arrivals p ss
    notified-arrivals p (imu_interrupt now true none gyro ∷ ss) = notified-arrivals p ss
    notified-arrivals p (imu_interrupt now true (some accel) none ∷ ss) = notified-arrivals p ss
    notified-arrivals p (imu_interrupt now true (some accel) (some gyro) ∷ ss) =
        notified-arrivals
          (record p {
            imu_queue =
                (imu_msgq.k_msgq_put p.imu_queue (imu_sample_of fl to_float now accel gyro)).1;
          })
          ss
    notified-arrivals p (gnss_report now report ∷ ss) = elim (Bool-cases report.no_fix) [
      | inl e ↦ simp e (notified-arrivals p ss)
      | inr e ↦ simp e (
          notified-arrivals
            (record p {
              gnss_queue = (gnss_msgq.k_msgq_put p.gnss_queue (gnss_fix_of cv now report)).1;
            })
            ss)
    ]

    -- If both queues are empty: after any sequence of IMU interrupts and GNSS reports a turn of the
    -- publishing thread whose poll reports the queues that hold data, given fuel for more than a full
    -- queue, publishes the first 32 samples of the interrupts at which no call fails, and then the
    -- first 8 fixes of the reports that have one, each once and in order, and empties the queues; what
    -- came later is lost.
    pub sources_published :
        (p : Pipeline fl cv c imu_msgq gnss_msgq) (ss : List (Source V)) (fuel : ℕ)
        → imu_msgq.contents p.imu_queue ≡ []
        → gnss_msgq.contents p.gnss_queue ≡ []
        → 32 < fuel
        → let samples = take 32 (samples_of ss) in
          let fixes = take 8 (fixes_of ss) in
          (q : imu_msgq.Queue) × (q' : gnss_msgq.Queue) × (microros_publish_turn fl cv c imu_msgq
              gnss_msgq fuel true
              (has_data samples)
              (has_data fixes)
              (notified p ss)
            ≡ some (
              published (imu_pub_publish fl cv) p.imu_msg samples,
              published (gnss_pub_publish c) p.gnss_msg fixes,
              record {
                imu_msg = last_message (imu_pub_publish fl cv) p.imu_msg samples;
                imu_queue = q;
                gnss_msg = last_message (gnss_pub_publish c) p.gnss_msg fixes;
                gnss_queue = q';
              },
            ))
          × (imu_msgq.contents q ≡ [])
          × (gnss_msgq.contents q' ≡ [])
    sources_published p ss fuel h k l =
        let p' : Pipeline fl cv c imu_msgq gnss_msgq = record p {
          imu_queue = arrivals imu_msgq p.imu_queue (samples_of ss);
          gnss_queue = arrivals gnss_msgq p.gnss_queue (fixes_of ss);
        } in
        rw (notified-arrivals p ss) (
          turn_published fl cv c imu_msgq gnss_msgq p' fuel (take 32 (samples_of ss))
            (take 8 (fixes_of ss)) (rw (contents-arrivals, h) refl) (rw (contents-arrivals, k) refl)
            (omega (arith, length-take-le 32 (samples_of ss)))
            (omega (arith, length-take-le 8 (fixes_of ss))))
