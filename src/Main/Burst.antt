-- ===== src/Main/Burst.antt =====
-- A burst of IMU interrupts between two turns of the publishing thread.
use micro_ros_controller_fir.Prelude.{
  ℕ, ◌<◌, ◌≡◌, refl, true, some, List, [], ◌∷◌, arith, take, length-take-le,
}
use micro_ros_controller_fir.Prelude.Int.{ℤ}
use micro_ros_controller_fir.Common.Real.{Float, Convert}
use micro_ros_controller_fir.Common.Types.{Vector, ImuSample, GnssFix}
use micro_ros_controller_fir.Hal.Queue.{MsgQueue}
use micro_ros_controller_fir.Hal.Imu.{imu_msgq_count, imu_sample_of, imu_trigger_handler}
use micro_ros_controller_fir.Hal.Gnss.{gnss_msgq_count}
use micro_ros_controller_fir.Ros.ImuPub.{imu_pub_publish}
use micro_ros_controller_fir.Ros.GnssPub.{Constants}
use micro_ros_controller_fir.Main.{Pipeline, drain_imu}
use micro_ros_controller_fir.Main.Drain.{
  published, last_message, drain-Drained, arrivals, contents-arrivals,
}

-- What the sensor reads at an interrupt, and when.
pub record Reading (V : Type 0) : Type 0 where
  pub now : ℤ
  pub accel : Vector V
  pub gyro : Vector V

module _ {F D V : Type 0} (fl : Float F) (cv : Convert F D) (to_float : V → F) (c : Constants)
    (imu_msgq : MsgQueue (ImuSample F) imu_msgq_count)
    (gnss_msgq : MsgQueue (GnssFix D) gnss_msgq_count) where
  -- The queue after the handler has run once for each reading.
  pub interrupts : imu_msgq.Queue → List (Reading V) → imu_msgq.Queue
  interrupts q [] = q
  interrupts q (r ∷ rs) =
      interrupts
        (imu_trigger_handler fl to_float imu_msgq r.now true (some r.accel) (some r.gyro) q) rs

  abbrev pub samples : List (Reading V) → List (ImuSample F)
  samples [] = []
  samples (r ∷ rs) = imu_sample_of fl to_float r.now r.accel r.gyro ∷ samples rs

  interrupts-arrivals :
      (q : imu_msgq.Queue) (rs : List (Reading V))
      → interrupts q rs ≡ arrivals imu_msgq q (samples rs)
  unfolding interrupts imu_trigger_handler
  interrupts-arrivals q [] = refl
  interrupts-arrivals q (r ∷ rs) =
      interrupts-arrivals
        (imu_trigger_handler fl to_float imu_msgq r.now true (some r.accel) (some r.gyro) q) rs

  -- If the queue is empty, then after any number of IMU interrupts whose sensor calls succeed the
  -- drain loop, given fuel for more than a full queue, publishes the first 32 samples in the order
  -- of the interrupts, each once, and empties the queue; the samples after those are lost.
  burst_published :
      (p : Pipeline fl cv c imu_msgq gnss_msgq) (rs : List (Reading V)) (fuel : ℕ)
      → imu_msgq.contents p.imu_queue ≡ []
      → 32 < fuel
      → let batch = take 32 (samples rs) in
        (q' : imu_msgq.Queue) × (drain_imu fl cv c imu_msgq gnss_msgq fuel true
            (record p { imu_queue = interrupts p.imu_queue rs })
          ≡ some (
            published (imu_pub_publish fl cv) p.imu_msg batch,
            record p {
              imu_msg = last_message (imu_pub_publish fl cv) p.imu_msg batch;
              imu_queue = q';
            },
          ))
        × (imu_msgq.contents q' ≡ [])
  unfolding drain_imu
  burst_published p rs fuel e l =
      let h : imu_msgq.contents (interrupts p.imu_queue rs) ≡ take 32 (samples rs) =
        rw (interrupts-arrivals, contents-arrivals, e) in
      let d =
        drain-Drained imu_msgq (imu_pub_publish fl cv) (take 32 (samples rs)) fuel
          (interrupts p.imu_queue rs) p.imu_msg h (omega (arith, length-take-le 32 (samples rs))) in
      (d.rest, rw (drain_imu, d.result), d.nothing_left)
