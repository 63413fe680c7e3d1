-- ===== src/Main/Turn.antt =====
-- A whole turn of the publishing thread, with both queues.
use micro_ros_controller_fir.Prelude.{
  ℕ, ◌<◌, ◌≡◌, refl, Bool, true, false, some, List, [], ◌∷◌, length,
}
use micro_ros_controller_fir.Common.Real.{Float, Convert}
use micro_ros_controller_fir.Common.Types.{ImuSample, GnssFix}
use micro_ros_controller_fir.Hal.Queue.{MsgQueue}
use micro_ros_controller_fir.Hal.Imu.{imu_msgq_count}
use micro_ros_controller_fir.Hal.Gnss.{gnss_msgq_count}
use micro_ros_controller_fir.Ros.ImuPub.{imu_pub_publish}
use micro_ros_controller_fir.Ros.GnssPub.{Constants, gnss_pub_publish}
use micro_ros_controller_fir.Main.{Pipeline, drain_imu, drain_gnss, microros_publish_turn}
use micro_ros_controller_fir.Main.Drain.{published, last_message, drain-Drained}

-- `k_poll` reports data for a queue exactly when there is some.
abbrev pub has_data : {A : Type 0} → List A → Bool
has_data [] = false
has_data (a ∷ rest) = true

module _ {F D : Type 0} (fl : Float F) (cv : Convert F D) (c : Constants)
    (imu_msgq : MsgQueue (ImuSample F) imu_msgq_count)
    (gnss_msgq : MsgQueue (GnssFix D) gnss_msgq_count) where
  -- What a branch for the IMU does, whether or not there is data.
  imu_branch :
      (p : Pipeline fl cv c imu_msgq gnss_msgq) (fuel : ℕ) (samples : List (ImuSample F))
      → imu_msgq.contents p.imu_queue ≡ samples
      → length samples < fuel
      → (q : imu_msgq.Queue) × (drain_imu fl cv c imu_msgq gnss_msgq fuel (has_data samples) p
          ≡ some (
            published (imu_pub_publish fl cv) p.imu_msg samples,
            record p {
              imu_msg = last_message (imu_pub_publish fl cv) p.imu_msg samples;
              imu_queue = q;
            },
          ))
        × (imu_msgq.contents q ≡ [])
  unfolding drain_imu
  imu_branch p fuel [] h l = (p.imu_queue, refl, h)
  imu_branch p fuel (s ∷ ss) h l =
      let d =
        drain-Drained imu_msgq (imu_pub_publish fl cv) (s ∷ ss) fuel p.imu_queue p.imu_msg h l in
      (d.rest, rw (drain_imu, d.result), d.nothing_left)

  gnss_branch :
      (p : Pipeline fl cv c imu_msgq gnss_msgq) (fuel : ℕ) (fixes : List (GnssFix D))
      → gnss_msgq.contents p.gnss_queue ≡ fixes
      → length fixes < fuel
      → (q : gnss_msgq.Queue) × (drain_gnss fl cv c imu_msgq gnss_msgq fuel (has_data fixes) p
          ≡ some (
            published (gnss_pub_publish c) p.gnss_msg fixes,
            record p {
              gnss_msg = last_message (gnss_pub_publish c) p.gnss_msg fixes;
              gnss_queue = q;
            },
          ))
        × (gnss_msgq.contents q ≡ [])
  unfolding drain_gnss
  gnss_branch p fuel [] h l = (p.gnss_queue, refl, h)
  gnss_branch p fuel (x ∷ xs) h l =
      let d =
        drain-Drained gnss_msgq (gnss_pub_publish c) (x ∷ xs) fuel p.gnss_queue p.gnss_msg h l in
      (d.rest, rw (drain_gnss, d.result), d.nothing_left)

  -- If the poll succeeds and reports data for exactly the queues that hold some, then with more fuel
  -- than either queue has messages a turn publishes every IMU sample and then every GNSS fix, each once
  -- and in order, and leaves both queues empty.
  pub turn_published :
      (p : Pipeline fl cv c imu_msgq gnss_msgq) (fuel : ℕ) (samples : List (ImuSample F))
      (fixes : List (GnssFix D))
      → imu_msgq.contents p.imu_queue ≡ samples
      → gnss_msgq.contents p.gnss_queue ≡ fixes
      → length samples < fuel
      → length fixes < fuel
      → (q : imu_msgq.Queue) × (q' : gnss_msgq.Queue) × (microros_publish_turn fl cv c imu_msgq
            gnss_msgq fuel true
            (has_data samples)
            (has_data fixes)
            p
          ≡ some (
            published (imu_pub_publish fl cv) p.imu_msg samples,
            published (gnss_pub_publish c) p.gnss_msg fixes,
            record {
              imu_msg = last_message (imu_pub_publish fl cv) p.imu_msg samples;
              imu_queue = q;
              gnss_msg = last_message (gnss_pub_publish c) p.gnss_msg fixes;
              gnss_queue = q';
            },
          ))
        × (imu_msgq.contents q ≡ [])
        × (gnss_msgq.contents q' ≡ [])
  unfolding microros_publish_turn
  turn_published p fuel samples fixes h k l m =
      let (q, sent, empty) = imu_branch p fuel samples h l in
      let p' : Pipeline fl cv c imu_msgq gnss_msgq = record p {
        imu_msg = last_message (imu_pub_publish fl cv) p.imu_msg samples;
        imu_queue = q;
      } in
      let (q', sent', empty') = gnss_branch p' fuel fixes k m in
      (q, q', rw (microros_publish_turn, sent, sent'), empty, empty')
