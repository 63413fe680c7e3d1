-- ===== src/Main/Delivered.antt =====
-- What the publishing thread delivers by one turn after another.
use micro_ros_controller_fir.Prelude.{
  ℕ, ◌≤◌, ◌<◌, ◌≡◌, refl, Bool, true, false, Option, none, some, List, [], ◌++◌, arith, length,
  if◌then◌else◌,
}
use mathlib.Core.List.{append_assoc}
use micro_ros_controller_fir.Common.Real.{Float, Convert}
use micro_ros_controller_fir.Common.Types.{ImuSample, GnssFix}
use micro_ros_controller_fir.Hal.Queue.{MsgQueue}
use micro_ros_controller_fir.Hal.Imu.{imu_msgq_count}
use micro_ros_controller_fir.Hal.Gnss.{gnss_msgq_count}
use micro_ros_controller_fir.Ros.ImuPub.{ImuMsg, imu_pub_publish}
use micro_ros_controller_fir.Ros.GnssPub.{Constants, NavSatFix, gnss_pub_publish}
use micro_ros_controller_fir.Main.{Pipeline, microros_publish_turn}
use micro_ros_controller_fir.Main.Drain.{published, last_message, published-append}
use micro_ros_controller_fir.Main.Turn.{has_data, turn_published}

module _ {F D : Type 0} (fl : Float F) (cv : Convert F D) (c : Constants)
    (imu_msgq : MsgQueue (ImuSample F) imu_msgq_count)
    (gnss_msgq : MsgQueue (GnssFix D) gnss_msgq_count) where
  -- The sent messages of a turn before those of the turns after it.
  abbrev pub Sent : Type 0
  Sent = Option (List (ImuMsg D) × List (NavSatFix D) × Pipeline fl cv c imu_msgq gnss_msgq)

  abbrev pub append_sent : List (ImuMsg D) → List (NavSatFix D) → Sent → Sent
  append_sent ms ns none = none
  append_sent ms ns (some (ms', ns', p)) = some (ms ++ ms', ns ++ ns', p)

  abbrev pub and_then : Sent → (Pipeline fl cv c imu_msgq gnss_msgq → Sent) → Sent
  and_then none later = none
  and_then (some (ms, ns, p)) later = append_sent ms ns (later p)

  -- What was published of all that there was, and what is left.
  pub record Delivered (imu_msg : ImuMsg D) (gnss_msg : NavSatFix D) (samples : List (ImuSample F))
      (fixes : List (GnssFix D)) (out : Sent) : Type 0 where
    pub imu_taken : List (ImuSample F)
    pub gnss_taken : List (GnssFix D)
    pub rest : Pipeline fl cv c imu_msgq gnss_msgq
    pub result :
        out
        ≡ some (
          published (imu_pub_publish fl cv) imu_msg imu_taken,
          published (gnss_pub_publish c) gnss_msg gnss_taken,
          rest,
        )
    pub imu_conserved : imu_taken ++ imu_msgq.contents rest.imu_queue ≡ samples
    pub gnss_conserved : gnss_taken ++ gnss_msgq.contents rest.gnss_queue ≡ fixes

  -- A turn before others: `k_poll` fails, or both queues are drained.
  skipped :
      (samples : List (ImuSample F)) (fixes : List (GnssFix D)) (m : ImuMsg D) (n : NavSatFix D)
      (later : Sent)
      → Delivered m n samples fixes later
      → Delivered m n samples fixes (append_sent [] [] later)
  skipped samples fixes m n later d = record {
    imu_taken = d.imu_taken;
    gnss_taken = d.gnss_taken;
    rest = d.rest;
    result = rw d.result refl;
    imu_conserved = d.imu_conserved;
    gnss_conserved = d.gnss_conserved;
  }

  drained :
      (batch samples : List (ImuSample F)) (batch' fixes : List (GnssFix D)) (m : ImuMsg D)
      (n : NavSatFix D) (later : Sent)
      → Delivered
          (last_message (imu_pub_publish fl cv) m batch)
          (last_message (gnss_pub_publish c) n batch')
          samples
          fixes
          later
      → Delivered m n (batch ++ samples) (batch' ++ fixes) (
          append_sent
            (published (imu_pub_publish fl cv) m batch)
            (published (gnss_pub_publish c) n batch')
            later)
  drained batch samples batch' fixes m n later d = record {
    imu_taken = batch ++ d.imu_taken;
    gnss_taken = batch' ++ d.gnss_taken;
    rest = d.rest;
    result =
        rw
          (
            d.result,
            published-append (imu_pub_publish fl cv) m batch d.imu_taken,
            published-append (gnss_pub_publish c) n batch' d.gnss_taken,
          )
          refl;
    imu_conserved = rw (append_assoc batch d.imu_taken _, d.imu_conserved) refl;
    gnss_conserved = rw (append_assoc batch' d.gnss_taken _, d.gnss_conserved) refl;
  }

  pub same-Delivered :
      (m m' : ImuMsg D) (n n' : NavSatFix D) (samples samples' : List (ImuSample F))
      (fixes fixes' : List (GnssFix D)) (out : Sent)
      → m ≡ m'
      → n ≡ n'
      → samples ≡ samples'
      → fixes ≡ fixes'
      → Delivered m n samples fixes out
      → Delivered m' n' samples' fixes' out
  same-Delivered m m' n n' s s' f f' out e₁ e₂ e₃ e₄ d = rw⁻¹ (e₁, e₂, e₃, e₄) d

  -- One turn whose events tell which queues hold data, if what follows it delivers from what it leaves.
  pub turn-Delivered :
      (fuel : ℕ)
      → 32 < fuel
      → (polled imu_ready gnss_ready : Bool) (p : Pipeline fl cv c imu_msgq gnss_msgq)
        (now samples : List (ImuSample F)) (now' fixes : List (GnssFix D))
        (later : Pipeline fl cv c imu_msgq gnss_msgq → Sent)
      → imu_ready ≡ has_data now
      → gnss_ready ≡ has_data now'
      → imu_msgq.contents p.imu_queue ≡ now
      → gnss_msgq.contents p.gnss_queue ≡ now'
      → length now ≤ 32
      → length now' ≤ 8
      → ((p' : Pipeline fl cv c imu_msgq gnss_msgq)
          → imu_msgq.contents p'.imu_queue ≡ (if polled then [] else now)
          → gnss_msgq.contents p'.gnss_queue ≡ (if polled then [] else now')
          → Delivered p'.imu_msg p'.gnss_msg
              ((if polled then [] else now) ++ samples)
              ((if polled then [] else now') ++ fixes)
              (later p'))
      → Delivered p.imu_msg p.gnss_msg (now ++ samples) (now' ++ fixes) (
          and_then
            (microros_publish_turn fl cv c imu_msgq gnss_msgq fuel polled imu_ready gnss_ready p)
            later)
  unfolding microros_publish_turn
  turn-Delivered fuel l false i g p now samples now' fixes later r r' e e' h h' ih =
      skipped _ _ _ _ _ (ih p e e')
  turn-Delivered fuel l true i g p now samples now' fixes later r r' e e' h h' ih =
      let (q, q', sent, empty, empty') =
        turn_published fl cv c imu_msgq gnss_msgq p fuel now now' e e' (omega arith)
          (omega arith) in
      rw (r, r', sent) (drained now samples now' fixes p.imu_msg p.gnss_msg _ (ih _ empty empty'))
