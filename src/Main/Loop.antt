-- ===== src/Main/Loop.antt =====
-- The publishing thread over many turns (the `while (true)` of `microros_publish_thread_entry` in
-- apps/rover_controller/src/main.c), with what the sensors deliver before each.
use micro_ros_controller_fir.Prelude.{
  ℕ, ◌+◌, ◌≤◌, ◌<◌, ◌≡◌, refl, ap, sym, ◌∙◌, Bool, true, false, some, List, [], ◌∷◌, ◌++◌, arith,
  length, length-append, if◌then◌else◌,
}
use mathlib.Core.List.{append-nil, append_assoc}
use micro_ros_controller_fir.Common.Real.{Float, Convert}
use micro_ros_controller_fir.Common.Types.{ImuSample, GnssFix}
use micro_ros_controller_fir.Hal.Queue.{MsgQueue}
use micro_ros_controller_fir.Hal.Imu.{imu_msgq_count}
use micro_ros_controller_fir.Hal.Gnss.{gnss_msgq_count}
use micro_ros_controller_fir.Ros.GnssPub.{Constants}
use micro_ros_controller_fir.Main.{Pipeline, microros_publish_turn}
use micro_ros_controller_fir.Main.Drain.{arrivals_fit}
use micro_ros_controller_fir.Main.Turn.{has_data}
use micro_ros_controller_fir.Main.Delivered.{
  Sent, and_then, Delivered, same-Delivered, turn-Delivered,
}
use micro_ros_controller_fir.Main.Sources.{
  Source, samples_of, fixes_of, notified, notified-arrivals,
}

-- What happens until a call of `k_poll` returns, and whether it returns 0.
pub record Round (V : Type 0) : Type 0 where
  pub sources : List (Source V)
  pub polled : Bool

module _ {F D V : Type 0} (fl : Float F) (cv : Convert F D) (to_float : V → F) where
  -- All that the sensors deliver.
  abbrev pub all_samples : List (Round V) → List (ImuSample F)
  all_samples [] = []
  all_samples (round ∷ rounds) = samples_of fl cv to_float round.sources ++ all_samples rounds

  abbrev pub all_fixes : List (Round V) → List (GnssFix D)
  all_fixes [] = []
  all_fixes (round ∷ rounds) = fixes_of fl cv to_float round.sources ++ all_fixes rounds

  -- What is in the queues at first and what arrives until the next poll that succeeds fits into them.
  abbrev pub KeepsUp : (waiting_samples waiting_fixes : ℕ) → List (Round V) → Type 0
  KeepsUp i g [] = Unit {0}
  KeepsUp i g (round ∷ rounds) =
      let i' = i + length (samples_of fl cv to_float round.sources) in
      let g' = g + length (fixes_of fl cv to_float round.sources) in
      (i' ≤ 32)
      × (g' ≤ 8)
      × KeepsUp (if round.polled then 0 else i') (if round.polled then 0 else g') rounds

  keeps_waiting :
      (polled : Bool) (samples : List (ImuSample F)) (fixes : List (GnssFix D)) (round : Round V)
      (rounds : List (Round V))
      → let new = samples_of fl cv to_float round.sources in
        let new' = fixes_of fl cv to_float round.sources in
        KeepsUp
          (if polled then 0 else length samples + length new)
          (if polled then 0 else length fixes + length new')
          rounds
        → KeepsUp
            (length (if polled then [] else samples ++ new))
            (length (if polled then [] else fixes ++ new'))
            rounds
  keeps_waiting true samples fixes round rounds k = k
  keeps_waiting false samples fixes round rounds k =
      rw
        (
          length-append samples (samples_of fl cv to_float round.sources),
          length-append fixes (fixes_of fl cv to_float round.sources),
        )
        k

module _ {F D V : Type 0} (fl : Float F) (cv : Convert F D) (to_float : V → F) (c : Constants)
    (imu_msgq : MsgQueue (ImuSample F) imu_msgq_count)
    (gnss_msgq : MsgQueue (GnssFix D) gnss_msgq_count) (imu_available : imu_msgq.Queue → Bool)
    (gnss_available : gnss_msgq.Queue → Bool) where
  -- The turns of the thread. The two functions tell what `k_poll` finds of each queue.
  unfoldable pub publish_rounds :
      ℕ → List (Round V) → Pipeline fl cv c imu_msgq gnss_msgq → Sent fl cv c imu_msgq gnss_msgq
  publish_rounds fuel [] p = some ([], [], p)
  publish_rounds fuel (round ∷ rounds) p =
      let p' = notified fl cv to_float c imu_msgq gnss_msgq p round.sources in
      and_then fl cv c imu_msgq gnss_msgq
        (microros_publish_turn fl cv c imu_msgq gnss_msgq fuel round.polled
          (imu_available p'.imu_queue) (gnss_available p'.gnss_queue) p')
        (publish_rounds fuel rounds)

  abbrev pipeline_after :
      Pipeline fl cv c imu_msgq gnss_msgq → Round V → Pipeline fl cv c imu_msgq gnss_msgq
  pipeline_after p round = notified fl cv to_float c imu_msgq gnss_msgq p round.sources

  -- What the queues hold after a round that they have room for.
  round_kept :
      (p : Pipeline fl cv c imu_msgq gnss_msgq) (round : Round V)
      → length (imu_msgq.contents p.imu_queue) + length (samples_of fl cv to_float round.sources)
        ≤ 32
      → length (gnss_msgq.contents p.gnss_queue) + length (fixes_of fl cv to_float round.sources)
        ≤ 8
      → let p' = pipeline_after p round in
        (imu_msgq.contents p'.imu_queue
          ≡ imu_msgq.contents p.imu_queue ++ samples_of fl cv to_float round.sources)
        × (gnss_msgq.contents p'.gnss_queue
            ≡ gnss_msgq.contents p.gnss_queue ++ fixes_of fl cv to_float round.sources)
        × (p'.imu_msg ≡ p.imu_msg)
        × (p'.gnss_msg ≡ p.gnss_msg)
  round_kept p round h k =
      rw (notified-arrivals fl cv to_float c imu_msgq gnss_msgq p round.sources)
        (arrivals_fit imu_msgq p.imu_queue _ h, arrivals_fit gnss_msgq p.gnss_queue _ k, refl, refl)

  module _ (poll : (q : imu_msgq.Queue) → imu_available q ≡ has_data (imu_msgq.contents q))
      (poll' : (q : gnss_msgq.Queue) → gnss_available q ≡ has_data (gnss_msgq.contents q))
      (fuel : ℕ) (enough : 32 < fuel) where
    delivered :
        (rounds : List (Round V)) (p : Pipeline fl cv c imu_msgq gnss_msgq)
        (samples : List (ImuSample F)) (fixes : List (GnssFix D))
        → imu_msgq.contents p.imu_queue ≡ samples
        → gnss_msgq.contents p.gnss_queue ≡ fixes
        → KeepsUp fl cv to_float (length samples) (length fixes) rounds
        → Delivered fl cv c imu_msgq gnss_msgq p.imu_msg p.gnss_msg
            (samples ++ all_samples fl cv to_float rounds)
            (fixes ++ all_fixes fl cv to_float rounds)
            (publish_rounds fuel rounds p)
    unfolding publish_rounds
    delivered [] p samples fixes e e' k = record {
      imu_taken = [];
      gnss_taken = [];
      rest = p;
      result = refl;
      imu_conserved = e ∙ sym (append-nil samples);
      gnss_conserved = e' ∙ sym (append-nil fixes);
    }
    delivered (round ∷ rounds) p samples fixes e e' (h, h', k) =
        let (kept, kept', same, same') = round_kept p round (rw e h) (rw e' h') in
        let new = samples_of fl cv to_float round.sources in
        let new' = fixes_of fl cv to_float round.sources in
        let held = kept ∙ ap (λ q. q ++ new) e in
        let held' = kept' ∙ ap (λ q. q ++ new') e' in
        let p₁ = pipeline_after p round in
        same-Delivered fl cv c imu_msgq gnss_msgq _ _ _ _ _ _ _ _ _ same same'
          (append_assoc samples new (all_samples fl cv to_float rounds))
          (append_assoc fixes new' (all_fixes fl cv to_float rounds))
          (turn-Delivered fl cv c imu_msgq gnss_msgq fuel enough round.polled
            (imu_available p₁.imu_queue) (gnss_available p₁.gnss_queue) p₁ (samples ++ new)
            (all_samples fl cv to_float rounds) (fixes ++ new') (all_fixes fl cv to_float rounds)
            (publish_rounds fuel rounds) (poll p₁.imu_queue ∙ ap has_data held)
            (poll' p₁.gnss_queue ∙ ap has_data held') held held'
            (omega (arith, length-append samples new, h))
            (omega (arith, length-append fixes new', h'))
            (λ p' f f'.
              delivered rounds p' _ _ f f'
                (keeps_waiting fl cv to_float round.polled samples fixes round rounds k)))

    -- If `k_poll` reports data for exactly the queues that hold some, and what is in a queue and arrives
    -- at it before the next poll that succeeds never exceeds 32 samples and 8 fixes, then over any number
    -- of turns, whether their polls succeed or fail, with fuel for more than a full queue in each drain
    -- loop, the thread publishes the samples that the IMU queue held at first and then those of the
    -- interrupts at which no call failed, each once and in order, up to those that it leaves in the queue,
    -- and the same holds of the fixes.
    pub rounds-Delivered :
        (rounds : List (Round V)) (p : Pipeline fl cv c imu_msgq gnss_msgq)
        → KeepsUp fl cv to_float
            (length (imu_msgq.contents p.imu_queue))
            (length (gnss_msgq.contents p.gnss_queue))
            rounds
        → Delivered fl cv c imu_msgq gnss_msgq p.imu_msg p.gnss_msg
            (imu_msgq.contents p.imu_queue ++ all_samples fl cv to_float rounds)
            (gnss_msgq.contents p.gnss_queue ++ all_fixes fl cv to_float rounds)
            (publish_rounds fuel rounds p)
    rounds-Delivered rounds p k = delivered rounds p _ _ refl refl k
