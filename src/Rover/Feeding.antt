-- ===== src/Rover/Feeding.antt =====
-- When the watchdog would be fed in a run of all threads.
use micro_ros_controller_fir.Prelude.{
  ◌≡◌, refl, Bool, true, false, Option, none, some, List, [], ◌∷◌, arith,
}
use micro_ros_controller_fir.Prelude.Int.{ℤ}
use micro_ros_controller_fir.Common.Real.{Float, Convert}
use micro_ros_controller_fir.Common.Types.{Motors, MotorFeedback}
use micro_ros_controller_fir.Safety.Watchdog.{subsystem_control, watchdog_check_in, watchdog_feed}
use micro_ros_controller_fir.Safety.Monitor.{safety_monitor_turn, safety_monitor_evaluate}
use micro_ros_controller_fir.App.ControlLoop.{
  MotorDrive, control_loop_run_once, exchange, select_command,
}
use micro_ros_controller_fir.Ros.CmdVel.{Twist, cmd_vel_callback}
use micro_ros_controller_fir.Rover.State.{Rover}
use micro_ros_controller_fir.Rover.Threads.{Event, safety, control, cmd_vel, set_agent, step}

-- For each turn of the safety monitor in a sequence of events, whether there was a turn of the control
-- loop since the turn before it; the Boolean tells it of the first.
abbrev pub controlled : {F D : Type 0} → Bool → List (Event F D) → List Bool
controlled c [] = []
controlled c (safety now ∷ es) = c ∷ controlled false es
controlled c (control z n sw sf ∷ es) = controlled true es
controlled c (e ∷ es) = controlled c es

module _ {F D Dev : Type 0} (fl : Float F) (cv : Convert F D) (drive : MotorDrive F Dev) where
  -- What the safety monitor finds at each of its turns.
  unfoldable pub feedings : Rover F Dev → List (Event F D) → List Bool
  feedings r [] = []
  feedings r (safety now ∷ es) =
      (safety_monitor_turn fl now r.cmd_target r.monitor r.fault_word r.checkins).0
      ∷ feedings (step fl cv drive (safety now) r).1 es
  feedings r (e ∷ es) = feedings (step fl cv drive e r).1 es

  exchange-checkins :
      (o : Option Dev) (w : Motors F) (f : Motors (MotorFeedback F)) (r : Rover F Dev)
      → (exchange fl drive o w f r).2.checkins ≡ r.checkins
  unfolding exchange
  exchange-checkins none w f r = refl
  exchange-checkins (some dev) w f r = refl

  select-checkins : (now : ℤ) (r : Rover F Dev) → (select_command fl now r).1.checkins ≡ r.checkins
  unfolding select_command
  select-checkins now r = ground arith

  run_once-checkins :
      (z n : ℤ) (sw : Motors F) (sf : Motors (MotorFeedback F)) (r : Rover F Dev)
      → (control_loop_run_once fl drive z n sw sf r).1.checkins
        ≡ watchdog_check_in r.checkins subsystem_control
  unfolding control_loop_run_once
  run_once-checkins z n sw sf r = rw (exchange-checkins, select-checkins) refl

  callback-checkins :
      (now : ℤ) (twist : Twist D) (r : Rover F Dev)
      → (cmd_vel_callback fl cv now twist r).checkins ≡ r.checkins
  unfolding cmd_vel_callback
  callback-checkins now twist r = ground arith

  turn-checkins :
      (now : ℤ) (r : Rover F Dev) (s c : Bool)
      → r.checkins ≡ s ∷ c ∷ []
      → let (fed, word, checkins) =
          safety_monitor_turn fl now r.cmd_target r.monitor r.fault_word r.checkins in
        (fed ≡ c) × (checkins ≡ false ∷ false ∷ [])
  unfolding safety_monitor_turn safety_monitor_evaluate watchdog_check_in watchdog_feed
  turn-checkins now r s true h = rw h (refl, refl)
  turn-checkins now r s false h = rw h (refl, refl)

  control-checkins :
      (z n : ℤ) (sw : Motors F) (sf : Motors (MotorFeedback F)) (r : Rover F Dev) (s c : Bool)
      → r.checkins ≡ s ∷ c ∷ []
      → (control_loop_run_once fl drive z n sw sf r).1.checkins ≡ s ∷ true ∷ []
  unfolding watchdog_check_in
  control-checkins z n sw sf r s c h = rw (run_once-checkins z n sw sf r, h) refl

  -- If the array of check-ins has its two elements: in every run, whatever commands, requests and
  -- notifications come between, a turn of the safety monitor feeds the watchdog exactly if the control
  -- loop has had a turn since the turn of the safety monitor before it; for the first one, if it has had
  -- one in the run or is checked in at the start.
  pub feedings-controlled :
      (r : Rover F Dev) (s c : Bool) (es : List (Event F D))
      → r.checkins ≡ s ∷ c ∷ []
      → feedings r es ≡ controlled c es
  unfolding feedings step
  feedings-controlled r s c [] h = refl
  feedings-controlled r s c (safety now ∷ es) h =
      let (fed, next) = turn-checkins now r s c h in
      rw (fed, feedings-controlled (step fl cv drive (safety now) r).1 false false es next) refl
  feedings-controlled r s c (control z n sw sf ∷ es) h =
      feedings-controlled (control_loop_run_once fl drive z n sw sf r).1 s true es
        (control-checkins z n sw sf r s c h)
  feedings-controlled r s c (cmd_vel now twist ∷ es) h =
      feedings-controlled (cmd_vel_callback fl cv now twist r) s c es
        (rw (callback-checkins now twist r) h)
  feedings-controlled r s c (set_agent b ∷ es) h =
      feedings-controlled (step fl cv drive (set_agent b) r).1 s c es h
  feedings-controlled r s c (e ∷ es) h = feedings-controlled (step fl cv drive e r).1 s c es h
