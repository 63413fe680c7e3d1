-- ===== src/Rover/Interleaved/Feeding.antt =====
-- When the watchdog would be fed, with the threads interrupted. `watchdog_feed` takes no lock, but the
-- safety monitor's thread is cooperative (K_PRIO_COOP in safety/safety_monitor.c) and the function does
-- not wait, so the control loop does not run between its reads of the check-ins and their reset.
use micro_ros_controller_fir.Prelude.{◌≡◌, refl, ap, ◌∙◌, Bool, true, false, List, [], ◌∷◌}
use micro_ros_controller_fir.Prelude.Int.{ℤ}
use micro_ros_controller_fir.Common.Real.{Float, Convert}
use micro_ros_controller_fir.Safety.Watchdog.{watchdog_feed, watchdog_check_in}
use micro_ros_controller_fir.App.ControlLoop.{MotorDrive}
use micro_ros_controller_fir.Ros.CmdVel.{Twist}
use micro_ros_controller_fir.Rover.State.{Rover}
use micro_ros_controller_fir.Rover.Interleaved.Control.{
  Inputs, ControlPc, resting, checking_in, control_move,
}
use micro_ros_controller_fir.Rover.Interleaved.Callback.{CallbackPc, waiting, callback_move}
use micro_ros_controller_fir.Rover.Interleaved.Monitor.{
  MonitorPc, asleep, battery_decided, evaluated, monitor_move,
}
use micro_ros_controller_fir.Rover.Interleaved.System.{
  System, Action, control_loop, cmd_vel, safety_monitor, request, advance,
}

-- The safety monitor has checked in since it last came to `watchdog_feed`.
abbrev pub checked : {F : Type 0} → MonitorPc F → Bool
checked evaluated = true
checked pc = false

-- The control loop checks in by its last access.
abbrev checks_in : {F : Type 0} → ControlPc F → Bool → Bool
checks_in checking_in c = true
checks_in pc c = c

-- The safety monitor asks for the watchdog by its last access.
abbrev asks : {F : Type 0} → MonitorPc F → Bool → List Bool → List Bool
asks evaluated b bs = b ∷ bs
asks pc b bs = bs

abbrev seen_after : {F : Type 0} → MonitorPc F → Bool → Bool
seen_after evaluated c = false
seen_after pc c = c

module _ {F D Dev : Type 0} (fl : Float F) (cv : Convert F D) (drive : MotorDrive F Dev) where
  -- What `watchdog_feed` finds, each time the safety monitor calls it.
  unfoldable pub feedings : System F Dev → List (Action F D) → List Bool
  feedings s [] = []
  feedings s (safety_monitor now ∷ es) =
      asks s.monitor (watchdog_feed s.rover.checkins).0
        (feedings (advance fl cv drive (safety_monitor now) s).1 es)
  feedings s (a ∷ es) = feedings (advance fl cv drive a s).1 es

  -- For each of these calls, whether the control loop has checked in since the one before; the Boolean
  -- tells it of the first.
  unfoldable pub controlled : Bool → System F Dev → List (Action F D) → List Bool
  controlled c s [] = []
  controlled c s (safety_monitor now ∷ es) =
      asks s.monitor c
        (controlled (seen_after s.monitor c) (advance fl cv drive (safety_monitor now) s).1 es)
  controlled c s (control_loop inputs ∷ es) =
      controlled (checks_in s.control c) (advance fl cv drive (control_loop inputs) s).1 es
  controlled c s (a ∷ es) = controlled c (advance fl cv drive a s).1 es

  control-checkins :
      (inputs : Inputs F) (pc : ControlPc F) (r : Rover F Dev) (s c : Bool)
      → r.checkins ≡ s ∷ c ∷ []
      → (control_move fl drive inputs pc r).1.checkins ≡ s ∷ checks_in pc c ∷ []
  unfolding control_move watchdog_check_in
  control-checkins inputs checking_in r s c h = rw h refl
  control-checkins inputs resting r s c h = h
  control-checkins inputs pc r s c h = h

  callback-checkins :
      (now : ℤ) (twist : Twist D) (pc : CallbackPc) (r : Rover F Dev)
      → (callback_move fl cv now twist pc r).0.checkins ≡ r.checkins
  unfolding callback_move
  callback-checkins now twist waiting r = refl
  callback-checkins now twist pc r = refl

  monitor-checkins :
      (now : ℤ) (pc : MonitorPc F) (r : Rover F Dev) (c : Bool)
      → r.checkins ≡ checked pc ∷ c ∷ []
      → let (r', pc') = monitor_move fl now pc r in r'.checkins ≡ checked pc' ∷ seen_after pc c ∷ []
  unfolding monitor_move watchdog_check_in watchdog_feed
  monitor-checkins now battery_decided r c h = rw h refl
  monitor-checkins now evaluated r c h = rw h refl
  monitor-checkins now asleep r c h = h
  monitor-checkins now pc r c h = h

  fed : (cs : List Bool) (c : Bool) → cs ≡ true ∷ c ∷ [] → (watchdog_feed cs).0 ≡ c
  unfolding watchdog_feed
  fed cs true h = rw h refl
  fed cs false h = rw h refl

  asks-fed :
      (pc : MonitorPc F) (cs : List Bool) (c : Bool) (bs : List Bool)
      → cs ≡ checked pc ∷ c ∷ []
      → asks pc (watchdog_feed cs).0 bs ≡ asks pc c bs
  asks-fed evaluated cs c bs h = ap (λ b. b ∷ bs) (fed cs c h)
  asks-fed asleep cs c bs h = refl
  asks-fed pc cs c bs h = refl

  -- With each thread interrupted by any others between any two of its accesses to shared data, where a
  -- call of `watchdog_feed` or `watchdog_check_in` is not interrupted: if the check-in of the safety
  -- monitor is set exactly when it stands before `watchdog_feed`, then in every run, each time the safety
  -- monitor calls `watchdog_feed`, the watchdog is found to be feedable exactly if the control loop has
  -- checked in since the call before; for the first call, if it has done so in the run or is checked in at
  -- the start.
  pub interleaved_feedings :
      (s : System F Dev) (c : Bool) (es : List (Action F D))
      → s.rover.checkins ≡ checked s.monitor ∷ c ∷ []
      → feedings s es ≡ controlled c s es
  unfolding feedings controlled advance
  interleaved_feedings s c [] h = refl
  interleaved_feedings s c (safety_monitor now ∷ es) h =
      rw
        (interleaved_feedings (advance fl cv drive (safety_monitor now) s).1
          (seen_after s.monitor c) es (monitor-checkins now s.monitor s.rover c h))
        (asks-fed s.monitor s.rover.checkins c _ h)
  interleaved_feedings s c (control_loop inputs ∷ es) h =
      interleaved_feedings (advance fl cv drive (control_loop inputs) s).1 (checks_in s.control c)
        es (control-checkins inputs s.control s.rover _ c h)
  interleaved_feedings s c (cmd_vel now twist ∷ es) h =
      interleaved_feedings (advance fl cv drive (cmd_vel now twist) s).1 c es
        (callback-checkins now twist s.callback s.rover ∙ h)
  interleaved_feedings s c (request n ∷ es) h =
      interleaved_feedings (advance fl cv drive (request n) s).1 c es h
  interleaved_feedings s c (a ∷ es) h = interleaved_feedings (advance fl cv drive a s).1 c es h
