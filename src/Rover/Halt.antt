-- ===== src/Rover/Halt.antt =====
-- When the robot is sure to stand still, whatever else happens.
use micro_ros_controller_fir.Prelude.{◌≡◌, false, Option, List, [], ◌∷◌, Option-cases, inl, inr}
use micro_ros_controller_fir.Prelude.Int.{ℤ}
use micro_ros_controller_fir.Common.Real.{Float, Convert, IsZero, KeepsZero}
use micro_ros_controller_fir.Common.Types.{Motors, MotorFeedback}
use micro_ros_controller_fir.App.ControlLoop.{MotorDrive, control_loop_run_once}
use micro_ros_controller_fir.App.ControlLoop.Motion.{may_move, Sent, halts, nothing_sent}
use micro_ros_controller_fir.Rover.State.{Rover}
use micro_ros_controller_fir.Rover.Threads.{Event, control, step, IfSent, AllSent, Each}

pub IfSent-of_Sent :
    {F : Type 0} (P : F → Type 0) (sent : Option (Motors F)) → Sent P sent → IfSent P sent
IfSent-of_Sent P sent (w, e, all) = rw e all

module _ {F D Dev : Type 0} (fl : Float F) (cv : Convert F D) (drive : MotorDrive F Dev) where
  -- A turn of the control loop while the robot may not move sends zeros at most, drive or no drive.
  pub run_once_halted :
      KeepsZero fl
      → (z n : ℤ) (sw : Motors F) (sf : Motors (MotorFeedback F)) (r : Rover F Dev)
      → may_move r ≡ false
      → IfSent (IsZero fl) (control_loop_run_once fl drive z n sw sf r).0
  run_once_halted ieee z n sw sf r h = elim (Option-cases r.motor_dev) [
    | inl absent ↦ rw (nothing_sent fl drive z n sw sf r absent) tt
    | inr (dev, present) ↦
        IfSent-of_Sent (IsZero fl) _ (halts fl drive z n sw sf r dev present ieee h).0
  ]

  step_halted :
      KeepsZero fl
      → (e : Event F D) (r : Rover F Dev) → may_move r ≡ false
      → IfSent (IsZero fl) (step fl cv drive e r).0
  unfolding step
  step_halted ieee (control z n sw sf) r h = run_once_halted ieee z n sw sf r h
  step_halted ieee e r h = tt

  -- A state invariant that rules out motion, kept by every allowed event, keeps the robot still.
  pub halted_run :
      KeepsZero fl
      → (I : Rover F Dev → Type 0) (Allowed : Event F D → Type 0)
      → ((r : Rover F Dev) → I r → may_move r ≡ false)
      → ((e : Event F D) (r : Rover F Dev) → Allowed e → I r → I (step fl cv drive e r).1)
      → (r : Rover F Dev) (es : List (Event F D)) → I r
      → Each Allowed es
      → AllSent fl cv drive (IsZero fl) r es
  unfolding AllSent
  halted_run ieee I Allowed still keep r [] i a = tt
  halted_run ieee I Allowed still keep r (e ∷ es) i (a, rest) = (
    step_halted ieee e r (still r i),
    halted_run ieee I Allowed still keep (step fl cv drive e r).1 es (keep e r a i) rest,
  )
