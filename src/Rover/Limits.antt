-- ===== src/Rover/Limits.antt =====
-- How fast the wheels are ever told to turn.
use micro_ros_controller_fir.Prelude.{List, [], ◌∷◌, inl, inr, Option-cases}
use micro_ros_controller_fir.Common.Real.{Float, Convert, IsOrdered}
use micro_ros_controller_fir.Common.Clamp.{Within}
use micro_ros_controller_fir.Common.Params.{max_wheel_velocity_rad_s}
use micro_ros_controller_fir.App.ControlLoop.{MotorDrive}
use micro_ros_controller_fir.App.ControlLoop.Motion.{Sent-Within, nothing_sent}
use micro_ros_controller_fir.Rover.State.{Rover}
use micro_ros_controller_fir.Rover.Threads.{Event, control, step, IfSent, AllSent}
use micro_ros_controller_fir.Rover.Halt.{IfSent-of_Sent}

module _ {F D Dev : Type 0} (fl : Float F) (cv : Convert F D) (drive : MotorDrive F Dev) where
  step-Within :
      IsOrdered fl
      → (e : Event F D) (r : Rover F Dev)
      → IfSent (Within fl (max_wheel_velocity_rad_s fl)) (step fl cv drive e r).0
  unfolding step
  step-Within ieee (control z n sw sf) r = elim (Option-cases r.motor_dev) [
    | inl absent ↦ rw (nothing_sent fl drive z n sw sf r absent) tt
    | inr (dev, present) ↦ IfSent-of_Sent _ _ (Sent-Within fl drive z n sw sf r dev present ieee)
  ]
  step-Within ieee e r = tt

  -- With the order of IEEE 754: in every run, from any state and with any events, no motor is sent
  -- a velocity above the maximal wheel velocity or below its negation.
  run-Within :
      IsOrdered fl
      → (r : Rover F Dev) (es : List (Event F D))
      → AllSent fl cv drive (Within fl (max_wheel_velocity_rad_s fl)) r es
  unfolding AllSent
  run-Within ieee r [] = tt
  run-Within ieee r (e ∷ es) = (step-Within ieee e r, run-Within ieee (step fl cv drive e r).1 es)
