-- ===== src/Rover/Interleaved/Limits.antt =====
-- The limit of the wheel velocities, with the threads interrupted anywhere.
use micro_ros_controller_fir.Prelude.{List, [], ◌∷◌}
use micro_ros_controller_fir.Common.Real.{Float, Convert, IsOrdered}
use micro_ros_controller_fir.Common.Clamp.{Within}
use micro_ros_controller_fir.Common.Params.{max_wheel_velocity_rad_s}
use micro_ros_controller_fir.App.ControlLoop.{MotorDrive}
use micro_ros_controller_fir.Rover.Interleaved.System.{
  System, Action, control_loop, advance, IfSends, Each, AllSends, AllSends-of_invariant,
}
use micro_ros_controller_fir.Rover.Interleaved.Holding.{Holding, control-Holding, wheels_of-Within}

module _ {F D Dev : Type 0} (fl : Float F) (cv : Convert F D) (drive : MotorDrive F Dev) where
  abbrev HoldsWithin : System F Dev → Type 0
  HoldsWithin s = Holding (Within fl (max_wheel_velocity_rad_s fl)) Unit s.control

  HoldsWithin-step :
      IsOrdered fl
      → (a : Action F D) (s : System F Dev) → HoldsWithin s
      → IfSends (Within fl (max_wheel_velocity_rad_s fl)) (advance fl cv drive a s).0
        × HoldsWithin (advance fl cv drive a s).1
  unfolding advance
  HoldsWithin-step ieee (control_loop inputs) s h =
      control-Holding fl drive inputs (Within fl (max_wheel_velocity_rad_s fl)) Unit s.control
        s.rover (λ k. tt) (λ q p. wheels_of-Within fl drive inputs ieee)
        (λ c. wheels_of-Within fl drive inputs ieee _) h
  HoldsWithin-step ieee a s h = (tt, h)

  all_allowed : (es : List (Action F D)) → Each (λ a. Unit {0}) es
  all_allowed [] = tt
  all_allowed (a ∷ es) = (tt, all_allowed es)

  -- With the order of IEEE 754, and each thread interrupted by any others between any two of its
  -- accesses to shared data: from any state in which the control loop is not in the middle of sending
  -- velocities outside the limits, no motor is ever sent a velocity above the maximal wheel velocity
  -- or below its negation.
  pub interleaved-Within :
      IsOrdered fl
      → (s : System F Dev) (es : List (Action F D))
      → Holding (Within fl (max_wheel_velocity_rad_s fl)) Unit s.control
      → AllSends fl cv drive (Within fl (max_wheel_velocity_rad_s fl)) s es
  interleaved-Within ieee s es h =
      AllSends-of_invariant fl cv drive _ HoldsWithin (λ a. Unit {0})
        (λ a s u i. HoldsWithin-step ieee a s i) s es h (all_allowed es)
