-- ===== src/Rover/Interleaved/Delay.antt =====
-- How soon an emergency stop or a fault stops the motors.
use micro_ros_controller_fir.Prelude.{◌≡◌, ◌≤◌, ◌⊎◌, List, [], ◌∷◌, true}
use micro_ros_controller_fir.Common.Real.{Float, Convert, KeepsZero}
use micro_ros_controller_fir.Safety.Monitor.{safety_monitor_motion_permitted}
use micro_ros_controller_fir.App.StateMachine.{fault, estop, state_machine_motion_allowed}
use micro_ros_controller_fir.App.ControlLoop.{MotorDrive}
use micro_ros_controller_fir.Rover.Stop.{IsStopped}
use micro_ros_controller_fir.Rover.Interleaved.System.{System, Action, advance, Each, NoReset}
use micro_ros_controller_fir.Rover.Interleaved.Stop.{IsStopped-halts, IsStopped-advance}
use micro_ros_controller_fir.Rover.Interleaved.Budget.{Always, any_pc-AtMost, turns, turns-AtMost}

module _ {F D Dev : Type 0} (fl : Float F) (cv : Convert F D) (drive : MotorDrive F Dev) where
  stays_stopped :
      (s : System F Dev) (es : List (Action F D))
      → IsStopped s.rover.current_state
      → Each NoReset es
      → Always fl cv drive
          (λ s.
            (state_machine_motion_allowed s.rover.current_state ≡ true → ⊥)
            × (⊥ → safety_monitor_motion_permitted s.rover.fault_word ≡ true → ⊥))
          s
          es
  unfolding Always
  stays_stopped s [] i e = tt
  stays_stopped s (a ∷ es) i (n, e) = (
    (IsStopped-halts s.rover.current_state i, λ q k. q),
    stays_stopped (advance fl cv drive a s).1 es (IsStopped-advance fl cv drive a s n i) e,
  )

  -- With the laws of IEEE 754 for zeros, and each thread interrupted by any others between any two of
  -- its accesses to shared data: from a state of emergency stop or fault on, however far the control
  -- loop has come, the motors are sent at most four velocities that are not zero, as long as no reset is
  -- requested.
  pub stop_delay :
      KeepsZero fl
      → (s : System F Dev) (es : List (Action F D))
      → (s.rover.current_state ≡ estop) ⊎ (s.rover.current_state ≡ fault)
      → Each NoReset es
      → turns fl cv drive s es ≤ 4
  stop_delay ieee s es i e =
      turns-AtMost fl cv drive ieee ⊥ 4 s es (any_pc-AtMost fl ⊥ s.control) (stays_stopped s es i e)
