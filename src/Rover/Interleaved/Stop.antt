-- ===== src/Rover/Interleaved/Stop.antt =====
-- Emergency stop and fault, with the threads interrupted anywhere.
use micro_ros_controller_fir.Prelude.{ℕ, ◌≡◌, ◌≢◌, ◌⊎◌, true, List, arith}
use micro_ros_controller_fir.Prelude.Int.{ℤ}
use micro_ros_controller_fir.Common.Real.{Float, Convert, IsZero, KeepsZero}
use micro_ros_controller_fir.App.StateMachine.{
  RobotState, boot, fault, estop, active, state_machine_transition, state_machine_motion_allowed,
}
use micro_ros_controller_fir.App.ControlLoop.{MotorDrive}
use micro_ros_controller_fir.Ros.CmdVel.{Twist}
use micro_ros_controller_fir.Rover.State.{Rover}
use micro_ros_controller_fir.Rover.Stop.{IsStopped}
use micro_ros_controller_fir.Rover.Interleaved.Callback.{
  CallbackPc, waiting, stored, was_idle, permitted, callback_move,
}
use micro_ros_controller_fir.Rover.Interleaved.Monitor.{monitor_move-frame}
use micro_ros_controller_fir.Rover.Interleaved.System.{
  System, Action, control_loop, cmd_vel, safety_monitor, request, advance, IfSends, Each, NoReset,
  AllSends, AllSends-of_invariant,
}
use micro_ros_controller_fir.Rover.Interleaved.Holding.{
  Holding, control-Holding, control_move-frame, zeroed-IsZero,
}

abbrev StaysStopped : {F Dev : Type 0} → Float F → System F Dev → Type 0
StaysStopped fl s = IsStopped s.rover.current_state × Holding (IsZero fl) ⊥ s.control

transition-IsStopped :
    (s : RobotState) (w : ℕ) (n : RobotState)
    → n ≢ boot
    → IsStopped s
    → IsStopped (state_machine_transition s w n).1
unfolding state_machine_transition
transition-IsStopped s w n k i = ground arith

pub IsStopped-halts : (s : RobotState) → IsStopped s → state_machine_motion_allowed s ≡ true → ⊥
unfolding state_machine_motion_allowed
IsStopped-halts s i h = ground arith

module _ {F D Dev : Type 0} (fl : Float F) (cv : Convert F D) (drive : MotorDrive F Dev) where
  callback-IsStopped :
      (now : ℤ) (twist : Twist D) (pc : CallbackPc) (r : Rover F Dev)
      → IsStopped r.current_state
      → IsStopped (callback_move fl cv now twist pc r).0.current_state
  unfolding callback_move
  callback-IsStopped now twist waiting r i = i
  callback-IsStopped now twist stored r i = i
  callback-IsStopped now twist was_idle r i = i
  callback-IsStopped now twist permitted r i =
      transition-IsStopped r.current_state r.fault_word active (cc) i

  -- Nothing but a reset ends a stop.
  pub IsStopped-advance :
      (a : Action F D) (s : System F Dev)
      → NoReset a
      → IsStopped s.rover.current_state
      → IsStopped (advance fl cv drive a s).1.rover.current_state
  unfolding advance
  IsStopped-advance (control_loop inputs) s n i =
      rw (control_move-frame fl drive inputs s.control s.rover).0 i
  IsStopped-advance (cmd_vel now twist) s n i = callback-IsStopped now twist s.callback s.rover i
  IsStopped-advance (safety_monitor now) s n i =
      rw (monitor_move-frame fl now s.monitor s.rover).0 i
  IsStopped-advance (request boot) s n i = elim n [ ]
  IsStopped-advance (request n) s k i =
      transition-IsStopped s.rover.current_state s.rover.fault_word n (cc) i
  IsStopped-advance a s n i = i

  StaysStopped-step :
      KeepsZero fl
      → (a : Action F D) (s : System F Dev) → NoReset a
      → StaysStopped fl s
      → IfSends (IsZero fl) (advance fl cv drive a s).0
        × StaysStopped fl (advance fl cv drive a s).1
  unfolding advance
  StaysStopped-step ieee (control_loop inputs) s n (i, h) =
      let (sends, h') =
        control-Holding fl drive inputs (IsZero fl) ⊥ s.control s.rover
          (IsStopped-halts s.rover.current_state i) (λ q p c. elim q [ ])
          (zeroed-IsZero fl drive inputs ieee) h in
      (sends, (IsStopped-advance (control_loop inputs) s n i, h'))
  StaysStopped-step ieee (request boot) s n (i, h) = elim n [ ]
  StaysStopped-step ieee a s n (i, h) = (tt, (IsStopped-advance a s n i, h))

  -- With the laws of IEEE 754 for zeros, and each thread interrupted by any others between any two of
  -- its accesses to shared data: from a state of emergency stop or fault on, in which the control loop
  -- does not stand between its test of the lifecycle state and its test of the faults, and the velocities
  -- that it is sending, if it is, are zero, the motors are sent nothing but zeros, as long as no reset is
  -- requested.
  interleaved_stop :
      KeepsZero fl
      → (s : System F Dev) (es : List (Action F D))
      → (s.rover.current_state ≡ estop) ⊎ (s.rover.current_state ≡ fault)
      → Holding (IsZero fl) ⊥ s.control
      → Each NoReset es
      → AllSends fl cv drive (IsZero fl) s es
  interleaved_stop ieee s es i h =
      AllSends-of_invariant fl cv drive (IsZero fl) (StaysStopped fl) NoReset
        (StaysStopped-step ieee) s es (i, h)
