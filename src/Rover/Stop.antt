-- ===== src/Rover/Stop.antt =====
-- Emergency stop and fault: the robot stands still until it is reset.
use micro_ros_controller_fir.Prelude.{◌≡◌, ◌⊎◌, false, List, arith}
use micro_ros_controller_fir.Common.Real.{Float, Convert, IsZero, KeepsZero}
use micro_ros_controller_fir.App.StateMachine.{
  RobotState, boot, fault, estop, state_machine_transition, state_machine_motion_allowed,
}
use micro_ros_controller_fir.App.ControlLoop.{MotorDrive}
use micro_ros_controller_fir.App.ControlLoop.Motion.{may_move, run_once-frame}
use micro_ros_controller_fir.Ros.CmdVel.{cmd_vel_callback}
use micro_ros_controller_fir.Rover.State.{Rover}
use micro_ros_controller_fir.Rover.Threads.{
  Event, control, cmd_vel, request, step, AllSent, Each, NoReset,
}
use micro_ros_controller_fir.Rover.Halt.{halted_run}

abbrev pub IsStopped : RobotState → Type 0
IsStopped s = (s ≡ estop) ⊎ (s ≡ fault)

module _ {F D Dev : Type 0} (fl : Float F) (cv : Convert F D) (drive : MotorDrive F Dev) where
  IsStopped-still : (r : Rover F Dev) → IsStopped r.current_state → may_move r ≡ false
  unfolding state_machine_motion_allowed
  IsStopped-still r i = ground arith

  IsStopped-step :
      (e : Event F D) (r : Rover F Dev)
      → NoReset e
      → IsStopped r.current_state
      → IsStopped (step fl cv drive e r).1.current_state
  unfolding step cmd_vel_callback state_machine_transition
  IsStopped-step (control z n sw sf) r a i = rw (run_once-frame fl drive z n sw sf r).0 i
  IsStopped-step (cmd_vel now twist) r a i = ground arith
  IsStopped-step (request boot) r a i = elim a [ ]
  IsStopped-step (request n) r a i = ground arith
  IsStopped-step e r a i = i

  -- With the laws of IEEE 754 for zeros: from a state of emergency stop or fault on, the motors are
  -- sent nothing but zeros, whatever commands, notifications, turns and requests follow and in
  -- whatever order, as long as no reset is requested.
  stopped_until_reset :
      KeepsZero fl
      → (r : Rover F Dev) (es : List (Event F D))
      → (r.current_state ≡ estop) ⊎ (r.current_state ≡ fault)
      → Each NoReset es
      → AllSent fl cv drive (IsZero fl) r es
  stopped_until_reset ieee =
      halted_run fl cv drive ieee (λ r. IsStopped r.current_state) NoReset IsStopped-still
        IsStopped-step
