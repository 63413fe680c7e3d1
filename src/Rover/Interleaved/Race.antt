-- ===== src/Rover/Interleaved/Race.antt =====
-- A race of the velocity callback with the control loop.
use micro_ros_controller_fir.Prelude.{◌≡◌, refl, true, List, [], ◌∷◌}
use micro_ros_controller_fir.Prelude.Int.{ℤ}
use micro_ros_controller_fir.Common.Real.{Float, Convert}
use micro_ros_controller_fir.Safety.Monitor.{safety_monitor_motion_permitted}
use micro_ros_controller_fir.App.Command.{robot_command_set, robot_command_zero}
use micro_ros_controller_fir.App.StateMachine.{
  idle, active, state_machine_motion_allowed, state_machine_transition, state_machine_get,
}
use micro_ros_controller_fir.App.ControlLoop.{MotorDrive}
use micro_ros_controller_fir.App.ControlLoop.Motion.{run_once-frame}
use micro_ros_controller_fir.Ros.CmdVel.{Twist, command_of, cmd_vel_callback}
use micro_ros_controller_fir.Ros.CmdVel.Activation.{callback-effect}
use micro_ros_controller_fir.Rover.State.{Rover}
use micro_ros_controller_fir.Rover.Threads
use micro_ros_controller_fir.Rover.Threads.{Event, control, step, final}
use micro_ros_controller_fir.Rover.Interleaved.Control.{Inputs, resting, control_move}
use micro_ros_controller_fir.Rover.Interleaved.Callback.{waiting, callback_move}
use micro_ros_controller_fir.Rover.Interleaved.System.{
  System, Action, control_loop, cmd_vel, advance, after,
}

-- A whole turn of the control loop.
abbrev pub turn : {F D : Type 0} → Inputs F → Event F D
turn inputs = control inputs.now_zero inputs.now inputs.stack_wheels inputs.stack_feedback

module _ {F D Dev : Type 0} (fl : Float F) (cv : Convert F D) (drive : MotorDrive F Dev) where
  -- The control loop interrupts the callback after its first access, and has zeroed the target when the
  -- callback goes on.
  abbrev pub overtaken : Inputs F → ℤ → Twist D → List (Action F D)
  overtaken inputs now twist =
      cmd_vel now twist
      ∷ control_loop inputs
      ∷ control_loop inputs
      ∷ control_loop inputs
      ∷ cmd_vel now twist
      ∷ cmd_vel now twist
      ∷ cmd_vel now twist
      ∷ []

  -- A turn after a callback finds its command, and leaves it valid if the robot may move.
  callback_then_turn :
      (r : Rover F Dev) (inputs : Inputs F) (now : ℤ) (twist : Twist D)
      → r.current_state ≡ idle
      → safety_monitor_motion_permitted r.fault_word ≡ true
      → (final fl cv drive r (Threads.cmd_vel now twist ∷ turn inputs ∷ [])).cmd_target.valid ≡ true
  unfolding final step robot_command_set command_of state_machine_motion_allowed
  callback_then_turn r inputs now twist st ok =
      let r₁ = cmd_vel_callback fl cv now twist r in
      let kept =
        run_once-frame fl drive inputs.now_zero inputs.now inputs.stack_wheels inputs.stack_feedback
          r₁ in
      rw (kept.4, callback-effect fl cv now twist r, st, ok) refl

  turn_then_callback :
      (r : Rover F Dev) (inputs : Inputs F) (now : ℤ) (twist : Twist D)
      → (final fl cv drive r (turn inputs ∷ Threads.cmd_vel now twist ∷ [])).cmd_target.valid ≡ true
  unfolding final step robot_command_set command_of
  turn_then_callback r inputs now twist =
      rw (callback-effect fl cv now twist (step fl cv drive (turn inputs) r).1) refl

  -- With motion permitted, the robot IDLE and both threads before their first
  -- access: if the control loop makes its first three accesses right after the callback has stored a
  -- velocity command, then the callback makes the robot ACTIVE, but its command is lost: the target is
  -- zero and not valid. No order of the whole callback and a whole turn does this: after either the
  -- target is valid.
  pub command_lost :
      (s : System F Dev) (inputs : Inputs F) (now : ℤ) (twist : Twist D)
      → s.control ≡ resting
      → s.callback ≡ waiting
      → s.rover.current_state ≡ idle
      → safety_monitor_motion_permitted s.rover.fault_word ≡ true
      → let r' = (after fl cv drive s (overtaken inputs now twist)).rover in
        (r'.current_state ≡ active)
        × (r'.cmd_target ≡ robot_command_zero fl inputs.now_zero)
        × ((final fl cv drive s.rover
              (Threads.cmd_vel now twist ∷ turn inputs ∷ [])).cmd_target.valid
            ≡ true)
        × ((final fl cv drive s.rover
              (turn inputs ∷ Threads.cmd_vel now twist ∷ [])).cmd_target.valid
            ≡ true)
  unfolding after advance control_move callback_move state_machine_motion_allowed
      state_machine_transition state_machine_get
  command_lost s inputs now twist pc cb st ok = (
    rw (pc, cb, st, ok) refl,
    rw (pc, cb, st, ok) refl,
    callback_then_turn s.rover inputs now twist st ok,
    turn_then_callback s.rover inputs now twist,
  )
