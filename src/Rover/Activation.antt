-- ===== src/Rover/Activation.antt =====
-- How a velocity command makes the robot ACTIVE, and a schedule in which none does.
use micro_ros_controller_fir.Prelude.{◌≡◌, refl, ◌≢◌, ◌⊎◌, Bool, true, false, List, [], ◌∷◌, arith}
use micro_ros_controller_fir.Prelude.Int.{ℤ}
use micro_ros_controller_fir.Common.Real.{Float, Convert}
use micro_ros_controller_fir.Common.Types.{Motors, MotorFeedback}
use micro_ros_controller_fir.Common.Params.{cmd_timeout_ms}
use micro_ros_controller_fir.Common.Time.{time_is_expired_ms}
use micro_ros_controller_fir.Safety.Fault.{cmd_timeout, estop, watchdog}
use micro_ros_controller_fir.Safety.Fault.Flags.{holds, motion_inhibited-holds}
use micro_ros_controller_fir.Safety.Monitor.{
  command_stale, battery_low, safety_monitor_motion_permitted, safety_monitor_turn,
}
use micro_ros_controller_fir.Safety.Monitor.Verdict.{evaluate-permits}
use micro_ros_controller_fir.App.Command.{robot_command_zero, robot_command_set}
use micro_ros_controller_fir.App.StateMachine.{
  RobotState, boot, idle, active, state_machine_transition, state_machine_motion_allowed,
}
use micro_ros_controller_fir.App.ControlLoop.{MotorDrive, control_loop_run_once}
use micro_ros_controller_fir.App.ControlLoop.Motion.{may_move, run_once-frame}
use micro_ros_controller_fir.Ros.CmdVel.{Twist, cmd_vel_callback}
use micro_ros_controller_fir.Ros.CmdVel.Activation.{callback-effect}
use micro_ros_controller_fir.Rover.State.{Rover}
use micro_ros_controller_fir.Rover.Threads.{Event, safety, control, cmd_vel, request, step, final}
use micro_ros_controller_fir.Rover.Frame.{transition-word, turn-verdict, callback-frame}

-- A sequence of events in which a turn of the control loop lies between any command and the next
-- evaluation of the safety monitor, and in which neither a reset nor ACTIVE is requested. The Boolean
-- tells whether a command has come in since the last turn.
abbrev pub Overtaken : {F D : Type 0} → Bool → List (Event F D) → Type 0
Overtaken pending [] = Unit {0}
Overtaken pending (cmd_vel now twist ∷ es) = Overtaken true es
Overtaken pending (control z n sw sf ∷ es) = Overtaken false es
Overtaken true (safety now ∷ es) = ⊥
Overtaken false (safety now ∷ es) = Overtaken false es
Overtaken pending (request boot ∷ es) = ⊥
Overtaken pending (request active ∷ es) = ⊥
Overtaken pending (e ∷ es) = Overtaken pending es

-- The robot waits for a command, and the safety monitor has found that there is none.
pub record IsWaiting {F Dev : Type 0} (pending : Bool) (r : Rover F Dev) : Type 0 where
  pub not_active : r.current_state ≢ active
  pub noticed : holds r.fault_word cmd_timeout ≡ true
  pub no_command : pending ≡ false → r.cmd_target.valid ≡ false

module _ {F D Dev : Type 0} (fl : Float F) (cv : Convert F D) (drive : MotorDrive F Dev) where
  IsWaiting-cmd_vel :
      (p : Bool) (now : ℤ) (twist : Twist D) (r : Rover F Dev)
      → IsWaiting p r
      → IsWaiting true (cmd_vel_callback fl cv now twist r)
  unfolding safety_monitor_motion_permitted
  IsWaiting-cmd_vel p now twist r i =
      let halted : safety_monitor_motion_permitted r.fault_word ≡ false =
        ground (arith, motion_inhibited-holds r.fault_word, i.noticed) in
      record {
        not_active = rw (callback-effect fl cv now twist r) (ground (arith, i.not_active, halted));
        noticed = rw (callback-frame fl cv now twist r).0 i.noticed;
        no_command = λ h. ground arith;
      }

  IsWaiting-control :
      (p : Bool) (z n : ℤ) (sw : Motors F) (sf : Motors (MotorFeedback F)) (r : Rover F Dev)
      → IsWaiting p r
      → IsWaiting false (control_loop_run_once fl drive z n sw sf r).1
  unfolding state_machine_motion_allowed robot_command_zero
  IsWaiting-control p z n sw sf r i =
      let still : may_move r ≡ false = ground (arith, i.not_active) in
      let frame = run_once-frame fl drive z n sw sf r in
      record {
        not_active = rw frame.0 i.not_active;
        noticed = rw frame.1 i.noticed;
        no_command = λ h. rw (frame.4, still);
      }

  IsWaiting-safety :
      (now : ℤ) (r : Rover F Dev)
      → IsWaiting false r
      → IsWaiting false (step fl cv drive (safety now) r).1
  unfolding step command_stale
  IsWaiting-safety now r i = record {
    not_active = i.not_active;
    noticed = rw (turn-verdict, i.no_command refl);
    no_command = λ h. i.no_command refl;
  }

  IsWaiting-request :
      (p : Bool) (n : RobotState) (r : Rover F Dev)
      → n ≢ boot
      → n ≢ active
      → IsWaiting p r
      → IsWaiting p (step fl cv drive (request n) r).1
  unfolding step state_machine_transition
  IsWaiting-request p n r h k i = record {
    not_active = ground (arith, i.not_active);
    noticed = rw (transition-word r.current_state r.fault_word n h) i.noticed;
    no_command = i.no_command;
  }

  -- If the robot is not ACTIVE, the safety monitor has set the command timeout, and the command
  -- target is not valid unless a command has come in since the last turn of the control loop, then
  -- the robot does not become ACTIVE, however many velocity commands arrive, as long as the control
  -- loop runs between each command and the next evaluation of the safety monitor and neither a
  -- reset nor ACTIVE is requested.
  pub never_active :
      (r : Rover F Dev) (pending : Bool) (es : List (Event F D))
      → IsWaiting pending r
      → Overtaken pending es
      → (final fl cv drive r es).current_state ≢ active
  unfolding final step
  never_active r p [] i o = i.not_active
  never_active r p (cmd_vel now twist ∷ es) i o =
      never_active (cmd_vel_callback fl cv now twist r) true es (IsWaiting-cmd_vel p now twist r i)
        o
  never_active r p (control z n sw sf ∷ es) i o =
      never_active (control_loop_run_once fl drive z n sw sf r).1 false es
        (IsWaiting-control p z n sw sf r i) o
  never_active r true (safety now ∷ es) i o = elim o [ ]
  never_active r false (safety now ∷ es) i o =
      never_active (step fl cv drive (safety now) r).1 false es (IsWaiting-safety now r i) o
  never_active r p (request boot ∷ es) i o = elim o [ ]
  never_active r p (request active ∷ es) i o = elim o [ ]
  never_active r p (request n ∷ es) i o =
      never_active (step fl cv drive (request n) r).1 p es
        (IsWaiting-request p n r (ground arith) (ground arith) i) o
  never_active r p (e ∷ es) i o =
      never_active (step fl cv drive e r).1 p es
        (record { not_active = i.not_active; noticed = i.noticed; no_command = i.no_command }) o

  -- With the robot IDLE or ACTIVE and motion permitted, a command leaves it ACTIVE.
  command_activates :
      (now : ℤ) (twist : Twist D) (r : Rover F Dev)
      → (r.current_state ≡ idle) ⊎ (r.current_state ≡ active)
      → safety_monitor_motion_permitted r.fault_word ≡ true
      → (cmd_vel_callback fl cv now twist r).current_state ≡ active
  command_activates now twist r s h = rw (callback-effect fl cv now twist r) (ground arith)

  -- A command leaves a robot that is IDLE in one of the two states.
  after_command :
      (now : ℤ) (twist : Twist D) (r : Rover F Dev)
      → r.current_state ≡ idle
      → let r' = cmd_vel_callback fl cv now twist r in
        (r'.current_state ≡ idle) ⊎ (r'.current_state ≡ active)
  after_command now twist r s = rw (callback-effect fl cv now twist r) (ground arith)

  -- A fresh command is not stale.
  pub fresh_command :
      (t₀ t₁ : ℤ) (twist : Twist D) (r : Rover F Dev)
      → time_is_expired_ms t₁ t₀ cmd_timeout_ms ≡ false
      → command_stale fl t₁ (cmd_vel_callback fl cv t₀ twist r).cmd_target ≡ false
  unfolding command_stale robot_command_set
  fresh_command t₀ t₁ twist r h = rw (callback-effect fl cv t₀ twist r) h

  pub turn_permits :
      (now : ℤ) (r : Rover F Dev)
      → command_stale fl now r.cmd_target ≡ false
      → r.monitor.agent_connected ≡ true
      → battery_low fl r.monitor.battery_voltage_v ≡ false
      → holds r.fault_word estop ≡ false
      → holds r.fault_word watchdog ≡ false
      → safety_monitor_motion_permitted
          (safety_monitor_turn fl now r.cmd_target r.monitor r.fault_word r.checkins).1
        ≡ true
  unfolding safety_monitor_turn
  turn_permits now r fresh agent battery stop dog =
      ground (arith, evaluate-permits fl now r.cmd_target r.monitor r.fault_word r.checkins)

  -- With the agent connected, the battery not low and neither an emergency stop nor a watchdog fault
  -- latched, an IDLE robot becomes ACTIVE by two velocity commands, if the safety monitor evaluates
  -- between the two, when the first is not yet expired.
  pub two_commands_activate :
      (r : Rover F Dev) (t₀ t₁ t₂ : ℤ) (first second : Twist D)
      → r.current_state ≡ idle
      → r.monitor.agent_connected ≡ true
      → battery_low fl r.monitor.battery_voltage_v ≡ false
      → holds r.fault_word estop ≡ false
      → holds r.fault_word watchdog ≡ false
      → time_is_expired_ms t₁ t₀ cmd_timeout_ms ≡ false
      → (final fl cv drive r (cmd_vel t₀ first ∷ safety t₁ ∷ cmd_vel t₂ second ∷ [])).current_state
        ≡ active
  unfolding final step
  two_commands_activate r t₀ t₁ t₂ first second s agent battery stop dog fresh =
      let r₁ = cmd_vel_callback fl cv t₀ first r in
      let (word, monitor) = callback-frame fl cv t₀ first r in
      command_activates t₂ second (step fl cv drive (safety t₁) r₁).1 (after_command t₀ first r s) (
        turn_permits t₁ r₁ (fresh_command t₀ t₁ first r fresh) (rw monitor agent)
          (rw monitor battery) (rw word stop) (rw word dog))
