-- ===== src/Rover/Threads.antt =====
-- The threads of the firmware as a sequence of events. Each event is one call that runs without being
-- preempted in what it does to the shared variables: a turn of the safety monitor (a cooperative
-- thread), a turn of the control loop, a velocity command, a notification of the safety monitor, a
-- request to the state machine, or an update of the diagnostics. The order of the events is arbitrary,
-- which covers every schedule that switches threads between such calls.
use micro_ros_controller_fir.Prelude.{Bool, Option, none, some, List, [], ◌∷◌}
use micro_ros_controller_fir.Prelude.Int.{ℤ}
use micro_ros_controller_fir.Common.Real.{Float, Convert}
use micro_ros_controller_fir.Common.Types.{Motors, AllMotors, MotorFeedback}
use micro_ros_controller_fir.Safety.Monitor.{
  safety_monitor_turn, safety_monitor_set_agent_connected, safety_monitor_set_battery_voltage,
}
use micro_ros_controller_fir.App.StateMachine.{RobotState, boot, state_machine_transition}
use micro_ros_controller_fir.App.Diagnostics.{diagnostics_update}
use micro_ros_controller_fir.App.ControlLoop.{MotorDrive, control_loop_run_once}
use micro_ros_controller_fir.Ros.CmdVel.{Twist, cmd_vel_callback}
use micro_ros_controller_fir.Rover.State.{Rover}

pub data Event (F D : Type 0) : Type 0 where
  safety : (now : ℤ) → Event F D
  control :
      (now_zero now : ℤ) (stack_wheels : Motors F) (stack_feedback : Motors (MotorFeedback F))
      → Event F D
  cmd_vel : (now : ℤ) → Twist D → Event F D
  set_agent : Bool → Event F D
  set_battery : F → Event F D
  request : RobotState → Event F D
  diagnose : Event F D

module _ {F D Dev : Type 0} (fl : Float F) (cv : Convert F D) (drive : MotorDrive F Dev) where
  -- What is handed to the motor drive, if anything, and the next state.
  unfoldable pub step : Event F D → Rover F Dev → Option (Motors F) × Rover F Dev
  step (safety now) r =
      let (fed, word, checkins) =
        safety_monitor_turn fl now r.cmd_target r.monitor r.fault_word r.checkins in
      (none, record r { fault_word = word; checkins = checkins })
  step (control now_zero now stack_wheels stack_feedback) r =
      control_loop_run_once fl drive now_zero now stack_wheels stack_feedback r
  step (cmd_vel now twist) r = (none, cmd_vel_callback fl cv now twist r)
  step (set_agent connected) r =
      (none, record r { monitor = safety_monitor_set_agent_connected connected r.monitor })
  step (set_battery voltage) r =
      (none, record r { monitor = safety_monitor_set_battery_voltage voltage r.monitor })
  step (request new_state) r =
      let (rc, state, word) = state_machine_transition r.current_state r.fault_word new_state in
      (none, record r { current_state = state; fault_word = word })
  step diagnose r = (none, record r { diag_flags = diagnostics_update r.fault_word r.diag_flags })

  unfoldable pub final : Rover F Dev → List (Event F D) → Rover F Dev
  final r [] = r
  final r (e ∷ es) = final (step e r).1 es

-- Whatever is handed to the drive satisfies a predicate.
abbrev pub IfSent : {F : Type 0} → (F → Type 0) → Option (Motors F) → Type 0
IfSent P none = Unit {0}
IfSent P (some w) = AllMotors P w

module _ {F D Dev : Type 0} (fl : Float F) (cv : Convert F D) (drive : MotorDrive F Dev) where
  -- Throughout a run, everything that is handed to the drive satisfies a predicate.
  unfoldable pub AllSent : (F → Type 0) → Rover F Dev → List (Event F D) → Type 0
  AllSent P r [] = Unit {0}
  AllSent P r (e ∷ es) = IfSent P (step fl cv drive e r).0 × AllSent P (step fl cv drive e r).1 es

-- Every event of a list is allowed.
abbrev pub Each : {F D : Type 0} → (Event F D → Type 0) → List (Event F D) → Type 0
Each P [] = Unit {0}
Each P (e ∷ es) = P e × Each P es

-- No request to reset the state machine, which would clear the faults.
abbrev pub NoReset : {F D : Type 0} → Event F D → Type 0
NoReset (request boot) = ⊥
NoReset e = Unit {0}
