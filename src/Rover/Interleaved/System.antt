-- ===== src/Rover/Interleaved/System.antt =====
-- The three threads, the notifications and the updates of the diagnostics in any order of their
-- accesses. Each turn, callback and evaluation can be interrupted between any two accesses of the
-- shared data by any others; an update of the diagnostics holds its spinlock throughout.
use micro_ros_controller_fir.Prelude.{Bool, Option, none, some, List, [], ◌∷◌}
use micro_ros_controller_fir.Prelude.Int.{ℤ}
use micro_ros_controller_fir.Common.Real.{Float, Convert}
use micro_ros_controller_fir.Safety.Monitor.{
  safety_monitor_set_agent_connected, safety_monitor_set_battery_voltage,
}
use micro_ros_controller_fir.App.StateMachine.{RobotState, boot, state_machine_transition}
use micro_ros_controller_fir.App.Diagnostics.{diagnostics_update}
use micro_ros_controller_fir.App.ControlLoop.{MotorDrive}
use micro_ros_controller_fir.Ros.CmdVel.{Twist}
use micro_ros_controller_fir.Rover.State.{Rover}
use micro_ros_controller_fir.Rover.Interleaved.Control.{MotorId, Inputs, ControlPc, control_move}
use micro_ros_controller_fir.Rover.Interleaved.Callback.{CallbackPc, callback_move}
use micro_ros_controller_fir.Rover.Interleaved.Monitor.{MonitorPc, monitor_move}

-- The shared data, and where each thread stands.
pub record System (F Dev : Type 0) : Type 0 where
  pub rover : Rover F Dev
  pub control : ControlPc F
  pub callback : CallbackPc
  pub monitor : MonitorPc F

-- The thread that makes its next access, with what it finds besides the shared data.
pub data Action (F D : Type 0) : Type 0 where
  control_loop : Inputs F → Action F D
  cmd_vel : (now : ℤ) → Twist D → Action F D
  safety_monitor : (now : ℤ) → Action F D
  request : RobotState → Action F D
  set_agent : Bool → Action F D
  set_battery : F → Action F D
  diagnose : Action F D

module _ {F D Dev : Type 0} (fl : Float F) (cv : Convert F D) (drive : MotorDrive F Dev) where
  -- What is sent to which motor, if anything, and the next state.
  unfoldable pub advance : Action F D → System F Dev → Option (MotorId × F) × System F Dev
  advance (control_loop inputs) s =
      let (sent, r, pc) = control_move fl drive inputs s.control s.rover in
      (sent, record s { rover = r; control = pc })
  advance (cmd_vel now twist) s =
      let (r, pc) = callback_move fl cv now twist s.callback s.rover in
      (none, record s { rover = r; callback = pc })
  advance (safety_monitor now) s =
      let (r, pc) = monitor_move fl now s.monitor s.rover in
      (none, record s { rover = r; monitor = pc })
  advance (request n) s =
      let r = s.rover in
      let (rc, state, word) = state_machine_transition r.current_state r.fault_word n in
      (none, record s { rover = record r { current_state = state; fault_word = word } })
  advance (set_agent connected) s =
      let r = s.rover in
      (
        none,
        record s {
          rover = record r { monitor = safety_monitor_set_agent_connected connected r.monitor };
        },
      )
  advance (set_battery voltage) s =
      let r = s.rover in
      (
        none,
        record s {
          rover = record r { monitor = safety_monitor_set_battery_voltage voltage r.monitor };
        },
      )
  advance diagnose s =
      let r = s.rover in
      (
        none,
        record s { rover = record r { diag_flags = diagnostics_update r.fault_word r.diag_flags } },
      )

-- Whatever is sent satisfies a predicate.
abbrev pub IfSends : {F : Type 0} → (F → Type 0) → Option (MotorId × F) → Type 0
IfSends P none = Unit {0}
IfSends P (some (i, v)) = P v

-- Every action of a list is allowed.
abbrev pub Each : {F D : Type 0} → (Action F D → Type 0) → List (Action F D) → Type 0
Each Q [] = Unit {0}
Each Q (a ∷ es) = Q a × Each Q es

-- No request to reset the state machine, which would clear the faults.
abbrev pub NoReset : {F D : Type 0} → Action F D → Type 0
NoReset (request boot) = ⊥
NoReset a = Unit {0}

module _ {F D Dev : Type 0} (fl : Float F) (cv : Convert F D) (drive : MotorDrive F Dev) where
  -- The system after actions.
  unfoldable pub after : System F Dev → List (Action F D) → System F Dev
  after s [] = s
  after s (a ∷ es) = after (advance fl cv drive a s).1 es

  -- Throughout a run, everything that is sent satisfies a predicate.
  unfoldable pub AllSends : (F → Type 0) → System F Dev → List (Action F D) → Type 0
  AllSends P s [] = Unit {0}
  AllSends P s (a ∷ es) =
      IfSends P (advance fl cv drive a s).0 × AllSends P (advance fl cv drive a s).1 es

  -- An invariant under which every allowed action sends what satisfies the predicate.
  pub AllSends-of_invariant :
      (P : F → Type 0) (I : System F Dev → Type 0) (Allowed : Action F D → Type 0)
      → ((a : Action F D) (s : System F Dev)
          → Allowed a
          → I s
          → IfSends P (advance fl cv drive a s).0 × I (advance fl cv drive a s).1)
      → (s : System F Dev) (es : List (Action F D)) → I s
      → Each Allowed es
      → AllSends P s es
  unfolding AllSends
  AllSends-of_invariant P I Allowed keep s [] i e = tt
  AllSends-of_invariant P I Allowed keep s (a ∷ es) i (h, e) =
      let (sends, i') = keep a s h i in
      (sends, AllSends-of_invariant P I Allowed keep (advance fl cv drive a s).1 es i' e)
