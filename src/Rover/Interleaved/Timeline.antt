-- ===== src/Rover/Interleaved/Timeline.antt =====
-- The times of the stored velocity commands and of the decisions about the timeout in a run that is
-- interrupted anywhere.
use micro_ros_controller_fir.Prelude.{List, [], ◌∷◌}
use micro_ros_controller_fir.Prelude.Int.{ℤ, ◌≤ℤ◌, ◌-ℤ◌}
use micro_ros_controller_fir.Common.Real.{Float, Convert}
use micro_ros_controller_fir.Common.Params.{cmd_timeout_ms}
use micro_ros_controller_fir.App.ControlLoop.{MotorDrive}
use micro_ros_controller_fir.Rover.Deadline.{Clock}
use micro_ros_controller_fir.Rover.Interleaved.Callback.{CallbackPc, waiting}
use micro_ros_controller_fir.Rover.Interleaved.Monitor.{MonitorPc, has_command}
use micro_ros_controller_fir.Rover.Interleaved.System.{
  System, Action, cmd_vel, safety_monitor, advance, NoReset,
}

-- A velocity command is stored by the first access of its callback, and the safety monitor decides
-- about the timeout by the access that writes the fault.
abbrev pub stores : CallbackPc → ℤ → Clock → Clock
stores waiting now c = record c { commanded = now }
stores pc now c = c

abbrev pub decides : {F : Type 0} → MonitorPc F → ℤ → Clock → Clock
decides (has_command cmd) now c = record c { evaluated = now }
decides pc now c = c

abbrev pub tick : {F D Dev : Type 0} → Action F D → System F Dev → Clock → Clock
tick (cmd_vel now twist) s c = stores s.callback now c
tick (safety_monitor now) s c = decides s.monitor now c
tick a s c = c

-- A command is stored at no earlier time than the latest command and the latest decision.
abbrev pub IsLater : CallbackPc → ℤ → Clock → Type 0
IsLater waiting now c = (c.evaluated ≤ℤ now) × (c.commanded ≤ℤ now)
IsLater pc now c = Unit {0}

-- No reset, and no command that is stored earlier.
abbrev pub InOrder : {F D Dev : Type 0} → Action F D → System F Dev → Clock → Type 0
InOrder (cmd_vel now twist) s c = IsLater s.callback now c
InOrder a s c = NoReset a

module _ {F D Dev : Type 0} (fl : Float F) (cv : Convert F D) (drive : MotorDrive F Dev) where
  unfoldable pub clock_after : Clock → System F Dev → List (Action F D) → Clock
  clock_after c s [] = c
  clock_after c s (a ∷ es) = clock_after (tick a s c) (advance fl cv drive a s).1 es

  unfoldable pub AreInOrder : Clock → System F Dev → List (Action F D) → Type 0
  AreInOrder c s [] = Unit {0}
  AreInOrder c s (a ∷ es) = InOrder a s c × AreInOrder (tick a s c) (advance fl cv drive a s).1 es

  -- Before each action the latest decision comes at least the timeout after the latest command.
  unfoldable pub StaysExpired : Clock → System F Dev → List (Action F D) → Type 0
  StaysExpired c s [] = Unit {0}
  StaysExpired c s (a ∷ es) =
      (cmd_timeout_ms ≤ℤ c.evaluated -ℤ c.commanded)
      × StaysExpired (tick a s c) (advance fl cv drive a s).1 es
