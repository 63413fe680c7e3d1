-- ===== src/Rover/Interleaved/WatchdogTests.antt =====
-- Runs of a concrete robot, for the watchdog.
use micro_ros_controller_fir.Prelude.{ℕ, suc, zero, ◌≡◌, refl, false, List, [], ◌∷◌, ◌++◌}
use micro_ros_controller_fir.Prelude.Int.{pos}
use micro_ros_controller_fir.App.StateMachine.{estop, boot}
use micro_ros_controller_fir.Rover.Interleaved.Control.{Inputs, resting}
use micro_ros_controller_fir.Rover.Interleaved.Callback.{waiting}
use micro_ros_controller_fir.Rover.Interleaved.Monitor.{asleep}
use micro_ros_controller_fir.Rover.Interleaved.System.{
  System, Action, control_loop, cmd_vel, safety_monitor, request, set_agent,
}
use micro_ros_controller_fir.Rover.Interleaved.Feeding.{feedings, controlled, interleaved_feedings}
use micro_ros_controller_fir.Instances.FixedPoint.{Fixed, fixed, fixed_conversions, literal}
use micro_ros_controller_fir.Instances.Robot.{all_four, no_feedback, counting_drive, driving, ahead}

abbrev inputs : Inputs Fixed
inputs = record {
  now_zero = pos 2000;
  now = pos 2001;
  stack_wheels = all_four (literal 0 0);
  stack_feedback = all_four no_feedback;
}

abbrev resting_robot : System Fixed ℕ
resting_robot = record { rover = driving; control = resting; callback = waiting; monitor = asleep }

-- Both threads make their accesses in turns.
abbrev in_turns : ℕ → List (Action Fixed Fixed)
in_turns zero = []
in_turns (suc n) = safety_monitor (pos 1950) ∷ control_loop inputs ∷ in_turns n

abbrev run : List (Action Fixed Fixed)
run = set_agent false ∷ in_turns 21 ++ cmd_vel (pos 1980) ahead ∷ request estop ∷ request boot ∷ []

interleaved_feedings_example :
    feedings fixed fixed_conversions counting_drive resting_robot run
    ≡ controlled fixed fixed_conversions counting_drive false resting_robot run
interleaved_feedings_example =
    interleaved_feedings fixed fixed_conversions counting_drive resting_robot false run refl
