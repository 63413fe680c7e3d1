-- ===== src/Rover/Interleaved/DeadlineTests.antt =====
-- Runs of a concrete robot past the timeout of its command.
use micro_ros_controller_fir.Prelude.{ℕ, ◌≤◌, true, false, refl, List, [], ◌∷◌, arith}
use micro_ros_controller_fir.Prelude.Int.{pos, ◌-ℤ◌}
use micro_ros_controller_fir.Rover.Interleaved.Control.{Inputs, resting, control_move}
use micro_ros_controller_fir.Rover.Interleaved.Callback.{waiting, callback_move}
use micro_ros_controller_fir.Rover.Interleaved.Monitor.{asleep, monitor_move}
use micro_ros_controller_fir.Rover.Interleaved.System.{
  System, Action, control_loop, cmd_vel, safety_monitor, set_agent, advance, after,
}
use micro_ros_controller_fir.Rover.Deadline.{Clock}
use micro_ros_controller_fir.Rover.Interleaved.Budget.{turns}
use micro_ros_controller_fir.Rover.Interleaved.Timeline.{clock_after, AreInOrder, StaysExpired}
use micro_ros_controller_fir.Rover.Interleaved.Deadline.{timeout_delay}
use micro_ros_controller_fir.Instances.FixedPoint.{Fixed, fixed, fixed_conversions, literal}
use micro_ros_controller_fir.Instances.FixedPointLaws.{fixed-KeepsZero}
use micro_ros_controller_fir.Instances.Robot.{all_four, no_feedback, counting_drive, driving, ahead}

abbrev inputs : Inputs Fixed
inputs = record {
  now_zero = pos 2000;
  now = pos 2001;
  stack_wheels = all_four (literal 0 0);
  stack_feedback = all_four no_feedback;
}

-- Before any command.
abbrev unheard : System Fixed ℕ
unheard = record {
  rover = record driving { cmd_target = record driving.cmd_target { valid = false } };
  control = resting;
  callback = waiting;
  monitor = asleep;
}

abbrev start : Clock
start = record { commanded = pos 1000; evaluated = pos 1000 }

-- A command at 1100 ms, which the control loop reads, and a decision at 1700 ms.
abbrev silent_since : List (Action Fixed Fixed)
silent_since =
    cmd_vel (pos 1100) ahead
    ∷ control_loop inputs
    ∷ safety_monitor (pos 1699)
    ∷ cmd_vel (pos 0) ahead
    ∷ set_agent true
    ∷ safety_monitor (pos 1700)
    ∷ []

-- The decision is made, and the control loop goes on.
abbrev later_on : List (Action Fixed Fixed)
later_on =
    control_loop inputs ∷ safety_monitor (pos 1701) ∷ control_loop inputs ∷ control_loop inputs ∷ []

in_order : AreInOrder fixed fixed_conversions counting_drive start unheard silent_since
unfolding AreInOrder advance callback_move monitor_move
in_order = ((omega arith, omega arith), (tt, (tt, (tt, (tt, (tt, tt))))))

abbrev unwatched : Clock
unwatched = clock_after fixed fixed_conversions counting_drive start unheard silent_since

more_in_order :
    AreInOrder fixed fixed_conversions counting_drive unwatched
      (after fixed fixed_conversions counting_drive unheard silent_since)
      later_on
unfolding AreInOrder
more_in_order = (tt, (tt, (tt, (tt, tt))))

still_expired :
    StaysExpired fixed fixed_conversions counting_drive unwatched
      (after fixed fixed_conversions counting_drive unheard silent_since)
      later_on
unfolding StaysExpired clock_after after advance callback_move monitor_move control_move ◌-ℤ◌
still_expired = (omega arith, (omega arith, (omega arith, (omega arith, tt))))

timeout_delay_example :
    turns fixed fixed_conversions counting_drive
      (after fixed fixed_conversions counting_drive unheard silent_since)
      later_on
    ≤ 4
timeout_delay_example =
    timeout_delay fixed fixed_conversions counting_drive fixed-KeepsZero unheard (pos 1000)
      silent_since later_on refl refl in_order more_in_order still_expired
