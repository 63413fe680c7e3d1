-- ===== src/Rover/Interleaved/SerialTests.antt =====
-- Uninterrupted and interrupted runs of a concrete robot.
use micro_ros_controller_fir.Prelude.{ℕ, ◌≡◌, refl, true, List, [], ◌∷◌}
use micro_ros_controller_fir.Prelude.Int.{pos}
use micro_ros_controller_fir.Safety.Fault.{fault_motion_inhibited}
use micro_ros_controller_fir.Safety.Monitor.{safety_monitor_motion_permitted}
use micro_ros_controller_fir.App.StateMachine.{idle, active}
use micro_ros_controller_fir.Rover.Interleaved.Control.{Inputs}
use micro_ros_controller_fir.Common.Clamp.{clamp}
use micro_ros_controller_fir.Common.Params.{max_angular_velocity_rad_s}
use micro_ros_controller_fir.Rover.Interleaved.Origin.{All, Computed, sent-Computed}
use micro_ros_controller_fir.Rover.Interleaved.System.{Action, control_loop, cmd_vel, after}
use micro_ros_controller_fir.App.Command.{robot_command_zero}
use micro_ros_controller_fir.Rover.Interleaved.Race.{turn, overtaken, command_lost}
use micro_ros_controller_fir.Instances.FixedPoint.{Fixed, fixed, fixed_conversions, literal, scale}
use micro_ros_controller_fir.Instances.Robot.{all_four, no_feedback, counting_drive, driving, ahead}
use micro_ros_controller_fir.Rover.State.{Rover}
use micro_ros_controller_fir.Rover.Threads
use micro_ros_controller_fir.Rover.Threads.{Event, final}
use micro_ros_controller_fir.Rover.Interleaved.Leads.{at_rest, sent}

abbrev inputs : Inputs Fixed
inputs = record {
  now_zero = pos 2000;
  now = pos 2001;
  stack_wheels = all_four (literal 0 0);
  stack_feedback = all_four no_feedback;
}

abbrev whole_turn : Event Fixed Fixed
whole_turn = turn inputs

-- Before any command, with the safety monitor content.
abbrev before_command : Rover Fixed ℕ
before_command = record driving { current_state = idle }

permitted_before : safety_monitor_motion_permitted before_command.fault_word ≡ true
unfolding safety_monitor_motion_permitted fault_motion_inhibited
permitted_before = refl

command_lost_example :
    let r' =
      (after fixed fixed_conversions counting_drive
        (at_rest before_command)
        (overtaken fixed fixed_conversions counting_drive inputs (pos 1999) ahead)).rover in
    (r'.current_state ≡ active)
    × (r'.cmd_target ≡ robot_command_zero fixed (pos 2000))
    × ((final fixed fixed_conversions counting_drive before_command
          (Threads.cmd_vel (pos 1999) ahead ∷ whole_turn ∷ [])).cmd_target.valid
        ≡ true)
    × ((final fixed fixed_conversions counting_drive before_command
          (whole_turn ∷ Threads.cmd_vel (pos 1999) ahead ∷ [])).cmd_target.valid
        ≡ true)
command_lost_example =
    command_lost fixed fixed_conversions counting_drive (at_rest before_command) inputs (pos 1999)
      ahead refl refl refl permitted_before

-- Straight on, at any speed.
abbrev IsStraight : Fixed → Fixed → Type 0
IsStraight l a = a ≡ literal 0 0

abbrev driven : List (Action Fixed Fixed)
driven =
    cmd_vel (pos 1999) ahead
    ∷ control_loop inputs
    ∷ cmd_vel (pos 1999) ahead
    ∷ control_loop inputs
    ∷ control_loop inputs
    ∷ control_loop inputs
    ∷ []

-- Before any command but ACTIVE.
abbrev standing : Rover Fixed ℕ
standing = record driving {
  cmd_target = record driving.cmd_target { linear_x = literal 0 0; angular_z = literal 0 0 };
}

straight_on :
    clamp fixed (max_angular_velocity_rad_s fixed) (fixed_conversions.narrow ahead.angular_z)
    ≡ literal 0 0
unfolding clamp scale
straight_on = refl

sent-Computed_example :
    All
      (Computed fixed IsStraight)
      (sent fixed fixed_conversions counting_drive (at_rest standing) driven)
sent-Computed_example =
    sent-Computed fixed fixed_conversions counting_drive IsStraight refl (at_rest standing) driven
      refl refl (straight_on, (tt, (straight_on, (tt, (tt, (tt, tt))))))
