-- ===== src/Rover/Interleaved/Tests.antt =====
-- Interleaved runs of a concrete robot.
use micro_ros_controller_fir.Prelude.{
  arith, ℕ, ◌≡◌, ◌≤◌, refl, inl, true, false, List, [], ◌∷◌, zero, suc,
}
use micro_ros_controller_fir.Prelude.Int.{pos}
use micro_ros_controller_fir.Prelude.Bits.{test_bit}
use micro_ros_controller_fir.Common.Clamp.{Within}
use micro_ros_controller_fir.Common.Params.{max_wheel_velocity_rad_s}
use micro_ros_controller_fir.Safety.Fault.{agent_lost}
use micro_ros_controller_fir.Safety.Fault.Flags.{holds}
use micro_ros_controller_fir.App.StateMachine.{idle}
use micro_ros_controller_fir.Rover.Interleaved.Control.{Inputs, allowed, sending, rear_left}
use micro_ros_controller_fir.Rover.Interleaved.Callback.{stored}
use micro_ros_controller_fir.Rover.Interleaved.Monitor.{timeout_decided, has_inputs}
use micro_ros_controller_fir.Rover.Interleaved.System.{
  System, Action, control_loop, cmd_vel, safety_monitor, request, set_agent, AllSends, Each, after,
}
use micro_ros_controller_fir.Rover.Interleaved.Budget.{turns}
use micro_ros_controller_fir.Rover.Interleaved.Delay.{stop_delay}
use micro_ros_controller_fir.Rover.Interleaved.Notice.{loss_delay}
use micro_ros_controller_fir.Rover.Interleaved.Agent.{AgentSilent}
use micro_ros_controller_fir.Rover.Interleaved.Limits.{interleaved-Within}
use micro_ros_controller_fir.Instances.FixedPoint.{Fixed, fixed, fixed_conversions, literal}
use micro_ros_controller_fir.Instances.FixedPointLaws.{fixed-KeepsZero, fixed-IsOrdered}
use micro_ros_controller_fir.Instances.Robot.{
  all_four, no_feedback, counting_drive, driving, stopped, gentle, ahead,
}
use micro_ros_controller_fir.Instances.Robot

abbrev inputs : Inputs Fixed
inputs = record {
  now_zero = pos 2000;
  now = pos 2001;
  stack_wheels = all_four (literal 0 0);
  stack_feedback = all_four no_feedback;
}

-- The stop arrives when two motors have been told to turn, and the callback has stored its command.
abbrev caught_sending : System Fixed ℕ
caught_sending = record {
  rover = stopped;
  control = sending rear_left (all_four (literal 1 0));
  callback = stored;
  monitor = timeout_decided;
}

abbrev mixed : List (Action Fixed Fixed)
mixed =
    control_loop inputs
    ∷ cmd_vel (pos 1900) ahead
    ∷ control_loop inputs
    ∷ safety_monitor (pos 1950)
    ∷ request idle
    ∷ set_agent false
    ∷ control_loop inputs
    ∷ []

stop_delay_example : turns fixed fixed_conversions counting_drive caught_sending mixed ≤ 4
stop_delay_example =
    stop_delay fixed fixed_conversions counting_drive fixed-KeepsZero caught_sending mixed
      (inl refl) (tt, (tt, (tt, (tt, (tt, (tt, (tt, tt)))))))

-- The control loop has passed its test of the state when the loss is noticed.
abbrev lost : System Fixed ℕ
lost = record {
  rover = record Robot.alone { fault_word = 2 };
  control = allowed gentle;
  callback = stored;
  monitor = timeout_decided;
}

lost_noticed : holds 2 agent_lost ≡ true
unfolding test_bit
lost_noticed = refl

interleaved-Within_example :
    AllSends fixed fixed_conversions counting_drive
      (Within fixed (max_wheel_velocity_rad_s fixed))
      lost
      mixed
interleaved-Within_example =
    interleaved-Within fixed fixed_conversions counting_drive fixed-IsOrdered lost mixed tt

-- The safety monitor has read that the agent is connected when it is lost.
abbrev just_lost : System Fixed ℕ
just_lost = record lost { rover = Robot.alone; monitor = has_inputs true (literal 12 0) }

abbrev watching : ℕ → List (Action Fixed Fixed)
watching zero = []
watching (suc n) = safety_monitor (pos 1950) ∷ control_loop inputs ∷ watching n

silent : (n : ℕ) → Each AgentSilent (watching n)
silent zero = tt
silent (suc n) = (tt, (tt, silent n))

loss_delay_example :
    turns fixed fixed_conversions counting_drive
      (after fixed fixed_conversions counting_drive just_lost (watching 8))
      (watching 20)
    ≤ 4
loss_delay_example =
    loss_delay fixed fixed_conversions counting_drive fixed-KeepsZero just_lost (watching 8)
      (watching 20) refl (silent 8) (omega arith) (silent 20)
