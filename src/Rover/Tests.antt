-- ===== src/Rover/Tests.antt =====
-- Runs of a concrete robot.
use micro_ros_controller_fir.Prelude.{
  ℕ, ◌+◌, ◌≢◌, ◌≡◌, refl, some, true, false, List, [], ◌∷◌, arith,
}
use micro_ros_controller_fir.Prelude.Int.{pos, ◌≤ℤ◌, ◌-ℤ◌}
use micro_ros_controller_fir.Common.Real.{IsZero, IsNan}
use micro_ros_controller_fir.Common.Types.{Motors, AllMotors}
use micro_ros_controller_fir.Ros.CmdVel.{Twist}
use micro_ros_controller_fir.Common.Params.{
  cmd_timeout_ms, max_linear_velocity_m_s, max_angular_velocity_rad_s,
}
use micro_ros_controller_fir.Common.Time.{time_is_expired_ms}
use micro_ros_controller_fir.Safety.Monitor.{battery_low}
use micro_ros_controller_fir.App.StateMachine.{active, idle}
use micro_ros_controller_fir.Rover.Threads.{
  step, Event, safety, control, cmd_vel, set_agent, IfSent, final,
}
use micro_ros_controller_fir.Common.Clamp.{clamp}
use micro_ros_controller_fir.App.Kinematics.{kinematics_compute_wheel_velocities}
use micro_ros_controller_fir.Rover.Following.{command_followed, followed-IsNan}
use micro_ros_controller_fir.Rover.State.{Rover}
use micro_ros_controller_fir.Rover.Activation.{IsWaiting, never_active}
use micro_ros_controller_fir.Prelude.Bits.{test_bit}
use micro_ros_controller_fir.Safety.Fault.{estop, watchdog}
use micro_ros_controller_fir.Safety.Fault.Flags.{holds}
use micro_ros_controller_fir.Rover.Deadline.{stops_in_time}
use micro_ros_controller_fir.Instances.FixedPoint.{
  Fixed, nan, fixed, fixed_conversions, literal, scale,
}
use micro_ros_controller_fir.Instances.FixedPointLaws.{
  fixed-KeepsZero, fixed-PropagatesNan, nan-IsNan,
}
use micro_ros_controller_fir.Instances.Robot.{all_four, no_feedback, counting_drive, driving, ahead}

abbrev turn : Event Fixed Fixed
turn = control (pos 2000) (pos 2001) (all_four (literal 0 0)) (all_four no_feedback)

-- IDLE with no valid command, as the safety monitor has noticed.
abbrev unattended : Rover Fixed ℕ
unattended = record driving {
  current_state = idle;
  fault_word = 1;
  cmd_target = record driving.cmd_target { valid = false };
}

abbrev overtaken : List (Event Fixed Fixed)
overtaken =
    cmd_vel (pos 1000) ahead
    ∷ turn
    ∷ safety (pos 1010)
    ∷ cmd_vel (pos 1020) ahead
    ∷ set_agent true
    ∷ turn
    ∷ safety (pos 1030)
    ∷ cmd_vel (pos 1040) ahead
    ∷ []

unattended-IsWaiting : IsWaiting false unattended
unfolding test_bit
unattended-IsWaiting = record {
  not_active = λ e. ground arith;
  noticed = refl;
  no_command = λ h. refl;
}

never_active_example :
    (final fixed fixed_conversions counting_drive unattended overtaken).current_state ≢ active
never_active_example =
    never_active fixed fixed_conversions counting_drive unattended false overtaken
      unattended-IsWaiting tt

fresh_at_1010 : time_is_expired_ms (pos 1010) (pos 1000) cmd_timeout_ms ≡ false
unfolding time_is_expired_ms ◌-ℤ◌
fresh_at_1010 = refl

unattended_battery : battery_low fixed unattended.monitor.battery_voltage_v ≡ false
unfolding battery_low scale
unattended_battery = refl

unattended_flags : (holds 1 estop ≡ false) × (holds 1 watchdog ≡ false)
unfolding test_bit
unattended_flags = (refl, refl)

command_followed_example :
    let r' =
      final fixed fixed_conversions counting_drive unattended
        (cmd_vel (pos 1000) ahead ∷ safety (pos 1010) ∷ cmd_vel (pos 1015) ahead ∷ []) in
    (step fixed fixed_conversions counting_drive turn r').0
    ≡ (kinematics_compute_wheel_velocities fixed
        (some (record {
          linear_x = clamp fixed (max_linear_velocity_m_s fixed) (literal 1 0);
          angular_z = clamp fixed (max_angular_velocity_rad_s fixed) (literal 0 0);
          timestamp_ms = pos 1015;
          valid = true;
        }))
        (some (all_four (literal 0 0)))).1
command_followed_example =
    command_followed fixed fixed_conversions counting_drive unattended (pos 1000) (pos 1010)
      (pos 1015) (pos 2000) (pos 2001) ahead ahead (all_four (literal 0 0)) (all_four no_feedback) 0
      refl refl refl unattended_battery unattended_flags.0 unattended_flags.1 fresh_at_1010

abbrev undefined_speed : Twist Fixed
undefined_speed = record ahead { linear_x = nan }

followed-IsNan_example :
    let r' =
      final fixed fixed_conversions counting_drive unattended
        (cmd_vel (pos 1000) ahead ∷ safety (pos 1010) ∷ cmd_vel (pos 1015) undefined_speed ∷ []) in
    (w : Motors Fixed) × ((step fixed fixed_conversions counting_drive turn r').0 ≡ some w)
    × AllMotors (IsNan fixed) w
followed-IsNan_example =
    followed-IsNan fixed fixed_conversions counting_drive fixed-PropagatesNan unattended (pos 1000)
      (pos 1010) (pos 1015) (pos 2000) (pos 2001) ahead undefined_speed (all_four (literal 0 0))
      (all_four no_feedback) 0 refl refl refl unattended_battery unattended_flags.0
      unattended_flags.1 fresh_at_1010 nan-IsNan

-- A command at 1000 ms, the last evaluation at 1510 ms, and a turn of the control loop at 1525 ms.
abbrev unwatched : List (Event Fixed Fixed)
unwatched = safety (pos 990) ∷ set_agent true ∷ turn ∷ safety (pos 1510) ∷ []

abbrev late_turn : Event Fixed Fixed
late_turn = control (pos 1525) (pos 1526) (all_four (literal 0 0)) (all_four no_feedback)

in_time : (pos 1525 -ℤ pos 1510 ≤ℤ pos 20) × (pos (500 + 20) ≤ℤ pos 1525 -ℤ pos 1000)
unfolding ◌-ℤ◌
in_time = (omega arith, omega arith)

stops_in_time_example :
    IfSent
      (IsZero fixed)
      (step fixed fixed_conversions counting_drive late_turn (
        final fixed fixed_conversions counting_drive driving
          (cmd_vel (pos 1000) ahead ∷ unwatched))).0
stops_in_time_example =
    stops_in_time fixed fixed_conversions counting_drive fixed-KeepsZero driving (pos 1000) ahead
      unwatched 20 (pos 1525) (pos 1526) (all_four (literal 0 0)) (all_four no_feedback)
      (tt, (tt, (tt, (tt, tt)))) in_time.0 in_time.1
