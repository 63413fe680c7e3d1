-- ===== src/App/ControlLoop/Tests.antt =====
-- Turns of the control loop of a concrete robot.
use micro_ros_controller_fir.Prelude.{◌≡◌, refl, true, false, some}
use micro_ros_controller_fir.Prelude.Int.{pos}
use micro_ros_controller_fir.Common.Real.{IsZero}
use micro_ros_controller_fir.Common.Types.{Motors, MotorFeedback}
use micro_ros_controller_fir.Safety.Watchdog.{subsystem_control, watchdog_check_in}
use micro_ros_controller_fir.App.Command.{robot_command_zero}
use micro_ros_controller_fir.App.StateMachine.{state_machine_get, state_machine_motion_allowed}
use micro_ros_controller_fir.App.ControlLoop.{control_loop_run_once}
use micro_ros_controller_fir.App.ControlLoop.Motion.{may_move, Sent, halts}
use micro_ros_controller_fir.App.ControlLoop.Wheels.{positions_after, run_once-records, mute_drive}
use micro_ros_controller_fir.Instances.FixedPoint.{Fixed, fixed, literal}
use micro_ros_controller_fir.Instances.FixedPointLaws.{fixed-KeepsZero}
use micro_ros_controller_fir.Instances.Robot.{
  all_four, no_feedback, counting_drive, mute_counting_drive, driving, stopped,
}

abbrev no_wheels : Motors Fixed
no_wheels = all_four (literal 9 0)

stopped_stays : may_move stopped ≡ false
unfolding state_machine_motion_allowed state_machine_get
stopped_stays = refl

halts_example :
    let (sent, r') =
      control_loop_run_once fixed counting_drive
        (pos 7)
        (pos 8)
        no_wheels
        (all_four no_feedback)
        stopped in
    Sent (IsZero fixed) sent × (r'.cmd_target ≡ robot_command_zero fixed (pos 7))
halts_example =
    halts fixed counting_drive (pos 7) (pos 8) no_wheels (all_four no_feedback) stopped 0 refl
      fixed-KeepsZero stopped_stays

run_once-records_example :
    let (sent, r') =
      control_loop_run_once fixed counting_drive
        (pos 7)
        (pos 8)
        no_wheels
        (all_four no_feedback)
        driving in
    let feedback = r'.monitor.motor_feedback_cache in
    let old = driving.latest_wheel_state.position_rad in
    (sent ≡ some r'.latest_wheel_state.velocity_rad_s)
    × (r'.latest_wheel_state.position_rad ≡ positions_after feedback old)
    × (r'.latest_wheel_state.timestamp_ms ≡ pos 8)
    × (r'.latest_wheel_state.valid ≡ true)
    × (r'.odom_state.timestamp_ms ≡ pos 8)
    × (r'.checkins ≡ watchdog_check_in driving.checkins subsystem_control)
run_once-records_example =
    run_once-records fixed counting_drive (pos 7) (pos 8) no_wheels (all_four no_feedback) driving 0
      refl

-- The first element on the stack happens to be marked valid.
abbrev left_over : Motors (MotorFeedback Fixed)
left_over = record (all_four no_feedback) {
  front_left = record no_feedback { position_rad = literal 7 0; valid = true };
}

mute_drive_example :
    let r' =
      (control_loop_run_once fixed mute_counting_drive
        (pos 7)
        (pos 8)
        no_wheels
        left_over
        driving).1 in
    (r'.monitor.motor_feedback_cache ≡ left_over)
    × (r'.latest_wheel_state.position_rad
        ≡ positions_after left_over driving.latest_wheel_state.position_rad)
mute_drive_example =
    mute_drive fixed mute_counting_drive (λ d i f. refl) (pos 7) (pos 8) no_wheels left_over driving
      0 refl
