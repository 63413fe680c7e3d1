-- ===== src/App/ControlLoop/Wheels.antt =====
-- What a turn of the control loop records.
use micro_ros_controller_fir.Prelude.{
  ℕ, ◌≡◌, ap, ◌∙◌, true, Option, none, some, if◌then◌else◌, arith,
}
use micro_ros_controller_fir.Prelude.Int.{ℤ}
use micro_ros_controller_fir.Common.Real.{Float}
use micro_ros_controller_fir.Common.Types.{Motors, MotorFeedback}
use micro_ros_controller_fir.Safety.Watchdog.{subsystem_control, watchdog_check_in}
use micro_ros_controller_fir.Safety.Monitor.{safety_monitor_set_motor_feedback}
use micro_ros_controller_fir.App.Odometry.{odometry_update}
use micro_ros_controller_fir.Rover.State.{Rover}
use micro_ros_controller_fir.App.ControlLoop.{
  MotorDrive, select_command, read_feedback, exchange, control_loop_run_once,
}

-- A wheel position is updated from feedback that is marked valid, and kept otherwise.
abbrev pub position_after : {F : Type 0} → MotorFeedback F → F → F
position_after feedback old = if feedback.valid then feedback.position_rad else old

abbrev pub positions_after : {F : Type 0} → Motors (MotorFeedback F) → Motors F → Motors F
positions_after feedback old = record {
  front_left = position_after feedback.front_left old.front_left;
  front_right = position_after feedback.front_right old.front_right;
  rear_left = position_after feedback.rear_left old.rear_left;
  rear_right = position_after feedback.rear_right old.rear_right;
}

module _ {F Dev : Type 0} (fl : Float F) (drive : MotorDrive F Dev) where
  select_keeps :
      (now : ℤ) (r : Rover F Dev)
      → ((select_command fl now r).1.motor_dev ≡ r.motor_dev)
        × ((select_command fl now r).1.latest_wheel_state ≡ r.latest_wheel_state)
        × ((select_command fl now r).1.checkins ≡ r.checkins)
        × ((select_command fl now r).1.odom_state ≡ r.odom_state)
        × ((select_command fl now r).1.monitor ≡ r.monitor)
  unfolding select_command
  select_keeps now r = ground arith

  -- Where there is a motor drive, a turn of the control loop leaves a valid wheel state with the
  -- time of the turn, whose velocities are those that were sent, and not measured ones, and whose
  -- positions follow the feedback that is marked valid in what the safety monitor has been given;
  -- the odometry takes the same time, and the control loop checks in with the watchdog.
  pub run_once-records :
      (now_zero now : ℤ) (stack_wheels : Motors F) (stack_feedback : Motors (MotorFeedback F))
      (r : Rover F Dev) (dev : Dev)
      → r.motor_dev ≡ some dev
      → let (sent, r') =
          control_loop_run_once fl drive now_zero now stack_wheels stack_feedback r in
        let feedback = r'.monitor.motor_feedback_cache in
        let old = r.latest_wheel_state.position_rad in
        (sent ≡ some r'.latest_wheel_state.velocity_rad_s)
        × (r'.latest_wheel_state.position_rad ≡ positions_after feedback old)
        × (r'.latest_wheel_state.timestamp_ms ≡ now)
        × (r'.latest_wheel_state.valid ≡ true)
        × (r'.odom_state.timestamp_ms ≡ now)
        × (r'.checkins ≡ watchdog_check_in r.checkins subsystem_control)
  unfolding control_loop_run_once odometry_update safety_monitor_set_motor_feedback read_feedback
  run_once-records now_zero now sw sf r dev h = ground (arith, select_keeps now_zero r)

  -- A drive whose feedback call fails and writes nothing.
  abbrev pub IsMute : Type 0
  IsMute = (d : Dev) (i : ℕ) (f : MotorFeedback F) → (drive.get_feedback d i f).1 ≡ f

  read_feedback-mute :
      IsMute
      → (dev : Dev) (old : Motors (MotorFeedback F)) → (read_feedback fl drive dev old).1 ≡ old
  unfolding read_feedback
  read_feedback-mute mute dev old = simp mute

  mute_cache :
      IsMute
      → (now_zero now : ℤ) (stack_wheels : Motors F) (stack_feedback : Motors (MotorFeedback F))
        (r : Rover F Dev) (dev : Dev)
      → r.motor_dev ≡ some dev
      → (control_loop_run_once fl drive now_zero now stack_wheels stack_feedback
          r).1.monitor.motor_feedback_cache
        ≡ stack_feedback
  unfolding control_loop_run_once safety_monitor_set_motor_feedback
  mute_cache mute now_zero now sw sf r dev h =
      exchange_mute _ dev _ sf _ ((select_keeps now_zero r).0 ∙ h)
    where
      exchange_mute :
          (o : Option Dev) (dev : Dev) (w : Motors F) (f : Motors (MotorFeedback F))
          (r : Rover F Dev)
          → o ≡ some dev
          → (exchange fl drive o w f r).2.monitor.motor_feedback_cache ≡ f
      exchange_mute none dev w f r e = cc
      exchange_mute (some d) dev w f r e = read_feedback-mute mute _ f

  -- If there is a motor drive and it writes no feedback, a turn hands the safety monitor what
  -- happened to lie in the array on the stack, and where an element there happens to be marked valid,
  -- the position that lies there becomes that of the wheel.
  pub mute_drive :
      IsMute
      → (now_zero now : ℤ) (stack_wheels : Motors F) (stack_feedback : Motors (MotorFeedback F))
        (r : Rover F Dev) (dev : Dev)
      → r.motor_dev ≡ some dev
      → let r' = (control_loop_run_once fl drive now_zero now stack_wheels stack_feedback r).1 in
        (r'.monitor.motor_feedback_cache ≡ stack_feedback)
        × (r'.latest_wheel_state.position_rad
            ≡ positions_after stack_feedback r.latest_wheel_state.position_rad)
  mute_drive mute now_zero now sw sf r dev h =
      let cache = mute_cache mute now_zero now sw sf r dev h in
      let recorded = run_once-records now_zero now sw sf r dev h in
      let old = r.latest_wheel_state.position_rad in
      (cache, recorded.1 ∙ ap (λ f. positions_after f old) cache)
