-- ===== src/App/ControlLoop/Motion.antt =====
-- When the control loop moves the robot.
use micro_ros_controller_fir.Prelude.{
  ◌≡◌, refl, ap, ◌∙◌, inl, inr, Bool, true, false, ◌&&◌, Option, none, some, arith, if◌then◌else◌,
  Bool-cases,
}
use micro_ros_controller_fir.Prelude.Int.{ℤ}
use micro_ros_controller_fir.Common.Real.{Float, IsZero, KeepsZero, IsOrdered}
use micro_ros_controller_fir.Common.Clamp.{Within}
use micro_ros_controller_fir.Common.Types.{
  success, written, Motors, AllMotors, RobotCommand, MotorFeedback,
}
use micro_ros_controller_fir.Common.Params.{zero_f, max_wheel_velocity_rad_s}
use micro_ros_controller_fir.Safety.Monitor.{
  safety_monitor_motion_permitted, safety_monitor_set_motor_feedback,
}
use micro_ros_controller_fir.App.Command.{robot_command_zero}
use micro_ros_controller_fir.App.Kinematics.{kinematics_compute_wheel_velocities}
use micro_ros_controller_fir.App.Kinematics.Bounds.{wheels-Within}
use micro_ros_controller_fir.App.Kinematics.Zero.{wheels-IsZero}
use micro_ros_controller_fir.App.StateMachine.{state_machine_motion_allowed}
use micro_ros_controller_fir.Rover.State.{Rover}
use micro_ros_controller_fir.App.ControlLoop.{
  MotorDrive, select_command, exchange, control_loop_run_once,
}

-- The robot may move: the state machine is ACTIVE and no fault inhibits motion.
abbrev pub may_move : {F Dev : Type 0} → Rover F Dev → Bool
may_move r =
    state_machine_motion_allowed r.current_state && safety_monitor_motion_permitted r.fault_word

-- Wheel velocities were handed to the drive, and they all satisfy a predicate.
abbrev pub Sent : {F : Type 0} → (F → Type 0) → Option (Motors F) → Type 0
Sent {F} P sent = (w : Motors F) × (sent ≡ some w) × AllMotors P w

module _ {F Dev : Type 0} (fl : Float F) (drive : MotorDrive F Dev) where
  pub select_halted :
      (now : ℤ) (r : Rover F Dev)
      → may_move r ≡ false
      → select_command fl now r ≡ (
        record r.cmd_target { linear_x = zero_f fl; angular_z = zero_f fl },
        record r { cmd_target = robot_command_zero fl now },
      )
  unfolding select_command
  select_halted now r h = ground arith

  pub select_moving :
      (now : ℤ) (r : Rover F Dev) → may_move r ≡ true → select_command fl now r ≡ (r.cmd_target, r)
  unfolding select_command
  select_moving now r h = ground arith

  select-motor_dev :
      (now : ℤ) (r : Rover F Dev) → (select_command fl now r).1.motor_dev ≡ r.motor_dev
  unfolding select_command
  select-motor_dev now r = ground arith

  computed :
      (cmd : RobotCommand F) (out : Motors F)
      → (w : Motors F) × (kinematics_compute_wheel_velocities fl (some cmd) (some out)
          ≡ (success, some w))
  unfolding kinematics_compute_wheel_velocities
  computed cmd out = (_, refl)

  exchange_sent :
      (o : Option Dev) (dev : Dev) (w : Motors F) (f : Motors (MotorFeedback F)) (r : Rover F Dev)
      → o ≡ some dev
      → ((exchange fl drive o w f r).0 ≡ some w)
        × ((exchange fl drive o w f r).2.cmd_target ≡ r.cmd_target)
  unfolding exchange
  exchange_sent none dev w f r e = cc
  exchange_sent (some d) dev w f r e = (refl, refl)

  module _ (now_zero now : ℤ) (stack_wheels : Motors F) (stack_feedback : Motors (MotorFeedback F))
      (r : Rover F Dev) (dev : Dev) (present : r.motor_dev ≡ some dev) where
    -- What is sent are the wheel velocities of the command that was selected.
    run_once_sent :
        let (sent, r') =
          control_loop_run_once fl drive now_zero now stack_wheels stack_feedback r in
        let (cmd, r₁) = select_command fl now_zero r in
        (sent
          ≡ some (
              written stack_wheels
                (kinematics_compute_wheel_velocities fl (some cmd) (some stack_wheels))))
        × (r'.cmd_target ≡ r₁.cmd_target)
    unfolding control_loop_run_once
    run_once_sent =
        let (cmd, r₁) = select_command fl now_zero r in
        exchange_sent r₁.motor_dev dev _ stack_feedback r₁ (select-motor_dev now_zero r ∙ present)

    -- With the laws of IEEE 754 for zeros: where there is a motor drive, unless the state machine
    -- is ACTIVE and no motion-inhibiting fault is set, a turn of the control loop sends zero to all
    -- four motors, and zeroes and invalidates the command target.
    pub halts :
        KeepsZero fl
        → may_move r ≡ false
        → let (sent, r') =
            control_loop_run_once fl drive now_zero now stack_wheels stack_feedback r in
          Sent (IsZero fl) sent × (r'.cmd_target ≡ robot_command_zero fl now_zero)
    halts ieee h =
        let (sent, target) = run_once_sent in
        let (w, e, z) =
          wheels-IsZero fl ieee
            (record r.cmd_target { linear_x = zero_f fl; angular_z = zero_f fl }) stack_wheels
            ieee.zero_zero ieee.zero_zero in
        (
          (w, sent ∙ rw (ap (λ p. p.0) (select_halted now_zero r h)) (rw e), z),
          target ∙ ap (λ p. p.1.cmd_target) (select_halted now_zero r h),
        )

    -- Where there is a motor drive, if the state machine is ACTIVE and no motion-inhibiting fault
    -- is set, a turn of the control loop sends the wheel velocities of the command target and
    -- leaves the target as it is.
    pub moves :
        may_move r ≡ true
        → let (sent, r') =
            control_loop_run_once fl drive now_zero now stack_wheels stack_feedback r in
          (sent
            ≡ (kinematics_compute_wheel_velocities fl (some r.cmd_target) (some stack_wheels)).1)
          × (r'.cmd_target ≡ r.cmd_target)
    moves h =
        let (sent, target) = run_once_sent in
        let e = select_moving now_zero r h in
        let (w, k) = computed r.cmd_target stack_wheels in
        (sent ∙ rw (ap (λ p. p.0) e) (rw k), target ∙ ap (λ p. p.1.cmd_target) e)

    -- In every state, each velocity that is sent lies within the maximal wheel velocity.
    pub Sent-Within :
        IsOrdered fl
        → Sent
            (Within fl (max_wheel_velocity_rad_s fl))
            (control_loop_run_once fl drive now_zero now stack_wheels stack_feedback r).0
    Sent-Within ieee =
        let (w, e, within, left, right) =
          wheels-Within fl ieee (select_command fl now_zero r).0 stack_wheels in
        (w, run_once_sent.0 ∙ rw e, within)

  -- Without a drive nothing is sent.
  pub nothing_sent :
      (now_zero now : ℤ) (stack_wheels : Motors F) (stack_feedback : Motors (MotorFeedback F))
      (r : Rover F Dev)
      → r.motor_dev ≡ none
      → (control_loop_run_once fl drive now_zero now stack_wheels stack_feedback r).0 ≡ none
  unfolding control_loop_run_once
  nothing_sent now_zero now sw sf r h = exchange_none _ _ sf _ (select-motor_dev now_zero r ∙ h)
    where
      exchange_none :
          (o : Option Dev) (w : Motors F) (f : Motors (MotorFeedback F)) (r : Rover F Dev)
          → o ≡ none
          → (exchange fl drive o w f r).0 ≡ none
      exchange_none none w f r e = refl
      exchange_none (some d) w f r e = cc

  exchange_frame :
      (o : Option Dev) (w : Motors F) (f : Motors (MotorFeedback F)) (r : Rover F Dev)
      → let r' = (exchange fl drive o w f r).2 in
        (r'.current_state ≡ r.current_state)
        × (r'.fault_word ≡ r.fault_word)
        × (r'.monitor.agent_connected ≡ r.monitor.agent_connected)
        × (r'.monitor.battery_voltage_v ≡ r.monitor.battery_voltage_v)
        × (r'.cmd_target ≡ r.cmd_target)
  unfolding exchange safety_monitor_set_motor_feedback
  exchange_frame none w f r = (refl, refl, refl, refl, refl)
  exchange_frame (some dev) w f r = (refl, refl, refl, refl, refl)

  -- A turn changes neither the lifecycle state nor the fault word nor what the safety monitor knows of
  -- the agent and the battery, and it zeroes the target unless the robot may move.
  pub run_once-frame :
      (now_zero now : ℤ) (stack_wheels : Motors F) (stack_feedback : Motors (MotorFeedback F))
      (r : Rover F Dev)
      → let r' = (control_loop_run_once fl drive now_zero now stack_wheels stack_feedback r).1 in
        (r'.current_state ≡ r.current_state)
        × (r'.fault_word ≡ r.fault_word)
        × (r'.monitor.agent_connected ≡ r.monitor.agent_connected)
        × (r'.monitor.battery_voltage_v ≡ r.monitor.battery_voltage_v)
        × (r'.cmd_target ≡ (if may_move r then r.cmd_target else robot_command_zero fl now_zero))
  unfolding control_loop_run_once
  run_once-frame now_zero now sw sf r = elim (Bool-cases (may_move r)) [
    | inl go ↦ grind (arith, exchange_frame, select_moving now_zero r go)
    | inr halt ↦ grind (arith, exchange_frame, select_halted now_zero r halt)
  ]
