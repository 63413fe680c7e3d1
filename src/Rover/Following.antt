-- ===== src/Rover/Following.antt =====
-- From a velocity command to the motors.
use micro_ros_controller_fir.Prelude.{◌≡◌, refl, ap, ◌∙◌, true, false, some, [], ◌∷◌}
use micro_ros_controller_fir.Prelude.Int.{ℤ}
use micro_ros_controller_fir.Common.Real.{Float, Convert, IsNan, PropagatesNan}
use micro_ros_controller_fir.Common.Clamp.{clamp, clamp-of_Within, nan-Within}
use micro_ros_controller_fir.Common.Types.{Motors, AllMotors, RobotCommand, MotorFeedback}
use micro_ros_controller_fir.Common.Params.{
  cmd_timeout_ms, max_linear_velocity_m_s, max_angular_velocity_rad_s,
}
use micro_ros_controller_fir.Common.Time.{time_is_expired_ms}
use micro_ros_controller_fir.Safety.Fault.{estop, watchdog}
use micro_ros_controller_fir.Safety.Fault.Flags.{holds}
use micro_ros_controller_fir.Safety.Monitor.{battery_low, safety_monitor_motion_permitted}
use micro_ros_controller_fir.App.Command.{robot_command_set}
use micro_ros_controller_fir.App.Kinematics.{kinematics_compute_wheel_velocities}
use micro_ros_controller_fir.App.Kinematics.Bounds.{wheels-IsNan}
use micro_ros_controller_fir.App.StateMachine.{idle, active, state_machine_motion_allowed}
use micro_ros_controller_fir.App.ControlLoop.{MotorDrive}
use micro_ros_controller_fir.App.ControlLoop.Motion.{may_move, moves}
use micro_ros_controller_fir.Ros.CmdVel.{Twist, command_of, cmd_vel_callback}
use micro_ros_controller_fir.Ros.CmdVel.Activation.{callback-effect}
use micro_ros_controller_fir.Rover.State.{Rover}
use micro_ros_controller_fir.Rover.Threads.{safety, control, cmd_vel, step, final}
use micro_ros_controller_fir.Rover.Frame.{callback-frame}
use micro_ros_controller_fir.Rover.Activation.{fresh_command, turn_permits, two_commands_activate}

module _ {F D Dev : Type 0} (fl : Float F) (cv : Convert F D) (drive : MotorDrive F Dev) where
  active_may_move :
      (r : Rover F Dev)
      → r.current_state ≡ active
      → safety_monitor_motion_permitted r.fault_word ≡ true
      → may_move r ≡ true
  unfolding state_machine_motion_allowed
  active_may_move r s h = rw (s, h) refl

  -- A velocity command leaves the drive, and its limited velocities are the target.
  callback-target :
      (now : ℤ) (twist : Twist D) (r : Rover F Dev)
      → let r' = cmd_vel_callback fl cv now twist r in
        (r'.cmd_target ≡ record {
          linear_x = clamp fl (max_linear_velocity_m_s fl) (cv.narrow twist.linear_x);
          angular_z = clamp fl (max_angular_velocity_rad_s fl) (cv.narrow twist.angular_z);
          timestamp_ms = now;
          valid = true;
        })
        × (r'.motor_dev ≡ r.motor_dev)
  unfolding robot_command_set command_of
  callback-target now twist r = rw (callback-effect fl cv now twist r) (refl, refl)

  -- With a motor drive, the agent connected, the battery not low and neither an emergency stop nor a
  -- watchdog fault latched: if the safety monitor evaluates between two velocity commands to an IDLE
  -- robot, when the first is not yet expired, then the next turn of the control loop sends the wheel
  -- velocities of the second command, with its linear and its angular velocity limited.
  pub command_followed :
      (r : Rover F Dev) (t₀ t₁ t₂ z n : ℤ) (first second : Twist D) (sw : Motors F)
      (sf : Motors (MotorFeedback F)) (dev : Dev)
      → r.current_state ≡ idle
      → r.motor_dev ≡ some dev
      → r.monitor.agent_connected ≡ true
      → battery_low fl r.monitor.battery_voltage_v ≡ false
      → holds r.fault_word estop ≡ false
      → holds r.fault_word watchdog ≡ false
      → time_is_expired_ms t₁ t₀ cmd_timeout_ms ≡ false
      → let r' = final fl cv drive r (cmd_vel t₀ first ∷ safety t₁ ∷ cmd_vel t₂ second ∷ []) in
        (step fl cv drive (control z n sw sf) r').0
        ≡ (kinematics_compute_wheel_velocities fl
            (some (record {
              linear_x = clamp fl (max_linear_velocity_m_s fl) (cv.narrow second.linear_x);
              angular_z = clamp fl (max_angular_velocity_rad_s fl) (cv.narrow second.angular_z);
              timestamp_ms = t₂;
              valid = true;
            }))
            (some sw)).1
  unfolding final step
  command_followed r t₀ t₁ t₂ z n first second sw sf dev s present agent battery stop dog fresh =
      let r₁ = cmd_vel_callback fl cv t₀ first r in
      let r₂ = (step fl cv drive (safety t₁) r₁).1 in
      let r₃ = cmd_vel_callback fl cv t₂ second r₂ in
      let (word, monitor) = callback-frame fl cv t₀ first r in
      let permits =
        turn_permits fl cv drive t₁ r₁ (fresh_command fl cv drive t₀ t₁ first r fresh)
          (rw monitor agent) (rw monitor battery) (rw word stop) (rw word dog) in
      let (target, same_dev) = callback-target t₂ second r₂ in
      let on =
        two_commands_activate fl cv drive r t₀ t₁ t₂ first second s agent battery stop dog fresh in
      let (sent, kept) =
        moves fl drive z n sw sf r₃ dev (same_dev ∙ ((callback-target t₀ first r).1 ∙ present))
          (active_may_move r₃ on (rw (callback-frame fl cv t₂ second r₂).0 permits)) in
      sent ∙ rw target refl

  -- Where an operation on a NaN gives a NaN: under the conditions under which the second of two commands
  -- is followed, if its linear velocity is a NaN, the next turn of the control loop sends a NaN to all
  -- four motors; neither of the two limits on the way stops it.
  pub followed-IsNan :
      PropagatesNan fl
      → (r : Rover F Dev) (t₀ t₁ t₂ z n : ℤ) (first second : Twist D) (sw : Motors F)
        (sf : Motors (MotorFeedback F)) (dev : Dev)
      → r.current_state ≡ idle
      → r.motor_dev ≡ some dev
      → r.monitor.agent_connected ≡ true
      → battery_low fl r.monitor.battery_voltage_v ≡ false
      → holds r.fault_word estop ≡ false
      → holds r.fault_word watchdog ≡ false
      → time_is_expired_ms t₁ t₀ cmd_timeout_ms ≡ false
      → IsNan fl (cv.narrow second.linear_x)
      → let r' = final fl cv drive r (cmd_vel t₀ first ∷ safety t₁ ∷ cmd_vel t₂ second ∷ []) in
        (w : Motors F) × ((step fl cv drive (control z n sw sf) r').0 ≡ some w)
        × AllMotors (IsNan fl) w
  followed-IsNan ieee r t₀ t₁ t₂ z n first second sw sf dev s present agent battery stop dog fresh
        nan =
      let limit = max_linear_velocity_m_s fl in
      let target : RobotCommand F = record {
        linear_x = clamp fl limit (cv.narrow second.linear_x);
        angular_z = clamp fl (max_angular_velocity_rad_s fl) (cv.narrow second.angular_z);
        timestamp_ms = t₂;
        valid = true;
      } in
      let kept = clamp-of_Within fl limit _ (nan-Within fl limit _ nan) in
      let (w, e, nans) = wheels-IsNan fl ieee target sw (rw kept nan) in
      let followed =
        command_followed r t₀ t₁ t₂ z n first second sw sf dev s present agent battery stop dog
          fresh in
      (w, followed ∙ ap (λ p. p.1) e, nans)
