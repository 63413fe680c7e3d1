-- ===== src/Ros/Telemetry/Wheels.antt =====
-- When the wheel states are published in a run of the threads, and what is in them.
use micro_ros_controller_fir.Prelude.{
  ◌≡◌, refl, ◌∙◌, Bool, true, false, ◌||◌, none, some, List, [], ◌∷◌, arith, if◌then◌else◌,
}
use micro_ros_controller_fir.Prelude.Int.{ℤ}
use micro_ros_controller_fir.Common.Real.{Float, Convert}
use micro_ros_controller_fir.Common.Types.{Motors, MotorFeedback, WheelState}
use micro_ros_controller_fir.App.ControlLoop.{
  MotorDrive, control_loop_run_once, control_loop_get_wheel_state, record_wheels,
}
use micro_ros_controller_fir.Ros.CmdVel.{Twist, cmd_vel_callback}
use micro_ros_controller_fir.Ros.Telemetry.{
  JointState, joint_names, wheel_states_pub_init, wheel_states_pub_publish,
}
use micro_ros_controller_fir.Rover.State.{Rover}
use micro_ros_controller_fir.Rover.Threads.{Event, control, cmd_vel, step, final}

-- The control loop has a turn.
abbrev pub has_turn : {F D : Type 0} → List (Event F D) → Bool
has_turn [] = false
has_turn (control z n sw sf ∷ es) = true
has_turn (e ∷ es) = has_turn es

module _ {F D Dev : Type 0} (fl : Float F) (cv : Convert F D) (drive : MotorDrive F Dev) where
  run_once-valid :
      (z n : ℤ) (sw : Motors F) (sf : Motors (MotorFeedback F)) (r : Rover F Dev)
      → (control_loop_run_once fl drive z n sw sf r).1.latest_wheel_state.valid ≡ true
  unfolding control_loop_run_once record_wheels
  run_once-valid z n sw sf r = refl

  callback-valid :
      (now : ℤ) (twist : Twist D) (r : Rover F Dev)
      → (cmd_vel_callback fl cv now twist r).latest_wheel_state.valid ≡ r.latest_wheel_state.valid
  unfolding cmd_vel_callback
  callback-valid now twist r = ground arith

  final-valid :
      (r : Rover F Dev) (es : List (Event F D))
      → (final fl cv drive r es).latest_wheel_state.valid
        ≡ (has_turn es || r.latest_wheel_state.valid)
  unfolding final step
  final-valid r [] = refl
  final-valid r (control z n sw sf ∷ es) =
      final-valid (control_loop_run_once fl drive z n sw sf r).1 es
      ∙ rw (run_once-valid z n sw sf r) (ground arith)
  final-valid r (cmd_vel now twist ∷ es) =
      final-valid (cmd_vel_callback fl cv now twist r) es ∙ rw (callback-valid now twist r) refl
  final-valid r (e ∷ es) = final-valid (step fl cv drive e r).1 es

  publish_if_valid :
      (stack w : WheelState F) (msg : JointState D)
      → (wheel_states_pub_publish stack w msg).0 ≡ (if w.valid then some msg else none)
  unfolding wheel_states_pub_publish control_loop_get_wheel_state
  publish_if_valid stack w msg = ground arith

  -- If the publisher was created and no wheel state was recorded before: after any run of the threads
  -- the wheel states are published exactly if the control loop has had a turn, and the message has the
  -- four joint names, but its positions and velocities are those that it had at first, whatever the
  -- wheels did.
  pub wheel_states_published :
      (r : Rover F Dev) (es : List (Event F D)) (stack : WheelState F) (msg : JointState D)
      → r.latest_wheel_state.valid ≡ false
      → (wheel_states_pub_publish stack
          (final fl cv drive r es).latest_wheel_state
          (wheel_states_pub_init true msg).1).0
        ≡ (if has_turn es
            then some
                (record { name = joint_names; position = msg.position; velocity = msg.velocity })
            else none)
  unfolding wheel_states_pub_init
  wheel_states_published r es stack msg h =
      rw (publish_if_valid, final-valid r es, h) (ground arith)
