-- ===== src/Rover/Interleaved/Holding.antt =====
-- What the control loop holds in its local variables while it is interrupted.
use micro_ros_controller_fir.Prelude.{◌≡◌, refl, true, Option, none, some}
use micro_ros_controller_fir.Common.Real.{Float, IsZero, KeepsZero, IsOrdered}
use micro_ros_controller_fir.Common.Clamp.{Within}
use micro_ros_controller_fir.Common.Params.{max_wheel_velocity_rad_s}
use micro_ros_controller_fir.Common.Types.{Motors, AllMotors, RobotCommand}
use micro_ros_controller_fir.Safety.Monitor.{
  safety_monitor_motion_permitted, safety_monitor_set_motor_feedback,
}
use micro_ros_controller_fir.App.Kinematics.Bounds.{wheels-Within}
use micro_ros_controller_fir.App.Kinematics.Zero.{wheels-IsZero}
use micro_ros_controller_fir.App.StateMachine.{state_machine_motion_allowed}
use micro_ros_controller_fir.App.ControlLoop.{MotorDrive}
use micro_ros_controller_fir.Rover.State.{Rover}
use micro_ros_controller_fir.Rover.Interleaved.Control.{
  MotorId, front_left, front_right, rear_left, rear_right, get, Inputs, ControlPc, resting, fetched,
  allowed, refused, sending, reading, notifying, recording, integrating, checking_in, wheels_of,
  zeroed, control_move,
}
use micro_ros_controller_fir.Rover.Interleaved.Keeps.{Keeps, IfSome, Among, control-Keeps}
use micro_ros_controller_fir.Rover.Interleaved.System.{IfSends}

-- The velocities that are being sent satisfy one predicate, and past the test of the lifecycle state
-- another proposition holds.
abbrev pub Holding : {F : Type 0} → (F → Type 0) → Type 0 → ControlPc F → Type 0
Holding P Q pc = Keeps (λ c. Unit {0}) (λ c. Q) (AllMotors P) pc

pub get-AllMotors :
    {F : Type 0} (P : F → Type 0) (i : MotorId) (w : Motors F) → AllMotors P w → P (get i w)
get-AllMotors P front_left w (a, b, c, d) = a
get-AllMotors P front_right w (a, b, c, d) = b
get-AllMotors P rear_left w (a, b, c, d) = c
get-AllMotors P rear_right w (a, b, c, d) = d

module _ {F Dev : Type 0} (fl : Float F) (drive : MotorDrive F Dev) (inputs : Inputs F)
    (P : F → Type 0) (Q : Type 0) where
  sends-of_Among : (o : Option (MotorId × F)) → IfSome (Among (AllMotors P)) o → IfSends P o
  sends-of_Among none h = tt
  sends-of_Among (some (i, v)) (w, h, e) = rw e (get-AllMotors P i w h)

  -- If the tests let only such velocities through, and those of a zeroed command are such, then an access
  -- sends only such velocities and holds only such ones afterwards.
  pub control-Holding :
      (pc : ControlPc F) (r : Rover F Dev)
      → (state_machine_motion_allowed r.current_state ≡ true → Q)
      → (Q
          → safety_monitor_motion_permitted r.fault_word ≡ true
          → (cmd : RobotCommand F) → AllMotors P (wheels_of fl drive inputs cmd))
      → ((cmd : RobotCommand F)
          → AllMotors P (wheels_of fl drive inputs (zeroed fl drive inputs cmd)))
      → Holding P Q pc
      → let (sent, r', pc') = control_move fl drive inputs pc r in IfSends P sent × Holding P Q pc'
  control-Holding pc r allow go halt h =
      let (sent, kept) =
        control-Keeps fl drive inputs (λ c. Unit {0}) (λ c. Q) (AllMotors P) pc r tt
          (λ c u k. allow k) (λ c q k. go q k c) halt h in
      (sends-of_Among _ sent, kept)

-- An access of the control loop changes neither the lifecycle state nor the fault word nor what the
-- safety monitor knows of the agent.
pub control_move-frame :
    {F Dev : Type 0} (fl : Float F) (drive : MotorDrive F Dev) (inputs : Inputs F)
    (pc : ControlPc F) (r : Rover F Dev)
    → let r' = (control_move fl drive inputs pc r).1 in
      (r'.current_state ≡ r.current_state)
      × (r'.fault_word ≡ r.fault_word)
      × (r'.monitor.agent_connected ≡ r.monitor.agent_connected)
unfolding control_move safety_monitor_set_motor_feedback
control_move-frame fl drive inputs resting r = (refl, refl, refl)
control_move-frame fl drive inputs (fetched cmd) r = (refl, refl, refl)
control_move-frame fl drive inputs (allowed cmd) r = (refl, refl, refl)
control_move-frame fl drive inputs (refused cmd) r = (refl, refl, refl)
control_move-frame fl drive inputs (sending i w) r = (refl, refl, refl)
control_move-frame fl drive inputs (reading i w f) r = (refl, refl, refl)
control_move-frame fl drive inputs (notifying w f) r = (refl, refl, refl)
control_move-frame fl drive inputs (recording w f) r = (refl, refl, refl)
control_move-frame fl drive inputs integrating r = (refl, refl, refl)
control_move-frame fl drive inputs checking_in r = (refl, refl, refl)

-- The wheel velocities of a zeroed command are zero.
pub zeroed-IsZero :
    {F Dev : Type 0} (fl : Float F) (drive : MotorDrive F Dev) (inputs : Inputs F)
    → KeepsZero fl
    → (cmd : RobotCommand F)
    → AllMotors (IsZero fl) (wheels_of fl drive inputs (zeroed fl drive inputs cmd))
unfolding wheels_of
zeroed-IsZero fl drive inputs ieee cmd =
    let (w, e, z) =
      wheels-IsZero fl ieee (zeroed fl drive inputs cmd) inputs.stack_wheels ieee.zero_zero
        ieee.zero_zero in
    rw e z

-- The wheel velocities of any command lie within the limit.
pub wheels_of-Within :
    {F Dev : Type 0} (fl : Float F) (drive : MotorDrive F Dev) (inputs : Inputs F)
    → IsOrdered fl
    → (cmd : RobotCommand F)
    → AllMotors (Within fl (max_wheel_velocity_rad_s fl)) (wheels_of fl drive inputs cmd)
unfolding wheels_of
wheels_of-Within fl drive inputs ieee cmd =
    let (w, e, within, left, right) = wheels-Within fl ieee cmd inputs.stack_wheels in rw e within
