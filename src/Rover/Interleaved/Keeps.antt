-- ===== src/Rover/Interleaved/Keeps.antt =====
-- What one access of the control loop does to the commands and the wheel velocities in its local
-- variables.
use micro_ros_controller_fir.Prelude.{
  ◌≡◌, refl, Bool, true, false, Option, none, some, if◌then◌else◌,
}
use micro_ros_controller_fir.Common.Real.{Float}
use micro_ros_controller_fir.Common.Types.{Motors, RobotCommand, MotorFeedback}
use micro_ros_controller_fir.Safety.Monitor.{safety_monitor_motion_permitted}
use micro_ros_controller_fir.App.StateMachine.{state_machine_motion_allowed}
use micro_ros_controller_fir.App.ControlLoop.{MotorDrive}
use micro_ros_controller_fir.Rover.State.{Rover}
use micro_ros_controller_fir.Rover.Interleaved.Control.{
  MotorId, get, next_motor, Inputs, ControlPc, resting, fetched, allowed, refused, sending, reading,
  notifying, recording, integrating, checking_in, wheels_of, zeroed, begin_exchange, after_sending,
  after_reading, read_motor, control_move,
}

-- One predicate on a command that has been fetched, one on a command that has passed the test of the
-- lifecycle state, and one on the wheel velocities that are being sent.
abbrev pub Keeps :
    {F : Type 0}
    → (RobotCommand F → Type 0)
    → (RobotCommand F → Type 0)
    → (Motors F → Type 0)
    → ControlPc F
    → Type 0
Keeps C A W (fetched cmd) = C cmd
Keeps C A W (allowed cmd) = A cmd
Keeps C A W (sending i wheels) = W wheels
Keeps C A W pc = Unit {0}

abbrev pub IfSome : {A : Type 0} → (A → Type 0) → Option A → Type 0
IfSome P none = Unit {0}
IfSome P (some x) = P x

-- A velocity that is its motor's among wheel velocities of which the predicate holds.
abbrev pub Among : {F : Type 0} → (Motors F → Type 0) → MotorId × F → Type 0
Among {F} W (i, v) = (w : Motors F) × W w × (v ≡ get i w)

module _ {F Dev : Type 0} (fl : Float F) (drive : MotorDrive F Dev) (inputs : Inputs F)
    (C A : RobotCommand F → Type 0) (W : Motors F → Type 0) where
  begin_exchange-Keeps :
      (o : Option Dev) (w : Motors F) → W w → Keeps C A W (begin_exchange fl drive inputs o w)
  begin_exchange-Keeps none w h = tt
  begin_exchange-Keeps (some dev) w h = h

  after_sending-Keeps :
      (o : Option MotorId) (w : Motors F) → W w → Keeps C A W (after_sending fl drive inputs o w)
  after_sending-Keeps none w h = tt
  after_sending-Keeps (some i) w h = h

  after_reading-Keeps :
      (o : Option MotorId) (w : Motors F) (f : Motors (MotorFeedback F))
      → Keeps C A W (after_reading fl drive inputs o w f)
  after_reading-Keeps none w f = tt
  after_reading-Keeps (some i) w f = tt

  state_test-Keeps :
      (b : Bool) (cmd : RobotCommand F)
      → (b ≡ true → A cmd)
      → Keeps C A W (if b then allowed cmd else refused cmd)
  state_test-Keeps true cmd h = h refl
  state_test-Keeps false cmd h = tt

  fault_test-Keeps :
      (b : Bool) (cmd : RobotCommand F) (o : Option Dev)
      → (b ≡ true → W (wheels_of fl drive inputs cmd))
      → Keeps C A W (
          if b
          then begin_exchange fl drive inputs o (wheels_of fl drive inputs cmd)
          else refused cmd)
  fault_test-Keeps true cmd o h = begin_exchange-Keeps o _ (h refl)
  fault_test-Keeps false cmd o h = tt

  -- If the tests let only such commands through, and the wheel velocities of a zeroed command are such,
  -- then an access sends only such velocities and keeps only such values afterwards.
  pub control-Keeps :
      (pc : ControlPc F) (r : Rover F Dev)
      → C r.cmd_target
      → ((cmd : RobotCommand F)
          → C cmd
          → state_machine_motion_allowed r.current_state ≡ true
          → A cmd)
      → ((cmd : RobotCommand F)
          → A cmd
          → safety_monitor_motion_permitted r.fault_word ≡ true
          → W (wheels_of fl drive inputs cmd))
      → ((cmd : RobotCommand F) → W (wheels_of fl drive inputs (zeroed fl drive inputs cmd)))
      → Keeps C A W pc
      → let (sent, r', pc') = control_move fl drive inputs pc r in
        IfSome (Among W) sent × Keeps C A W pc'
  unfolding control_move
  control-Keeps resting r t allow go halt h = (tt, t)
  control-Keeps (fetched cmd) r t allow go halt h = (tt, state_test-Keeps _ cmd (allow cmd h))
  control-Keeps (allowed cmd) r t allow go halt h =
      (tt, fault_test-Keeps _ cmd r.motor_dev (go cmd h))
  control-Keeps (refused cmd) r t allow go halt h =
      (tt, begin_exchange-Keeps r.motor_dev _ (halt cmd))
  control-Keeps (sending i w) r t allow go halt h =
      ((w, h, refl), after_sending-Keeps (next_motor i) w h)
  control-Keeps (reading i w f) r t allow go halt h =
      (tt, after_reading-Keeps (next_motor i) w (read_motor fl drive inputs i f r.motor_dev).1)
  control-Keeps (notifying w f) r t allow go halt h = (tt, tt)
  control-Keeps (recording w f) r t allow go halt h = (tt, tt)
  control-Keeps integrating r t allow go halt h = (tt, tt)
  control-Keeps checking_in r t allow go halt h = (tt, tt)
