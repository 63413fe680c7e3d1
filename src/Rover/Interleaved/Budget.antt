-- ===== src/Rover/Interleaved/Budget.antt =====
-- How many velocities the control loop has yet to send when the robot may no longer move.
use micro_ros_controller_fir.Prelude.{
  ℕ, ◌≡◌, true, ◌⊎◌, inl, inr, Option, none, some, List, [], ◌∷◌, arith, if◌then◌else◌, Bool-cases,
  ◌-◌, ◌+◌, ◌≤◌,
}
use micro_ros_controller_fir.Common.Real.{Float, Convert, IsZero, KeepsZero}
use micro_ros_controller_fir.Common.Params.{zero_f}
use micro_ros_controller_fir.Common.Types.{Motors, AllMotors, MotorFeedback}
use micro_ros_controller_fir.Safety.Monitor.{safety_monitor_motion_permitted}
use micro_ros_controller_fir.App.StateMachine.{state_machine_motion_allowed}
use micro_ros_controller_fir.App.ControlLoop.{MotorDrive}
use micro_ros_controller_fir.Rover.State.{Rover}
use micro_ros_controller_fir.Rover.Interleaved.Control.{
  MotorId, front_left, front_right, rear_left, rear_right, number, get, next_motor, Inputs,
  ControlPc, resting, fetched, allowed, refused, sending, reading, notifying, recording,
  integrating, checking_in, begin_exchange, after_sending, after_reading, read_motor, control_move,
}
use micro_ros_controller_fir.Rover.Interleaved.System.{System, Action, control_loop, advance}
use micro_ros_controller_fir.Rover.Interleaved.Holding.{get-AllMotors, zeroed-IsZero}

module _ {F : Type 0} (fl : Float F) where
  -- Whether a motor is told to turn.
  abbrev pub turning : Option (MotorId × F) → ℕ
  turning none = 0
  turning (some (i, v)) = if fl.ne v (zero_f fl) then 1 else 0

  -- The control loop is about to send at most so many velocities that are not zero, or past the test of
  -- the lifecycle state another proposition holds.
  abbrev pub AtMost : Type 0 → ℕ → ControlPc F → Type 0
  AtMost Q n (sending i w) = AllMotors (IsZero fl) w ⊎ (4 - number i ≤ n)
  AtMost Q n (allowed cmd) = Q ⊎ (4 ≤ n)
  AtMost Q n pc = Unit {0}

  pub any_pc-AtMost : (Q : Type 0) (pc : ControlPc F) → AtMost Q 4 pc
  any_pc-AtMost Q (sending i w) = inr (omega arith)
  any_pc-AtMost Q (allowed cmd) = inr (omega arith)
  any_pc-AtMost Q resting = tt
  any_pc-AtMost Q pc = tt

  turning-le : (sent : Option (MotorId × F)) → turning sent ≤ 1
  turning-le none = omega arith
  turning-le (some (i, v)) = ground arith

module _ {F D Dev : Type 0} (fl : Float F) (cv : Convert F D) (drive : MotorDrive F Dev) where
  -- How often a motor is told to turn in a run.
  unfoldable pub turns : System F Dev → List (Action F D) → ℕ
  turns s [] = 0
  turns s (a ∷ es) = let (sent, s') = advance fl cv drive a s in turning fl sent + turns s' es

  -- In every state that a run passes through before an action.
  unfoldable pub Always : (System F Dev → Type 0) → System F Dev → List (Action F D) → Type 0
  Always I s [] = Unit {0}
  Always I s (a ∷ es) = I s × Always I (advance fl cv drive a s).1 es

  module _ (Q : Type 0) (inputs : Inputs F) where
    begin_exchange-AtMost :
        (n : ℕ) (o : Option Dev) (w : Motors F)
        → AllMotors (IsZero fl) w ⊎ (4 ≤ n)
        → AtMost fl Q n (begin_exchange fl drive inputs o w)
    begin_exchange-AtMost n none w h = tt
    begin_exchange-AtMost n (some dev) w h = h

    after_reading-AtMost :
        (n : ℕ) (o : Option MotorId) (w : Motors F) (f : Motors (MotorFeedback F))
        → AtMost fl Q n (after_reading fl drive inputs o w f)
    after_reading-AtMost n none w f = tt
    after_reading-AtMost n (some i) w f = tt

    after_sending-AtMost :
        (n : ℕ) (i : MotorId) (w : Motors F)
        → AtMost fl Q n (sending i w)
        → (m : ℕ) × (turning fl (some (i, get i w)) + m ≤ n)
          × AtMost fl Q m (after_sending fl drive inputs (next_motor i) w)
    after_sending-AtMost n i w (inl z) =
        (n, rw (get-AllMotors (IsZero fl) i w z) (omega arith), still (next_motor i))
      where
        still : (o : Option MotorId) → AtMost fl Q n (after_sending fl drive inputs o w)
        still none = tt
        still (some k) = inl z
    after_sending-AtMost n front_left w (inr h) =
        (n - 1, omega (arith, turning-le fl (some (front_left, w.front_left))), inr (omega arith))
    after_sending-AtMost n front_right w (inr h) =
        (n - 1, omega (arith, turning-le fl (some (front_right, w.front_right))), inr (omega arith))
    after_sending-AtMost n rear_left w (inr h) =
        (n - 1, omega (arith, turning-le fl (some (rear_left, w.rear_left))), inr (omega arith))
    after_sending-AtMost n rear_right w (inr h) =
        (n - 1, omega (arith, turning-le fl (some (rear_right, w.rear_right))), tt)

    -- An access of the control loop while the two tests together let nothing through.
    control-AtMost :
        KeepsZero fl
        → (n : ℕ) (pc : ControlPc F) (r : Rover F Dev)
        → (state_machine_motion_allowed r.current_state ≡ true → Q)
        → (Q → safety_monitor_motion_permitted r.fault_word ≡ true → ⊥)
        → AtMost fl Q n pc
        → let (sent, r', pc') = control_move fl drive inputs pc r in
          (m : ℕ) × (turning fl sent + m ≤ n) × AtMost fl Q m pc'
    unfolding control_move
    control-AtMost ieee n resting r allow halt h = (n, omega arith, tt)
    control-AtMost ieee n (fetched cmd) r allow halt h =
        elim (Bool-cases (state_machine_motion_allowed r.current_state)) [
          | inl go ↦ (n, omega arith, rw go (inl (allow go)))
          | inr halted ↦ (n, omega arith, rw halted tt)
        ]
    control-AtMost ieee n (allowed cmd) r allow halt h =
        elim (Bool-cases (safety_monitor_motion_permitted r.fault_word)) [
          | inr halted ↦ (n, omega arith, rw halted tt)
          | inl go ↦ elim h [
            | inl q ↦ elim (halt q go) [ ]
            | inr l ↦ (n, omega arith, rw go (begin_exchange-AtMost n r.motor_dev _ (inr l)))
          ]
        ]
    control-AtMost ieee n (refused cmd) r allow halt h = (
      n,
      omega arith,
      begin_exchange-AtMost n r.motor_dev _ (inl (zeroed-IsZero fl drive inputs ieee cmd)),
    )
    control-AtMost ieee n (sending k w) r allow halt h = after_sending-AtMost n k w h
    control-AtMost ieee n (reading k w f) r allow halt h = (
      n,
      omega arith,
      after_reading-AtMost n (next_motor k) w (read_motor fl drive inputs k f r.motor_dev).1,
    )
    control-AtMost ieee n (notifying w f) r allow halt h = (n, omega arith, tt)
    control-AtMost ieee n (recording w f) r allow halt h = (n, omega arith, tt)
    control-AtMost ieee n integrating r allow halt h = (n, omega arith, tt)
    control-AtMost ieee n checking_in r allow halt h = (n, omega arith, tt)

  -- If in every state of a run the two tests together let nothing through, then a control loop that is
  -- about to send at most so many velocities that are not zero sends no more of them.
  pub turns-AtMost :
      KeepsZero fl
      → (Q : Type 0) (n : ℕ) (s : System F Dev) (es : List (Action F D)) → AtMost fl Q n s.control
      → Always
          (λ s.
            (state_machine_motion_allowed s.rover.current_state ≡ true → Q)
            × (Q → safety_monitor_motion_permitted s.rover.fault_word ≡ true → ⊥))
          s
          es
      → turns s es ≤ n
  unfolding turns advance Always
  turns-AtMost ieee Q n s [] h e = omega arith
  turns-AtMost ieee Q n s (control_loop inputs ∷ es) h ((allow, halt), e) =
      let (m, le, h') = control-AtMost Q inputs ieee n s.control s.rover allow halt h in
      omega
        (arith, le, turns-AtMost ieee Q m (advance fl cv drive (control_loop inputs) s).1 es h' e)
  turns-AtMost ieee Q n s (c ∷ es) h (g, e) =
      omega (arith, turns-AtMost ieee Q n (advance fl cv drive c s).1 es h e)
