-- ===== src/Rover/Deadline.antt =====
-- How soon the robot stops once the velocity commands cease.
use micro_ros_controller_fir.Prelude.{
  ℕ, ◌+◌, ◌≡◌, true, false, inl, inr, Bool-cases, List, [], ◌∷◌, arith,
}
use micro_ros_controller_fir.Prelude.Int.{ℤ, pos, ◌≤ℤ◌, ◌-ℤ◌, -ℤ_parts}
use micro_ros_controller_fir.Common.Real.{Float, Convert, IsZero, KeepsZero}
use micro_ros_controller_fir.Common.Types.{Motors, MotorFeedback}
use micro_ros_controller_fir.Common.Params.{cmd_timeout_ms}
use micro_ros_controller_fir.Common.Time.{time_is_expired_ms}
use micro_ros_controller_fir.Safety.Fault.{cmd_timeout}
use micro_ros_controller_fir.Safety.Fault.Flags.{holds, motion_inhibited-holds}
use micro_ros_controller_fir.Safety.Monitor.{safety_monitor_motion_permitted, command_stale}
use micro_ros_controller_fir.App.Command.{robot_command_set}
use micro_ros_controller_fir.App.StateMachine.{boot}
use micro_ros_controller_fir.App.ControlLoop.{MotorDrive, control_loop_run_once}
use micro_ros_controller_fir.App.ControlLoop.Motion.{may_move, run_once-frame}
use micro_ros_controller_fir.Ros.CmdVel.{Twist, cmd_vel_callback}
use micro_ros_controller_fir.Rover.State.{Rover}
use micro_ros_controller_fir.Rover.Threads.{
  Event, safety, control, cmd_vel, request, step, final, IfSent, NoReset,
}
use micro_ros_controller_fir.Rover.Frame.{transition-word, turn-verdict}
use micro_ros_controller_fir.Rover.Halt.{run_once_halted}
use micro_ros_controller_fir.Rover.Timeout.{zero_stale}

-- The times of the latest velocity command and of the latest evaluation of the safety monitor.
pub record Clock : Type 0 where
  pub commanded : ℤ
  pub evaluated : ℤ

abbrev tick : {F D : Type 0} → Event F D → Clock → Clock
tick (safety now) c = record c { evaluated = now }
tick (cmd_vel now twist) c = record c { commanded = now }
tick e c = c

abbrev pub clock_after : {F D : Type 0} → Clock → List (Event F D) → Clock
clock_after c [] = c
clock_after c (e ∷ es) = clock_after (tick e c) es

-- No reset, and no velocity command at an earlier time than the latest evaluation.
abbrev InOrder : {F D : Type 0} → Clock → Event F D → Type 0
InOrder c (cmd_vel now twist) = c.evaluated ≤ℤ now
InOrder c e = NoReset e

abbrev pub AreInOrder : {F D : Type 0} → Clock → List (Event F D) → Type 0
AreInOrder c [] = Unit {0}
AreInOrder c (e ∷ es) = InOrder c e × AreInOrder (tick e c) es

-- From the timeout on the target is stale, and an evaluation since then has latched the fault.
record IsWatched {F Dev : Type 0} (fl : Float F) (c : Clock) (r : Rover F Dev) : Type 0 where
  stale :
      (now : ℤ) → cmd_timeout_ms ≤ℤ now -ℤ c.commanded → command_stale fl now r.cmd_target ≡ true
  noticed : cmd_timeout_ms ≤ℤ c.evaluated -ℤ c.commanded → holds r.fault_word cmd_timeout ≡ true

module _ {F D Dev : Type 0} (fl : Float F) (cv : Convert F D) (drive : MotorDrive F Dev) where
  set_stale :
      (t : ℤ) (twist : Twist D) (r : Rover F Dev) (now : ℤ)
      → cmd_timeout_ms ≤ℤ now -ℤ t
      → command_stale fl now (cmd_vel_callback fl cv t twist r).cmd_target ≡ true
  unfolding command_stale cmd_vel_callback robot_command_set time_is_expired_ms
  set_stale t twist r now h = ground arith

  control-IsWatched :
      (z n : ℤ) (sw : Motors F) (sf : Motors (MotorFeedback F)) (c : Clock) (r : Rover F Dev)
      → IsWatched fl c r
      → IsWatched fl c (control_loop_run_once fl drive z n sw sf r).1
  control-IsWatched z n sw sf c r i =
      let frame = run_once-frame fl drive z n sw sf r in
      record {
        stale = λ now l. elim (Bool-cases (may_move r)) [
          | inl go ↦ rw (frame.4, go) (i.stale now l)
          | inr halt ↦ rw (frame.4, halt) (zero_stale fl z now)
        ];
        noticed = λ l. rw frame.1 (i.noticed l);
      }

  step-IsWatched :
      (e : Event F D) (c : Clock) (r : Rover F Dev)
      → InOrder c e
      → IsWatched fl c r
      → IsWatched fl (tick e c) (step fl cv drive e r).1
  unfolding step
  step-IsWatched (safety now) c r o i = record {
    stale = i.stale;
    noticed = λ l. rw turn-verdict (i.stale now l);
  }
  step-IsWatched (control z n sw sf) c r o i = control-IsWatched z n sw sf c r i
  step-IsWatched (cmd_vel now twist) c r o i = record {
    stale = set_stale now twist r;
    noticed = λ l. let no : ⊥ = omega (arith, o, l, -ℤ_parts c.evaluated now) in elim no [ ];
  }
  step-IsWatched (request boot) c r o i = elim o [ ]
  step-IsWatched (request n) c r o i = record {
    stale = i.stale;
    noticed = λ l. rw (transition-word r.current_state r.fault_word n (cc)) (i.noticed l);
  }
  step-IsWatched e c r o i = record { stale = i.stale; noticed = i.noticed }

  final-IsWatched :
      (es : List (Event F D)) (c : Clock) (r : Rover F Dev)
      → AreInOrder c es
      → IsWatched fl c r
      → IsWatched fl (clock_after c es) (final fl cv drive r es)
  unfolding final
  final-IsWatched [] c r o i = i
  final-IsWatched (e ∷ es) c r (o, os) i =
      final-IsWatched es (tick e c) (step fl cv drive e r).1 os (step-IsWatched e c r o i)

  first-IsWatched :
      (t : ℤ) (twist : Twist D) (r : Rover F Dev)
      → IsWatched fl
          (record { commanded = t; evaluated = t })
          (step fl cv drive (cmd_vel t twist) r).1
  unfolding step
  first-IsWatched t twist r = record {
    stale = set_stale t twist r;
    noticed = λ l. let no : ⊥ = omega (arith, l, -ℤ_parts t t) in elim no [ ];
  }

  expired-still :
      (c : Clock) (r : Rover F Dev)
      → IsWatched fl c r
      → cmd_timeout_ms ≤ℤ c.evaluated -ℤ c.commanded
      → may_move r ≡ false
  unfolding safety_monitor_motion_permitted
  expired-still c r i l = ground (arith, motion_inhibited-holds r.fault_word, i.noticed l)

  -- With the laws of IEEE 754 for zeros: after a velocity command, whatever else happens except a reset,
  -- further commands included, if no command comes at an earlier time than the latest evaluation of the
  -- safety monitor, then a turn of the control loop that comes at least 500 ms and g ms after the latest
  -- command, and at most g ms after the latest evaluation since the first command (or after that command,
  -- where there was none), sends the motors nothing but zeros.
  pub stops_in_time :
      KeepsZero fl
      → (r : Rover F Dev) (t : ℤ) (twist : Twist D) (es : List (Event F D)) (g : ℕ) (z n : ℤ)
        (sw : Motors F) (sf : Motors (MotorFeedback F))
      → AreInOrder (record { commanded = t; evaluated = t }) es
      → z -ℤ (clock_after (record { commanded = t; evaluated = t }) es).evaluated ≤ℤ pos g
      → pos (500 + g) ≤ℤ z -ℤ (clock_after (record { commanded = t; evaluated = t }) es).commanded
      → IfSent
          (IsZero fl)
          (step fl cv drive (control z n sw sf) (final fl cv drive r (cmd_vel t twist ∷ es))).0
  unfolding step final
  stops_in_time ieee r t twist es g z n sw sf o near far =
      let c = clock_after (record { commanded = t; evaluated = t }) es in
      run_once_halted fl cv drive ieee z n sw sf _ (
        expired-still c _ (final-IsWatched es _ _ o (first-IsWatched t twist r)) (
          omega (
            arith,
            near,
            far,
            -ℤ_parts z c.evaluated,
            -ℤ_parts z c.commanded,
            -ℤ_parts c.evaluated c.commanded,
          )))
