-- ===== src/Rover/Timeout.antt =====
-- A stale command: the robot stands still until a new one arrives.
use micro_ros_controller_fir.Prelude.{◌≡◌, refl, true, false, List, ◌∷◌, arith}
use micro_ros_controller_fir.Prelude.Int.{ℤ, ◌≤ℤ◌}
use micro_ros_controller_fir.Common.Real.{Float, Convert, IsZero, KeepsZero}
use micro_ros_controller_fir.Common.Types.{RobotCommand, Motors, MotorFeedback}
use micro_ros_controller_fir.Common.Params.{cmd_timeout_ms}
use micro_ros_controller_fir.Common.Time.Laws.{expired_mono}
use micro_ros_controller_fir.Safety.Fault.{cmd_timeout}
use micro_ros_controller_fir.Safety.Fault.Flags.{holds, motion_inhibited-holds}
use micro_ros_controller_fir.Safety.Monitor.{safety_monitor_motion_permitted, command_stale}
use micro_ros_controller_fir.App.Command.{robot_command_zero}
use micro_ros_controller_fir.App.StateMachine.{boot}
use micro_ros_controller_fir.App.ControlLoop.{MotorDrive, control_loop_run_once}
use micro_ros_controller_fir.App.ControlLoop.Motion.{may_move, run_once-frame}
use micro_ros_controller_fir.Rover.State.{Rover}
use micro_ros_controller_fir.Rover.Threads.{
  Event, safety, control, cmd_vel, request, step, AllSent, Each, NoReset,
}
use micro_ros_controller_fir.Rover.Frame.{transition-word, turn-verdict}
use micro_ros_controller_fir.Rover.Halt.{halted_run}

-- No reset, no new command, and a clock that does not run backwards.
abbrev pub NoCommandSince : {F D : Type 0} → ℤ → Event F D → Type 0
NoCommandSince t (cmd_vel now twist) = ⊥
NoCommandSince t (safety now) = t ≤ℤ now
NoCommandSince t e = NoReset e

-- The command is stale from a time on, and the safety monitor has noticed.
record IsStale {F Dev : Type 0} (fl : Float F) (t : ℤ) (r : Rover F Dev) : Type 0 where
  stale : (now : ℤ) → t ≤ℤ now → command_stale fl now r.cmd_target ≡ true
  noticed : holds r.fault_word cmd_timeout ≡ true

module _ {F : Type 0} (fl : Float F) where
  stale_later :
      (t now : ℤ) (c : RobotCommand F)
      → command_stale fl t c ≡ true
      → t ≤ℤ now
      → command_stale fl now c ≡ true
  unfolding command_stale
  stale_later t now c h l = ground (arith, expired_mono t now c.timestamp_ms cmd_timeout_ms l)

  pub zero_stale : (t now : ℤ) → command_stale fl now (robot_command_zero fl t) ≡ true
  unfolding command_stale robot_command_zero
  zero_stale t now = refl

module _ {F D Dev : Type 0} (fl : Float F) (cv : Convert F D) (drive : MotorDrive F Dev)
    (t : ℤ) where
  IsStale-still : (r : Rover F Dev) → IsStale fl t r → may_move r ≡ false
  unfolding safety_monitor_motion_permitted
  IsStale-still r i = ground (arith, motion_inhibited-holds r.fault_word, i.noticed)

  IsStale-control :
      (z n : ℤ) (sw : Motors F) (sf : Motors (MotorFeedback F)) (r : Rover F Dev)
      → IsStale fl t r
      → IsStale fl t (control_loop_run_once fl drive z n sw sf r).1
  IsStale-control z n sw sf r i =
      let frame = run_once-frame fl drive z n sw sf r in
      record {
        stale = λ now l. rw (frame.4, IsStale-still r i) (zero_stale fl z now);
        noticed = rw frame.1 i.noticed;
      }

  IsStale-step :
      (e : Event F D) (r : Rover F Dev)
      → NoCommandSince t e
      → IsStale fl t r
      → IsStale fl t (step fl cv drive e r).1
  unfolding step
  IsStale-step (safety now) r a i = record {
    stale = i.stale;
    noticed = rw turn-verdict (i.stale now a);
  }
  IsStale-step (control z n sw sf) r a i = IsStale-control z n sw sf r i
  IsStale-step (cmd_vel now twist) r a i = elim a [ ]
  IsStale-step (request boot) r a i = elim a [ ]
  IsStale-step (request n) r a i = record {
    stale = i.stale;
    noticed = rw (transition-word r.current_state r.fault_word n (cc)) i.noticed;
  }
  IsStale-step e r a i = record { stale = i.stale; noticed = i.noticed }

  -- With the laws of IEEE 754 for zeros: if an evaluation of the safety monitor finds the command
  -- stale, that is, not valid or expired after 500 ms, then from that evaluation on the motors are
  -- sent nothing but zeros, whatever else happens, until a new command arrives or a reset is
  -- requested, provided that no later evaluation is at an earlier time.
  stale_until_command :
      KeepsZero fl
      → (r : Rover F Dev) (es : List (Event F D)) → command_stale fl t r.cmd_target ≡ true
      → Each (NoCommandSince t) es
      → AllSent fl cv drive (IsZero fl) r (safety t ∷ es)
  unfolding AllSent step
  stale_until_command ieee r es old a = (
    tt,
    halted_run fl cv drive ieee (IsStale fl t) (NoCommandSince t) IsStale-still IsStale-step _ es
        (record {
          stale = λ now l. stale_later fl t now r.cmd_target old l;
          noticed = rw turn-verdict old;
        })
        a,
  )
