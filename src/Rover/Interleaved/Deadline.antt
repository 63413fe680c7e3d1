-- ===== src/Rover/Interleaved/Deadline.antt =====
-- The timeout of the velocity command, with the threads interrupted anywhere.
use micro_ros_controller_fir.Prelude.{◌≡◌, true, false, List, [], ◌∷◌, arith, ◌≤◌}
use micro_ros_controller_fir.Prelude.Int.{ℤ, ◌≤ℤ◌, ◌-ℤ◌, -ℤ_parts}
use micro_ros_controller_fir.Common.Real.{Float, Convert, KeepsZero}
use micro_ros_controller_fir.Common.Params.{cmd_timeout_ms}
use micro_ros_controller_fir.Safety.Fault.Flags.{motion_inhibited-holds}
use micro_ros_controller_fir.Safety.Monitor.{safety_monitor_motion_permitted}
use micro_ros_controller_fir.App.ControlLoop.{MotorDrive}
use micro_ros_controller_fir.Rover.State.{Rover}
use micro_ros_controller_fir.Rover.Deadline.{Clock}
use micro_ros_controller_fir.Rover.Interleaved.Monitor.{MonitorPc, asleep}
use micro_ros_controller_fir.Rover.Interleaved.System.{System, Action, advance, after}
use micro_ros_controller_fir.Rover.Interleaved.Timeline.{
  tick, clock_after, AreInOrder, StaysExpired,
}
use micro_ros_controller_fir.App.StateMachine.{state_machine_motion_allowed}
use micro_ros_controller_fir.Rover.Interleaved.Budget.{Always, any_pc-AtMost, turns, turns-AtMost}
use micro_ros_controller_fir.Rover.Interleaved.Watched.{
  IsWatched, after-IsWatched, advance-IsWatched, invalid-Ages,
}

module _ {F D Dev : Type 0} (fl : Float F) (cv : Convert F D) (drive : MotorDrive F Dev) where
  watched :
      (s : System F Dev) (t : ℤ) (es : List (Action F D))
      → s.rover.cmd_target.valid ≡ false
      → s.monitor ≡ asleep
      → AreInOrder fl cv drive (record { commanded = t; evaluated = t }) s es
      → let s' = after fl cv drive s es in
        IsWatched fl cv drive
          (clock_after fl cv drive (record { commanded = t; evaluated = t }) s es)
          s'.rover
          s'.monitor
  watched s t es invalid start o =
      after-IsWatched fl cv drive es (record { commanded = t; evaluated = t }) s o
        (record {
          target = invalid-Ages fl cv drive t s.rover.cmd_target invalid;
          held = rw start tt;
          noticed = λ k. let no : ⊥ = omega (arith, k, -ℤ_parts t t) in elim no [ ];
        })

  inhibited :
      (c : Clock) (r : Rover F Dev) (m : MonitorPc F)
      → IsWatched fl cv drive c r m
      → cmd_timeout_ms ≤ℤ c.evaluated -ℤ c.commanded
      → safety_monitor_motion_permitted r.fault_word ≡ false
  unfolding safety_monitor_motion_permitted
  inhibited c r m i l = ground (arith, motion_inhibited-holds r.fault_word, i.noticed l)

  stays_inhibited :
      (es : List (Action F D)) (c : Clock) (s : System F Dev)
      → IsWatched fl cv drive c s.rover s.monitor
      → AreInOrder fl cv drive c s es
      → StaysExpired fl cv drive c s es
      → Always fl cv drive
          (λ s.
            (state_machine_motion_allowed s.rover.current_state ≡ true → Unit)
            × (Unit → safety_monitor_motion_permitted s.rover.fault_word ≡ true → ⊥))
          s
          es
  unfolding Always AreInOrder StaysExpired
  stays_inhibited [] c s i o x = tt
  stays_inhibited (a ∷ es) c s i (o, os) (x, xs) = (
    (λ k. tt, λ q k. ground (arith, inhibited c s.rover s.monitor i x)),
    stays_inhibited es (tick a s c) (advance fl cv drive a s).1
        (advance-IsWatched fl cv drive a c s o i) os xs,
  )

  -- With the laws of IEEE 754 for zeros, and each thread interrupted by any others between any two of its
  -- accesses to shared data: after a run from a time at which the command target is not valid and the
  -- safety monitor is at the start of an evaluation on, however far the control loop has come, the motors
  -- are sent at most four velocities that are not zero as long as the latest decision about the timeout
  -- comes at least 500 ms after the latest command (or after that time, where there was none), if
  -- throughout no reset is requested and no command is stored at an earlier time than that, the latest
  -- command or the latest decision.
  pub timeout_delay :
      KeepsZero fl
      → (s : System F Dev) (t : ℤ) (es more : List (Action F D)) → s.rover.cmd_target.valid ≡ false
      → s.monitor ≡ asleep
      → AreInOrder fl cv drive (record { commanded = t; evaluated = t }) s es
      → AreInOrder fl cv drive
          (clock_after fl cv drive (record { commanded = t; evaluated = t }) s es)
          (after fl cv drive s es)
          more
      → StaysExpired fl cv drive
          (clock_after fl cv drive (record { commanded = t; evaluated = t }) s es)
          (after fl cv drive s es)
          more
      → turns fl cv drive (after fl cv drive s es) more ≤ 4
  timeout_delay ieee s t es more invalid start o o' x =
      turns-AtMost fl cv drive ieee Unit 4 (after fl cv drive s es) more
        (any_pc-AtMost fl Unit (after fl cv drive s es).control)
        (stays_inhibited more _ (after fl cv drive s es) (watched s t es invalid start o) o' x)
