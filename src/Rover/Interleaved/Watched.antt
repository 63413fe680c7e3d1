-- ===== src/Rover/Interleaved/Watched.antt =====
-- What the command target and the safety monitor's copy of it are worth as time goes on, with the
-- threads interrupted anywhere.
use micro_ros_controller_fir.Prelude.{
  ℕ, ◌≡◌, refl, not, Bool, true, false, some, List, [], ◌∷◌, arith, if◌then◌else◌,
}
use micro_ros_controller_fir.Prelude.Int.{ℤ, ◌≤ℤ◌, ◌-ℤ◌, -ℤ_parts}
use micro_ros_controller_fir.Common.Real.{Float, Convert}
use micro_ros_controller_fir.Common.Types.{RobotCommand}
use micro_ros_controller_fir.Common.Params.{cmd_timeout_ms}
use micro_ros_controller_fir.Common.Time.{time_is_expired_ms}
use micro_ros_controller_fir.Safety.Fault.{
  agent_lost, cmd_timeout, undervoltage, mask, fault_set, fault_clear,
}
use micro_ros_controller_fir.Safety.Fault.Flags.{holds, decide-holds}
use micro_ros_controller_fir.Safety.Monitor.{command_stale, battery_low}
use micro_ros_controller_fir.App.Command.{robot_command_set, robot_command_get}
use micro_ros_controller_fir.App.StateMachine.{boot, active}
use micro_ros_controller_fir.App.ControlLoop.{MotorDrive}
use micro_ros_controller_fir.Ros.CmdVel.{Twist, command_of}
use micro_ros_controller_fir.Rover.State.{Rover}
use micro_ros_controller_fir.Rover.Frame.{transition-word}
use micro_ros_controller_fir.Rover.Timeout.{zero_stale}
use micro_ros_controller_fir.Rover.Deadline.{Clock}
use micro_ros_controller_fir.Rover.Interleaved.Control.{
  Inputs, ControlPc, resting, fetched, allowed, refused, sending, reading, notifying, recording,
  integrating, checking_in, control_move,
}
use micro_ros_controller_fir.Rover.Interleaved.Callback.{
  CallbackPc, waiting, stored, was_idle, permitted, callback_move,
}
use micro_ros_controller_fir.Rover.Interleaved.Monitor.{
  MonitorPc, asleep, has_command, timeout_decided, has_inputs, agent_decided, battery_decided,
  evaluated, monitor_move,
}
use micro_ros_controller_fir.Rover.Interleaved.System.{
  System, Action, control_loop, cmd_vel, safety_monitor, request, advance, after,
}
use micro_ros_controller_fir.Rover.Interleaved.Holding.{control_move-frame}
use micro_ros_controller_fir.Rover.Interleaved.Timeline.{
  stores, decides, tick, IsLater, InOrder, clock_after, AreInOrder,
}

module _ {F D Dev : Type 0} (fl : Float F) (cv : Convert F D) (drive : MotorDrive F Dev) where
  -- A command is stale once the timeout has passed since a time.
  abbrev pub Ages : ℤ → RobotCommand F → Type 0
  Ages t cmd = (now : ℤ) → cmd_timeout_ms ≤ℤ now -ℤ t → command_stale fl now cmd ≡ true

  -- The command that the safety monitor is about to decide by.
  abbrev pub HeldAges : ℤ → MonitorPc F → Type 0
  HeldAges t (has_command cmd) = Ages t cmd
  HeldAges t pc = Unit {0}

  -- The target and the monitor's copy of it age since the latest command, and a decision since the
  -- timeout has latched the fault.
  pub record IsWatched (c : Clock) (r : Rover F Dev) (pc : MonitorPc F) : Type 0 where
    pub target : Ages c.commanded r.cmd_target
    pub held : HeldAges c.commanded pc
    pub noticed :
        cmd_timeout_ms ≤ℤ c.evaluated -ℤ c.commanded → holds r.fault_word cmd_timeout ≡ true

  Ages-later : (t u : ℤ) (cmd : RobotCommand F) → t ≤ℤ u → Ages t cmd → Ages u cmd
  Ages-later t u cmd l h now k = h now (omega (arith, l, k, -ℤ_parts now t, -ℤ_parts now u))

  HeldAges-later : (t u : ℤ) (pc : MonitorPc F) → t ≤ℤ u → HeldAges t pc → HeldAges u pc
  HeldAges-later t u (has_command cmd) l h = Ages-later t u cmd l h
  HeldAges-later t u asleep l h = tt
  HeldAges-later t u timeout_decided l h = tt
  HeldAges-later t u (has_inputs b v) l h = tt
  HeldAges-later t u (agent_decided v) l h = tt
  HeldAges-later t u battery_decided l h = tt
  HeldAges-later t u evaluated l h = tt

  set-Ages : (t : ℤ) (cmd old : RobotCommand F) → Ages t (robot_command_set fl t (some cmd) old).1
  unfolding command_stale robot_command_set time_is_expired_ms
  set-Ages t cmd old now h = ground arith

  -- The fault that other decisions leave alone.
  still_timed_out :
      (w : ℕ) (b : Bool)
      → holds w cmd_timeout ≡ true
      → (holds
            (if b then fault_set w (mask agent_lost) else fault_clear w (mask agent_lost))
            cmd_timeout
          ≡ true)
        × (holds
              (if b then fault_set w (mask undervoltage) else fault_clear w (mask undervoltage))
              cmd_timeout
            ≡ true)
  still_timed_out w b h = (
    rw (decide-holds w b agent_lost cmd_timeout) h,
    rw (decide-holds w b undervoltage cmd_timeout) h,
  )

  -- An access of the control loop leaves the target or zeroes it.
  control-target :
      (inputs : Inputs F) (t : ℤ) (pc : ControlPc F) (r : Rover F Dev)
      → Ages t r.cmd_target
      → Ages t (control_move fl drive inputs pc r).1.cmd_target
  unfolding control_move
  control-target inputs t resting r h = h
  control-target inputs t (fetched cmd) r h = h
  control-target inputs t (allowed cmd) r h = h
  control-target inputs t (refused cmd) r h = λ now k. zero_stale fl inputs.now_zero now
  control-target inputs t (sending i w) r h = h
  control-target inputs t (reading i w f) r h = h
  control-target inputs t (notifying w f) r h = h
  control-target inputs t (recording w f) r h = h
  control-target inputs t integrating r h = h
  control-target inputs t checking_in r h = h

  monitor-IsWatched :
      (now : ℤ) (c : Clock) (pc : MonitorPc F) (r : Rover F Dev)
      → IsWatched c r pc
      → let (r', pc') = monitor_move fl now pc r in IsWatched (decides pc now c) r' pc'
  unfolding monitor_move robot_command_get
  monitor-IsWatched now c asleep r i = record {
    target = i.target;
    held = i.target;
    noticed = i.noticed;
  }
  monitor-IsWatched now c (has_command cmd) r i = record {
    target = i.target;
    held = tt;
    noticed = λ l. rw (decide-holds r.fault_word _ cmd_timeout cmd_timeout) (i.held now l);
  }
  monitor-IsWatched now c timeout_decided r i = record {
    target = i.target;
    held = tt;
    noticed = i.noticed;
  }
  monitor-IsWatched now c (has_inputs b v) r i = record {
    target = i.target;
    held = tt;
    noticed = λ l. (still_timed_out r.fault_word (not b) (i.noticed l)).0;
  }
  monitor-IsWatched now c (agent_decided v) r i = record {
    target = i.target;
    held = tt;
    noticed = λ l. (still_timed_out r.fault_word (battery_low fl v) (i.noticed l)).1;
  }
  monitor-IsWatched now c battery_decided r i = record {
    target = i.target;
    held = tt;
    noticed = i.noticed;
  }
  monitor-IsWatched now c evaluated r i = record {
    target = i.target;
    held = tt;
    noticed = i.noticed;
  }

  callback-IsWatched :
      (now : ℤ) (twist : Twist D) (c : Clock) (pc : CallbackPc) (r : Rover F Dev) (m : MonitorPc F)
      → IsLater pc now c
      → IsWatched c r m
      → IsWatched (stores pc now c) (callback_move fl cv now twist pc r).0 m
  unfolding callback_move
  callback-IsWatched now twist c waiting r m (e, o) i = record {
    target = set-Ages now (command_of cv twist) r.cmd_target;
    held = HeldAges-later c.commanded now m o i.held;
    noticed = λ l. let no : ⊥ = omega (arith, e, l, -ℤ_parts c.evaluated now) in elim no [ ];
  }
  callback-IsWatched now twist c stored r m e i = i
  callback-IsWatched now twist c was_idle r m e i = i
  callback-IsWatched now twist c permitted r m e i = record {
    target = i.target;
    held = i.held;
    noticed = λ l. rw (transition-word r.current_state r.fault_word active (cc)) (i.noticed l);
  }

  pub advance-IsWatched :
      (a : Action F D) (c : Clock) (s : System F Dev)
      → InOrder a s c
      → IsWatched c s.rover s.monitor
      → let s' = (advance fl cv drive a s).1 in IsWatched (tick a s c) s'.rover s'.monitor
  unfolding advance
  advance-IsWatched (control_loop inputs) c s o i = record {
    target = control-target inputs c.commanded s.control s.rover i.target;
    held = i.held;
    noticed = λ l. rw (control_move-frame fl drive inputs s.control s.rover).1 (i.noticed l);
  }
  advance-IsWatched (cmd_vel now twist) c s o i =
      callback-IsWatched now twist c s.callback s.rover s.monitor o i
  advance-IsWatched (safety_monitor now) c s o i = monitor-IsWatched now c s.monitor s.rover i
  advance-IsWatched (request boot) c s o i = elim o [ ]
  advance-IsWatched (request n) c s o i = record {
    target = i.target;
    held = i.held;
    noticed =
        λ l. rw (transition-word s.rover.current_state s.rover.fault_word n (cc)) (i.noticed l);
  }
  advance-IsWatched a c s o i = record { target = i.target; held = i.held; noticed = i.noticed }

  pub after-IsWatched :
      (es : List (Action F D)) (c : Clock) (s : System F Dev)
      → AreInOrder fl cv drive c s es
      → IsWatched c s.rover s.monitor
      → let s' = after fl cv drive s es in
        IsWatched (clock_after fl cv drive c s es) s'.rover s'.monitor
  unfolding after AreInOrder clock_after
  after-IsWatched [] c s o i = i
  after-IsWatched (a ∷ es) c s (o, os) i =
      after-IsWatched es (tick a s c) (advance fl cv drive a s).1 os (advance-IsWatched a c s o i)

  pub invalid-Ages : (t : ℤ) (cmd : RobotCommand F) → cmd.valid ≡ false → Ages t cmd
  unfolding command_stale
  invalid-Ages t cmd h now l = rw h refl
