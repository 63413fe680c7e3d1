-- ===== src/Rover/Interleaved/Agent.antt =====
-- The micro-ROS agent is lost, with the threads interrupted anywhere.
use micro_ros_controller_fir.Prelude.{ℕ, ◌≡◌, refl, Bool, true, false, List, arith, if◌then◌else◌}
use micro_ros_controller_fir.Prelude.Int.{ℤ}
use micro_ros_controller_fir.Common.Real.{Float, Convert, IsZero, KeepsZero}
use micro_ros_controller_fir.Safety.Fault.{
  agent_lost, cmd_timeout, undervoltage, mask, fault_set, fault_clear,
}
use micro_ros_controller_fir.Safety.Fault.Flags.{holds, motion_inhibited-holds, decide-holds}
use micro_ros_controller_fir.Safety.Monitor.{
  safety_monitor_motion_permitted, safety_monitor_set_agent_connected,
  safety_monitor_set_battery_voltage, command_stale, battery_low,
}
use micro_ros_controller_fir.App.StateMachine.{boot, active}
use micro_ros_controller_fir.App.ControlLoop.{MotorDrive}
use micro_ros_controller_fir.Ros.CmdVel.{Twist}
use micro_ros_controller_fir.Rover.State.{Rover}
use micro_ros_controller_fir.Rover.Frame.{transition-word}
use micro_ros_controller_fir.Rover.Agent.{IsLost}
use micro_ros_controller_fir.Rover.Interleaved.Callback.{
  CallbackPc, waiting, stored, was_idle, permitted, callback_move,
}
use micro_ros_controller_fir.Rover.Interleaved.Monitor.{
  MonitorPc, asleep, has_command, timeout_decided, has_inputs, agent_decided, battery_decided,
  evaluated, monitor_move,
}
use micro_ros_controller_fir.Rover.Interleaved.System.{
  System, Action, control_loop, cmd_vel, safety_monitor, request, set_agent, set_battery, diagnose,
  advance, IfSends, Each, NoReset, AllSends, AllSends-of_invariant,
}
use micro_ros_controller_fir.Rover.Interleaved.Holding.{
  Holding, control-Holding, control_move-frame, zeroed-IsZero,
}

-- The safety monitor is not about to decide by an agent that was still connected.
abbrev pub SawNoAgent : {F : Type 0} → MonitorPc F → Type 0
SawNoAgent (has_inputs true voltage) = ⊥
SawNoAgent pc = Unit {0}

-- No reset, and no word that the agent is connected.
abbrev pub AgentSilent : {F D : Type 0} → Action F D → Type 0
AgentSilent (set_agent true) = ⊥
AgentSilent a = NoReset a

module _ {F D Dev : Type 0} (fl : Float F) (cv : Convert F D) (drive : MotorDrive F Dev) where
  abbrev StaysLost : System F Dev → Type 0
  StaysLost s = IsLost s.rover × (SawNoAgent s.monitor × Holding (IsZero fl) Unit s.control)

  pub IsLost-inhibits :
      (r : Rover F Dev) → IsLost r → safety_monitor_motion_permitted r.fault_word ≡ true → ⊥
  unfolding safety_monitor_motion_permitted
  IsLost-inhibits r i h = ground (arith, motion_inhibited-holds r.fault_word, i.noticed)

  callback-IsLost :
      (now : ℤ) (twist : Twist D) (pc : CallbackPc) (r : Rover F Dev)
      → IsLost r
      → IsLost (callback_move fl cv now twist pc r).0
  unfolding callback_move
  callback-IsLost now twist waiting r i = record { away = i.away; noticed = i.noticed }
  callback-IsLost now twist stored r i = i
  callback-IsLost now twist was_idle r i = i
  callback-IsLost now twist permitted r i = record {
    away = i.away;
    noticed = rw (transition-word r.current_state r.fault_word active (cc)) i.noticed;
  }

  still_noticed :
      (w : ℕ) (b : Bool)
      → holds w agent_lost ≡ true
      → (holds
            (if b then fault_set w (mask cmd_timeout) else fault_clear w (mask cmd_timeout))
            agent_lost
          ≡ true)
        × (holds
              (if b then fault_set w (mask undervoltage) else fault_clear w (mask undervoltage))
              agent_lost
            ≡ true)
  still_noticed w b h = (
    rw (decide-holds w b cmd_timeout agent_lost) h,
    rw (decide-holds w b undervoltage agent_lost) h,
  )

  monitor-IsLost :
      (now : ℤ) (pc : MonitorPc F) (r : Rover F Dev)
      → IsLost r
      → SawNoAgent pc
      → let (r', pc') = monitor_move fl now pc r in IsLost r' × SawNoAgent pc'
  unfolding monitor_move
  monitor-IsLost now asleep r i n = (i, tt)
  monitor-IsLost now (has_command cmd) r i n = (
    record { away = i.away; noticed = (still_noticed _ (command_stale fl now cmd) i.noticed).0 },
    tt,
  )
  monitor-IsLost now timeout_decided r i n = (i, rw (i.away) tt)
  monitor-IsLost now (has_inputs true v) r i n = elim n [ ]
  monitor-IsLost now (has_inputs false v) r i n =
      (record { away = i.away; noticed = decide-holds r.fault_word true agent_lost agent_lost }, tt)
  monitor-IsLost now (agent_decided v) r i n =
      (record { away = i.away; noticed = (still_noticed _ (battery_low fl v) i.noticed).1 }, tt)
  monitor-IsLost now battery_decided r i n = (record { away = i.away; noticed = i.noticed }, tt)
  monitor-IsLost now evaluated r i n = (record { away = i.away; noticed = i.noticed }, tt)

  -- Once the loss is noticed it stays so.
  pub IsLost-advance :
      (a : Action F D) (s : System F Dev)
      → AgentSilent a
      → IsLost s.rover
      → SawNoAgent s.monitor
      → let s' = (advance fl cv drive a s).1 in IsLost s'.rover × SawNoAgent s'.monitor
  unfolding advance safety_monitor_set_agent_connected safety_monitor_set_battery_voltage
  IsLost-advance (control_loop inputs) s n i m =
      let frame = control_move-frame fl drive inputs s.control s.rover in
      (record { away = rw frame.2 i.away; noticed = rw frame.1 i.noticed }, m)
  IsLost-advance (cmd_vel now twist) s n i m = (callback-IsLost now twist s.callback s.rover i, m)
  IsLost-advance (safety_monitor now) s n i m = monitor-IsLost now s.monitor s.rover i m
  IsLost-advance (request boot) s n i m = elim n [ ]
  IsLost-advance (request n) s k i m = (
    record {
      away = i.away;
      noticed = rw (transition-word s.rover.current_state s.rover.fault_word n (cc)) i.noticed;
    },
    m,
  )
  IsLost-advance (set_agent true) s n i m = elim n [ ]
  IsLost-advance (set_agent false) s n i m = (record { away = refl; noticed = i.noticed }, m)
  IsLost-advance (set_battery v) s n i m = (record { away = i.away; noticed = i.noticed }, m)
  IsLost-advance diagnose s n i m = (record { away = i.away; noticed = i.noticed }, m)

  StaysLost-step :
      KeepsZero fl
      → (a : Action F D) (s : System F Dev) → AgentSilent a
      → StaysLost s
      → IfSends (IsZero fl) (advance fl cv drive a s).0 × StaysLost (advance fl cv drive a s).1
  unfolding advance
  StaysLost-step ieee (control_loop inputs) s n (i, (m, h)) =
      let (sends, h') =
        control-Holding fl drive inputs (IsZero fl) Unit s.control s.rover (λ k. tt)
          (λ q p c. elim (IsLost-inhibits s.rover i p) [ ]) (zeroed-IsZero fl drive inputs ieee)
          h in
      let (i', m') = IsLost-advance (control_loop inputs) s n i m in (sends, (i', (m', h')))
  StaysLost-step ieee a s n (i, (m, h)) =
      let (i', m') = IsLost-advance a s n i m in (tt, (i', (m', h)))

  -- With the laws of IEEE 754 for zeros, and each thread interrupted by any others between any two of
  -- its accesses to shared data: once the agent is not connected and the fault of the lost agent is set,
  -- while the safety monitor is not about to decide by an earlier reading of a connected agent, and the
  -- velocities that the control loop is sending, if it is, are zero, the motors are sent nothing but
  -- zeros, as long as the agent is not reported connected and no reset is requested.
  interleaved_lost :
      KeepsZero fl
      → (s : System F Dev) (es : List (Action F D)) → s.rover.monitor.agent_connected ≡ false
      → holds s.rover.fault_word agent_lost ≡ true
      → SawNoAgent s.monitor
      → Holding (IsZero fl) Unit s.control
      → Each AgentSilent es
      → AllSends fl cv drive (IsZero fl) s es
  interleaved_lost ieee s es away noticed m h =
      AllSends-of_invariant fl cv drive (IsZero fl) StaysLost AgentSilent (StaysLost-step ieee) s es
        (record { away = away; noticed = noticed }, (m, h))
