-- ===== src/Rover/Agent.antt =====
-- The micro-ROS agent: without it the robot stands still.
use micro_ros_controller_fir.Prelude.{◌≡◌, refl, true, false, List, ◌∷◌, arith}
use micro_ros_controller_fir.Prelude.Int.{ℤ}
use micro_ros_controller_fir.Common.Real.{Float, Convert, IsZero, KeepsZero}
use micro_ros_controller_fir.Safety.Fault.{agent_lost}
use micro_ros_controller_fir.Safety.Fault.Flags.{holds, motion_inhibited-holds}
use micro_ros_controller_fir.Safety.Monitor.{
  safety_monitor_motion_permitted, safety_monitor_set_agent_connected,
  safety_monitor_set_battery_voltage,
}
use micro_ros_controller_fir.App.StateMachine.{boot}
use micro_ros_controller_fir.App.ControlLoop.{MotorDrive}
use micro_ros_controller_fir.App.ControlLoop.Motion.{may_move, run_once-frame}
use micro_ros_controller_fir.Rover.State.{Rover}
use micro_ros_controller_fir.Rover.Threads.{
  Event, safety, control, cmd_vel, set_agent, request, step, AllSent, Each, NoReset,
}
use micro_ros_controller_fir.Rover.Frame.{transition-word, turn-verdict, callback-frame}
use micro_ros_controller_fir.Rover.Halt.{halted_run}

-- No reset, and no word that the agent is connected.
abbrev pub AgentSilent : {F D : Type 0} → Event F D → Type 0
AgentSilent (set_agent true) = ⊥
AgentSilent e = NoReset e

-- The agent is away, and the safety monitor has noticed.
pub record IsLost {F Dev : Type 0} (r : Rover F Dev) : Type 0 where
  pub away : r.monitor.agent_connected ≡ false
  pub noticed : holds r.fault_word agent_lost ≡ true

module _ {F D Dev : Type 0} (fl : Float F) (cv : Convert F D) (drive : MotorDrive F Dev) where
  IsLost-still : (r : Rover F Dev) → IsLost r → may_move r ≡ false
  unfolding safety_monitor_motion_permitted
  IsLost-still r i = ground (arith, motion_inhibited-holds r.fault_word)

  IsLost-step :
      (e : Event F D) (r : Rover F Dev) → AgentSilent e → IsLost r → IsLost (step fl cv drive e r).1
  unfolding step safety_monitor_set_agent_connected safety_monitor_set_battery_voltage
  IsLost-step (safety now) r a i = record { away = i.away; noticed = rw (turn-verdict, i.away) }
  IsLost-step (control z n sw sf) r a i = grind (arith, run_once-frame fl drive z n sw sf r)
  IsLost-step (cmd_vel now twist) r a i = grind (arith, callback-frame fl cv now twist r)
  IsLost-step (request boot) r a i = elim a [ ]
  IsLost-step (request n) r a i = record {
    away = i.away;
    noticed = rw (transition-word r.current_state r.fault_word n (cc)) i.noticed;
  }
  IsLost-step (set_agent true) r a i = elim a [ ]
  IsLost-step (set_agent false) r a i = record { away = refl; noticed = i.noticed }
  IsLost-step e r a i = record { away = i.away; noticed = i.noticed }

  -- With the laws of IEEE 754 for zeros: if the agent is not connected, then from the next
  -- evaluation of the safety monitor on the motors are sent nothing but zeros, whatever else
  -- happens, until the agent is reported connected or a reset is requested.
  lost_until_connected :
      KeepsZero fl
      → (r : Rover F Dev) (now : ℤ) (es : List (Event F D)) → r.monitor.agent_connected ≡ false
      → Each AgentSilent es
      → AllSent fl cv drive (IsZero fl) r (safety now ∷ es)
  unfolding AllSent step
  lost_until_connected ieee r now es away a = (
    tt,
    halted_run fl cv drive ieee IsLost AgentSilent IsLost-still IsLost-step _ es
        (record { away = away; noticed = rw (turn-verdict, away) }) a,
  )
