-- ===== src/Rover/Interleaved/Notice.antt =====
-- How soon the safety monitor notices that the agent is lost.
use micro_ros_controller_fir.Prelude.{
  ℕ, ◌+◌, ◌≤◌, ◌<◌, ◌≡◌, refl, ◌⊎◌, inl, inr, true, false, List, [], ◌∷◌, arith,
}
use micro_ros_controller_fir.Prelude.Int.{ℤ}
use micro_ros_controller_fir.Common.Real.{Float, Convert, KeepsZero}
use micro_ros_controller_fir.Safety.Fault.{agent_lost}
use micro_ros_controller_fir.Safety.Fault.Flags.{holds, decide-holds}
use micro_ros_controller_fir.Safety.Monitor.{
  safety_monitor_motion_permitted, safety_monitor_set_agent_connected,
  safety_monitor_set_battery_voltage,
}
use micro_ros_controller_fir.App.StateMachine.{boot, state_machine_motion_allowed}
use micro_ros_controller_fir.App.ControlLoop.{MotorDrive}
use micro_ros_controller_fir.Ros.CmdVel.{Twist}
use micro_ros_controller_fir.Rover.State.{Rover}
use micro_ros_controller_fir.Rover.Agent.{IsLost}
use micro_ros_controller_fir.Rover.Interleaved.Callback.{
  CallbackPc, waiting, stored, was_idle, permitted, callback_move,
}
use micro_ros_controller_fir.Rover.Interleaved.Monitor.{
  MonitorPc, asleep, has_command, timeout_decided, has_inputs, agent_decided, battery_decided,
  evaluated, monitor_move,
}
use micro_ros_controller_fir.Rover.Interleaved.System.{
  System, Action, control_loop, cmd_vel, safety_monitor, request, set_agent, advance, after, Each,
}
use micro_ros_controller_fir.Rover.Interleaved.Holding.{control_move-frame}
use micro_ros_controller_fir.Rover.Interleaved.Agent.{
  SawNoAgent, AgentSilent, IsLost-advance, IsLost-inhibits,
}
use micro_ros_controller_fir.Rover.Interleaved.Budget.{Always, any_pc-AtMost, turns, turns-AtMost}

-- After how many accesses the safety monitor has decided by a new reading of the agent.
abbrev due : {F : Type 0} → MonitorPc F → ℕ
due (has_inputs false v) = 1
due timeout_decided = 2
due (has_command cmd) = 3
due asleep = 4
due evaluated = 5
due battery_decided = 6
due (agent_decided v) = 7
due (has_inputs true v) = 8

due-bounds : {F : Type 0} (pc : MonitorPc F) → (0 < due pc) × (due pc ≤ 8)
due-bounds (has_inputs false v) = (omega arith, omega arith)
due-bounds timeout_decided = (omega arith, omega arith)
due-bounds (has_command cmd) = (omega arith, omega arith)
due-bounds asleep = (omega arith, omega arith)
due-bounds evaluated = (omega arith, omega arith)
due-bounds battery_decided = (omega arith, omega arith)
due-bounds (agent_decided v) = (omega arith, omega arith)
due-bounds (has_inputs true v) = (omega arith, omega arith)

-- The accesses of the safety monitor among the actions.
abbrev pub monitor_accesses : {F D : Type 0} → List (Action F D) → ℕ
monitor_accesses [] = 0
monitor_accesses (safety_monitor now ∷ es) = 1 + monitor_accesses es
monitor_accesses (a ∷ es) = monitor_accesses es

module _ {F D Dev : Type 0} (fl : Float F) (cv : Convert F D) (drive : MotorDrive F Dev) where
  callback-monitor :
      (now : ℤ) (twist : Twist D) (pc : CallbackPc) (r : Rover F Dev)
      → (callback_move fl cv now twist pc r).0.monitor ≡ r.monitor
  unfolding callback_move
  callback-monitor now twist waiting r = refl
  callback-monitor now twist stored r = refl
  callback-monitor now twist was_idle r = refl
  callback-monitor now twist permitted r = refl

  -- An access of the safety monitor without the agent: it notices, or is nearer to that.
  monitor-due :
      (now : ℤ) (pc : MonitorPc F) (r : Rover F Dev)
      → r.monitor.agent_connected ≡ false
      → let (r', pc') = monitor_move fl now pc r in
        (r'.monitor.agent_connected ≡ false) × ((IsLost r' × SawNoAgent pc') ⊎ (due pc' < due pc))
  unfolding monitor_move
  monitor-due now (has_inputs false v) r h = (
    h,
    inl (record { away = h; noticed = decide-holds r.fault_word true agent_lost agent_lost }, tt),
  )
  monitor-due now timeout_decided r h = (h, inr (rw h (omega arith)))
  monitor-due now (has_command cmd) r h = (h, inr (omega arith))
  monitor-due now asleep r h = (h, inr (omega arith))
  monitor-due now evaluated r h = (h, inr (omega arith))
  monitor-due now battery_decided r h = (h, inr (omega arith))
  monitor-due now (agent_decided v) r h = (h, inr (omega arith))
  monitor-due now (has_inputs true v) r h = (h, inr (omega arith))

  stays_noticed :
      (s : System F Dev) (es : List (Action F D))
      → IsLost s.rover
      → SawNoAgent s.monitor
      → Each AgentSilent es
      → let s' = after fl cv drive s es in IsLost s'.rover × SawNoAgent s'.monitor
  unfolding after
  stays_noticed s [] i m e = (i, m)
  stays_noticed s (a ∷ es) i m (n, e) =
      let (i', m') = IsLost-advance fl cv drive a s n i m in
      stays_noticed (advance fl cv drive a s).1 es i' m' e

  noticed_after :
      (s : System F Dev) (es : List (Action F D))
      → s.rover.monitor.agent_connected ≡ false
      → Each AgentSilent es
      → due s.monitor ≤ monitor_accesses es
      → let s' = after fl cv drive s es in IsLost s'.rover × SawNoAgent s'.monitor
  unfolding after advance safety_monitor_set_agent_connected safety_monitor_set_battery_voltage
  noticed_after s [] h e d = absurd (omega (arith, (due-bounds s.monitor).0, d))
  noticed_after s (safety_monitor now ∷ es) h (n, e) d =
      let (h', outcome) = monitor-due now s.monitor s.rover h in
      elim outcome [
        | inl (i, m) ↦ stays_noticed (advance fl cv drive (safety_monitor now) s).1 es i m e
        | inr l ↦
            noticed_after (advance fl cv drive (safety_monitor now) s).1 es h' e
              (omega (arith, l, d))
      ]
  noticed_after s (control_loop inputs ∷ es) h (n, e) d =
      noticed_after (advance fl cv drive (control_loop inputs) s).1 es
        (rw (control_move-frame fl drive inputs s.control s.rover).2 h) e d
  noticed_after s (cmd_vel now twist ∷ es) h (n, e) d =
      noticed_after (advance fl cv drive (cmd_vel now twist) s).1 es
        (rw (callback-monitor now twist s.callback s.rover) h) e d
  noticed_after s (set_agent true ∷ es) h (n, e) d = elim n [ ]
  noticed_after s (set_agent false ∷ es) h (n, e) d =
      noticed_after (advance fl cv drive (set_agent false) s).1 es refl e d
  noticed_after s (request boot ∷ es) h (n, e) d = elim n [ ]
  noticed_after s (a ∷ es) h (n, e) d = noticed_after (advance fl cv drive a s).1 es h e d

  -- If the agent is not connected, then in every run in which the safety monitor makes at least eight
  -- accesses, however the other threads come between them, and in which the agent is not reported
  -- connected and no reset is requested, the fault of the lost agent is set at the end, and the safety
  -- monitor is not about to clear it.
  loss_noticed :
      (s : System F Dev) (es : List (Action F D))
      → s.rover.monitor.agent_connected ≡ false
      → Each AgentSilent es
      → 8 ≤ monitor_accesses es
      → let s' = after fl cv drive s es in
        (holds s'.rover.fault_word agent_lost ≡ true) × SawNoAgent s'.monitor
  loss_noticed s es h e d =
      let (i, m) = noticed_after s es h e (omega (arith, (due-bounds s.monitor).1, d)) in
      (i.noticed, m)

  stays_inhibited :
      (s : System F Dev) (es : List (Action F D))
      → IsLost s.rover
      → SawNoAgent s.monitor
      → Each AgentSilent es
      → Always fl cv drive
          (λ s.
            (state_machine_motion_allowed s.rover.current_state ≡ true → Unit)
            × (Unit → safety_monitor_motion_permitted s.rover.fault_word ≡ true → ⊥))
          s
          es
  unfolding Always
  stays_inhibited s [] i m e = tt
  stays_inhibited s (a ∷ es) i m (n, e) =
      let (i', m') = IsLost-advance fl cv drive a s n i m in
      (
        (λ k. tt, λ q k. IsLost-inhibits fl cv drive s.rover i k),
        stays_inhibited (advance fl cv drive a s).1 es i' m' e,
      )

  -- With the laws of IEEE 754 for zeros, and each thread interrupted by any others between any two of its
  -- accesses to shared data: if the agent is not connected, then after any run in which the safety monitor
  -- makes at least eight accesses, however far the control loop has come, the motors are sent at most four
  -- velocities that are not zero, if throughout the agent is not reported connected and no reset is
  -- requested.
  pub loss_delay :
      KeepsZero fl
      → (s : System F Dev) (es more : List (Action F D)) → s.rover.monitor.agent_connected ≡ false
      → Each AgentSilent es
      → 8 ≤ monitor_accesses es
      → Each AgentSilent more
      → turns fl cv drive (after fl cv drive s es) more ≤ 4
  loss_delay ieee s es more h e d e' =
      let s' = after fl cv drive s es in
      let (i, m) = noticed_after s es h e (omega (arith, (due-bounds s.monitor).1, d)) in
      turns-AtMost fl cv drive ieee Unit 4 s' more (any_pc-AtMost fl Unit s'.control)
        (stays_inhibited s' more i m e')
