-- ===== src/Rover/Interleaved/Serial.antt =====
-- Runs in which no thread interrupts another: they are those of Rover/Threads.
use micro_ros_controller_fir.Prelude.{
  ℕ, suc, ◌≡◌, refl, ap, Bool, true, false, List, [], ◌∷◌, ◌++◌, length,
}
use micro_ros_controller_fir.Prelude.Int.{ℤ}
use micro_ros_controller_fir.Common.Real.{Float, Convert}
use micro_ros_controller_fir.Safety.Monitor.{
  safety_monitor_motion_permitted, safety_monitor_turn, safety_monitor_evaluate,
}
use micro_ros_controller_fir.App.Command.{robot_command_get}
use micro_ros_controller_fir.App.StateMachine.{state_machine_get}
use micro_ros_controller_fir.App.ControlLoop.{MotorDrive}
use micro_ros_controller_fir.Ros.CmdVel.{Twist, is_idle, cmd_vel_callback}
use micro_ros_controller_fir.Rover.State.{Rover}
use micro_ros_controller_fir.Rover.Threads.{
  Event, safety, control, cmd_vel, set_agent, set_battery, request, diagnose, step, final,
}
use micro_ros_controller_fir.Rover.Interleaved.Control.{MotorId, resting}
use micro_ros_controller_fir.Rover.Interleaved.Callback.{waiting, callback_move}
use micro_ros_controller_fir.Rover.Interleaved.Monitor.{asleep, monitor_move}
use micro_ros_controller_fir.Rover.Interleaved.System
use micro_ros_controller_fir.Rover.Interleaved.System.{
  System, Action, control_loop, safety_monitor, advance, after,
}
use micro_ros_controller_fir.Rover.Interleaved.Alone.{sends, control_alone}
use micro_ros_controller_fir.Rover.Interleaved.Leads.{
  repeat, at_rest, sent, Leads, after-append, sent-append, alone-Leads,
}

-- The actions of one event: the accesses of its thread, of which there are `n`, or the one action of a
-- call that holds a lock throughout.
abbrev actions : {F D : Type 0} → Event F D → ℕ → List (Action F D)
actions (safety now) n = repeat n (safety_monitor now)
actions (control now_zero now stack_wheels stack_feedback) n = repeat n (
    control_loop (record {
      now_zero = now_zero;
      now = now;
      stack_wheels = stack_wheels;
      stack_feedback = stack_feedback;
    }))
actions (cmd_vel now twist) n = repeat n (System.cmd_vel now twist)
actions (set_agent connected) n = System.set_agent connected ∷ []
actions (set_battery voltage) n = System.set_battery voltage ∷ []
actions (request new_state) n = System.request new_state ∷ []
actions diagnose n = System.diagnose ∷ []

-- The events one after the other, with the number of accesses of each.
abbrev schedule : {F D : Type 0} → List (Event F D) → List ℕ → List (Action F D)
schedule [] ns = []
schedule (e ∷ es) [] = []
schedule (e ∷ es) (n ∷ ns) = actions e n ++ schedule es ns

module _ {F D Dev : Type 0} (fl : Float F) (cv : Convert F D) (drive : MotorDrive F Dev) where
  -- What the turns hand to the drive, in order.
  handed : Rover F Dev → List (Event F D) → List (MotorId × F)
  handed r [] = []
  handed r (e ∷ es) = sends (step fl cv drive e r).0 ++ handed (step fl cv drive e r).1 es

  callback-Leads :
      (now : ℤ) (twist : Twist D) (r : Rover F Dev) (idles permits : Bool)
      → is_idle r.current_state ≡ idles
      → safety_monitor_motion_permitted r.fault_word ≡ permits
      → (n : ℕ) × Leads fl cv drive
          (at_rest r)
          (repeat n (System.cmd_vel now twist))
          (at_rest (cmd_vel_callback fl cv now twist r))
          []
  unfolding after advance sent callback_move cmd_vel_callback state_machine_get
  callback-Leads now twist r false permits e h = (2, rw e (refl, refl))
  callback-Leads now twist r true false e h = (3, rw (e, h) (refl, refl))
  callback-Leads now twist r true true e h = (4, rw (e, h) (refl, refl))

  -- The accesses of one event, made without an interruption, lead to the state after the event and
  -- send what it hands to the drive.
  event-Leads :
      (e : Event F D) (r : Rover F Dev)
      → (n : ℕ) × Leads fl cv drive
          (at_rest r)
          (actions e n)
          (at_rest (step fl cv drive e r).1)
          (sends (step fl cv drive e r).0)
  unfolding after advance sent step callback_move monitor_move safety_monitor_turn
      safety_monitor_evaluate robot_command_get
  event-Leads (safety now) r = (7, (refl, refl))
  event-Leads (control z now sw sf) r = alone-Leads fl cv drive _ 16 resting r _ _ waiting asleep (
      control_alone fl drive
        (record { now_zero = z; now = now; stack_wheels = sw; stack_feedback = sf }) r)
  event-Leads (cmd_vel now twist) r = callback-Leads now twist r _ _ refl refl
  event-Leads (set_agent connected) r = (0, (refl, refl))
  event-Leads (set_battery voltage) r = (0, (refl, refl))
  event-Leads (request new_state) r = (0, (refl, refl))
  event-Leads diagnose r = (0, (refl, refl))

  -- Every run of whole turns, callbacks and evaluations is a run of their single accesses: if each thread
  -- makes all accesses of an event before any other acts, for some number of accesses, the interleaved
  -- system comes from rest to the same shared state, at rest again, and the motors are sent the same
  -- velocities in the same order.
  serial_runs :
      (r : Rover F Dev) (es : List (Event F D))
      → (ns : List ℕ) × (length ns ≡ length es)
        × (after fl cv drive (at_rest r) (schedule es ns) ≡ at_rest (final fl cv drive r es))
        × (sent fl cv drive (at_rest r) (schedule es ns) ≡ handed r es)
  unfolding after sent handed final
  serial_runs r [] = ([], refl, refl, refl)
  serial_runs r (e ∷ es) =
      let (n, (a, b)) = event-Leads e r in
      let (ns, len, c, d) = serial_runs (step fl cv drive e r).1 es in
      (
        n ∷ ns,
        ap suc len,
        rw (after-append fl cv drive (at_rest r) (actions e n) (schedule es ns), a) c,
        rw (sent-append fl cv drive (at_rest r) (actions e n) (schedule es ns), a, b, d) refl,
      )
