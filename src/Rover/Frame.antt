-- ===== src/Rover/Frame.antt =====
-- What the calls leave alone.
use micro_ros_controller_fir.Prelude.{ℕ, ◌≡◌, ◌≢◌, Bool, List, arith}
use micro_ros_controller_fir.Prelude.Int.{ℤ}
use micro_ros_controller_fir.Common.Real.{Float, Convert}
use micro_ros_controller_fir.Common.Types.{RobotCommand}
use micro_ros_controller_fir.Safety.Fault.{FaultBit}
use micro_ros_controller_fir.Safety.Fault.Flags.{holds}
use micro_ros_controller_fir.Safety.Monitor.{Monitor, safety_monitor_turn}
use micro_ros_controller_fir.Safety.Monitor.Verdict.{verdict, evaluate-verdict}
use micro_ros_controller_fir.App.StateMachine.{RobotState, boot, state_machine_transition}
use micro_ros_controller_fir.Ros.CmdVel.{Twist, cmd_vel_callback}
use micro_ros_controller_fir.Rover.State.{Rover}

-- Only a reset writes the fault word.
pub transition-word :
    (s : RobotState) (w : ℕ) (n : RobotState) → n ≢ boot → (state_machine_transition s w n).2 ≡ w
unfolding state_machine_transition
transition-word s w n h = ground arith

-- A turn of the safety monitor leaves each fault as its evaluation decides.
pub turn-verdict :
    {F : Type 0} (fl : Float F) (now : ℤ) (cmd : RobotCommand F) (m : Monitor F) (w : ℕ)
    (checkins : List Bool) (f : FaultBit)
    → holds (safety_monitor_turn fl now cmd m w checkins).1 f ≡ verdict fl now cmd m w f
unfolding safety_monitor_turn
turn-verdict fl now cmd m w checkins f = evaluate-verdict fl now cmd m w checkins f

pub callback-frame :
    {F D Dev : Type 0} (fl : Float F) (cv : Convert F D) (now : ℤ) (twist : Twist D)
    (r : Rover F Dev)
    → let r' = cmd_vel_callback fl cv now twist r in
      (r'.fault_word ≡ r.fault_word) × (r'.monitor ≡ r.monitor)
unfolding cmd_vel_callback state_machine_transition
callback-frame fl cv now twist r = ground arith
