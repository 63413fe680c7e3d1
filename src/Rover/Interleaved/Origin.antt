-- ===== src/Rover/Interleaved/Origin.antt =====
-- Where the velocities that the motors are sent come from.
use micro_ros_controller_fir.Prelude.{◌≡◌, refl, Option, none, some, List, [], ◌∷◌}
use micro_ros_controller_fir.Prelude.Int.{ℤ}
use micro_ros_controller_fir.Common.Real.{Float, Convert}
use micro_ros_controller_fir.Common.Clamp.{clamp}
use micro_ros_controller_fir.Common.Types.{success, Motors, RobotCommand}
use micro_ros_controller_fir.Common.Params.{
  zero_f, max_linear_velocity_m_s, max_angular_velocity_rad_s,
}
use micro_ros_controller_fir.App.Command.{robot_command_set, robot_command_zero}
use micro_ros_controller_fir.App.Kinematics.{kinematics_compute_wheel_velocities}
use micro_ros_controller_fir.App.ControlLoop.{MotorDrive}
use micro_ros_controller_fir.Ros.CmdVel.{Twist, command_of}
use micro_ros_controller_fir.Rover.State.{Rover}
use micro_ros_controller_fir.Rover.Interleaved.Control.{
  MotorId, Inputs, ControlPc, resting, fetched, allowed, refused, sending, reading, notifying,
  recording, integrating, checking_in, wheels_of, control_move,
}
use micro_ros_controller_fir.Rover.Interleaved.Callback.{
  CallbackPc, waiting, stored, was_idle, permitted, callback_move,
}
use micro_ros_controller_fir.Rover.Interleaved.Monitor.{
  MonitorPc, asleep, has_command, timeout_decided, has_inputs, agent_decided, battery_decided,
  evaluated, monitor_move,
}
use micro_ros_controller_fir.Rover.Interleaved.System.{
  System, Action, control_loop, cmd_vel, safety_monitor, advance, Each,
}
use micro_ros_controller_fir.Rover.Interleaved.Keeps.{Keeps, IfSome, Among, control-Keeps}
use micro_ros_controller_fir.Rover.Interleaved.Leads.{note, sent}

abbrev pub All : {A : Type 0} → (A → Type 0) → List A → Type 0
All P [] = Unit {0}
All P (x ∷ xs) = P x × All P xs

All-note :
    {A : Type 0} (P : A → Type 0) (o : Option A) (xs : List A)
    → IfSome P o
    → All P xs
    → All P (note o xs)
All-note P none xs h k = k
All-note P (some x) xs h k = (h, k)

-- `S` tells of which pairs of a linear and an angular velocity a command may consist.
module _ {F : Type 0} (fl : Float F) (S : F → F → Type 0) where
  abbrev pub Allows : RobotCommand F → Type 0
  Allows cmd = S cmd.linear_x cmd.angular_z

  -- Wheel velocities that the kinematics computes for one such command.
  abbrev pub FromCommand : Motors F → Type 0
  FromCommand w =
      (cmd : RobotCommand F) × Allows cmd
      × ((out : Motors F)
          → kinematics_compute_wheel_velocities fl (some cmd) (some out) ≡ (success, some w))

  -- A velocity that is its motor's among such wheel velocities.
  abbrev pub Computed : MotorId × F → Type 0
  Computed s = Among FromCommand s

  abbrev Holds : ControlPc F → Type 0
  Holds pc = Keeps Allows Allows FromCommand pc

  -- The limited velocities of a velocity command are such a pair.
  abbrev pub Commands : {D : Type 0} → Convert F D → Action F D → Type 0
  Commands cv (cmd_vel now twist) =
      S (clamp fl (max_linear_velocity_m_s fl) (cv.narrow twist.linear_x))
        (clamp fl (max_angular_velocity_rad_s fl) (cv.narrow twist.angular_z))
  Commands cv a = Unit {0}

  module _ {Dev : Type 0} (drive : MotorDrive F Dev) (inputs : Inputs F) where
    wheels_of-FromCommand :
        (cmd : RobotCommand F) → Allows cmd → FromCommand (wheels_of fl drive inputs cmd)
    unfolding wheels_of kinematics_compute_wheel_velocities
    wheels_of-FromCommand cmd s = (cmd, s, λ out. refl)

    control-Allows :
        S (zero_f fl) (zero_f fl)
        → (pc : ControlPc F) (r : Rover F Dev) → Allows r.cmd_target
        → Allows (control_move fl drive inputs pc r).1.cmd_target
    unfolding control_move robot_command_zero
    control-Allows z resting r t = t
    control-Allows z (fetched cmd) r t = t
    control-Allows z (allowed cmd) r t = t
    control-Allows z (refused cmd) r t = z
    control-Allows z (sending i w) r t = t
    control-Allows z (reading i w f) r t = t
    control-Allows z (notifying w f) r t = t
    control-Allows z (recording w f) r t = t
    control-Allows z integrating r t = t
    control-Allows z checking_in r t = t

    control-Computed :
        S (zero_f fl) (zero_f fl)
        → (pc : ControlPc F) (r : Rover F Dev) → Allows r.cmd_target
        → Holds pc
        → let (o, r', pc') = control_move fl drive inputs pc r in
          IfSome Computed o × Allows r'.cmd_target × Holds pc'
    control-Computed z pc r t h =
        let (sent, kept) =
          control-Keeps fl drive inputs Allows Allows FromCommand pc r t (λ c s k. s)
            (λ c s k. wheels_of-FromCommand c s) (λ c. wheels_of-FromCommand _ z) h in
        (sent, control-Allows z pc r t, kept)

  callback-Allows :
      {D Dev : Type 0} (cv : Convert F D) (now : ℤ) (twist : Twist D) (pc : CallbackPc)
      (r : Rover F Dev)
      → Commands cv (cmd_vel now twist)
      → Allows r.cmd_target
      → Allows (callback_move fl cv now twist pc r).0.cmd_target
  unfolding callback_move robot_command_set command_of
  callback-Allows cv now twist waiting r c t = c
  callback-Allows cv now twist stored r c t = t
  callback-Allows cv now twist was_idle r c t = t
  callback-Allows cv now twist permitted r c t = t

  monitor-Allows :
      {Dev : Type 0} (now : ℤ) (pc : MonitorPc F) (r : Rover F Dev)
      → Allows r.cmd_target
      → Allows (monitor_move fl now pc r).0.cmd_target
  unfolding monitor_move
  monitor-Allows now asleep r t = t
  monitor-Allows now (has_command cmd) r t = t
  monitor-Allows now timeout_decided r t = t
  monitor-Allows now (has_inputs c v) r t = t
  monitor-Allows now (agent_decided v) r t = t
  monitor-Allows now battery_decided r t = t
  monitor-Allows now evaluated r t = t

module _ {F D Dev : Type 0} (fl : Float F) (cv : Convert F D) (drive : MotorDrive F Dev)
    (S : F → F → Type 0) where
  step-Computed :
      S (zero_f fl) (zero_f fl)
      → (a : Action F D) (s : System F Dev) → Commands fl S cv a
      → Allows fl S s.rover.cmd_target
      → Holds fl S s.control
      → let (o, s') = advance fl cv drive a s in
        IfSome (Computed fl S) o × Allows fl S s'.rover.cmd_target × Holds fl S s'.control
  unfolding advance
  step-Computed z (control_loop inputs) s c t h =
      control-Computed fl S drive inputs z s.control s.rover t h
  step-Computed z (cmd_vel now twist) s c t h =
      (tt, callback-Allows fl S cv now twist s.callback s.rover c t, h)
  step-Computed z (safety_monitor now) s c t h =
      (tt, monitor-Allows fl S now s.monitor s.rover t, h)
  step-Computed z a s c t h = (tt, t, h)

  run-Computed :
      S (zero_f fl) (zero_f fl)
      → (s : System F Dev) (es : List (Action F D)) → Allows fl S s.rover.cmd_target
      → Holds fl S s.control
      → Each (Commands fl S cv) es
      → All (Computed fl S) (sent fl cv drive s es)
  unfolding sent
  run-Computed z s [] t h c = tt
  run-Computed z s (a ∷ es) t h (c, cs) =
      let (o, t', h') = step-Computed z a s c t h in
      All-note (Computed fl S) _ _ o (run-Computed z (advance fl cv drive a s).1 es t' h' cs)

  -- With each thread interrupted by any others between any two of its accesses to shared data, and from a
  -- state in which the control loop is at the start of a turn: if some property of pairs of a linear and
  -- an angular velocity holds of the command target, of the limited velocities of every velocity command
  -- and of a pair of zeros, then every velocity that is sent to a motor is what the kinematics computes for
  -- that motor from one pair of which it holds.
  pub sent-Computed :
      S (zero_f fl) (zero_f fl)
      → (s : System F Dev) (es : List (Action F D)) → s.control ≡ resting
      → S s.rover.cmd_target.linear_x s.rover.cmd_target.angular_z
      → Each (Commands fl S cv) es
      → All (Computed fl S) (sent fl cv drive s es)
  sent-Computed z s es pc t c = run-Computed z s es t (rw pc tt) c
