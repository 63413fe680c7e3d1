-- ===== src/Rover/Interleaved/Alone.antt =====
-- A thread that is not interrupted: its accesses make up the call that they belong to.
use micro_ros_controller_fir.Prelude.{
  ℕ, zero, suc, ◌≡◌, refl, sym, ap, ◌∙◌, if◌then◌else◌, Bool, true, false, Option, none, some, List,
  [], ◌∷◌, arith, inl, inr, Bool-cases,
}
use micro_ros_controller_fir.Prelude.Int.{ℤ}
use micro_ros_controller_fir.Common.Real.{Float, Convert}
use micro_ros_controller_fir.App.Command.{robot_command_get, robot_command_zero}
use micro_ros_controller_fir.Common.Types.{Motors, RobotCommand}
use micro_ros_controller_fir.Safety.Monitor.{
  safety_monitor_turn, safety_monitor_motion_permitted, safety_monitor_evaluate,
}
use micro_ros_controller_fir.App.StateMachine.{state_machine_motion_allowed}
use micro_ros_controller_fir.App.ControlLoop.{
  MotorDrive, control_loop_run_once, exchange, record_wheels, select_command, send_velocities,
  read_feedback,
}
use micro_ros_controller_fir.App.ControlLoop.Motion.{select_halted, select_moving}
use micro_ros_controller_fir.Ros.CmdVel.{Twist, cmd_vel_callback}
use micro_ros_controller_fir.Rover.State.{Rover}
use micro_ros_controller_fir.Rover.Interleaved.Control.{
  MotorId, front_left, front_right, rear_left, rear_right, Inputs, ControlPc, resting, fetched,
  allowed, refused, wheels_of, begin_exchange, control_move, zeroed,
}
use micro_ros_controller_fir.Rover.Interleaved.Callback.{CallbackPc, waiting, callback_move}
use micro_ros_controller_fir.Rover.Interleaved.Monitor.{MonitorPc, asleep, monitor_move}

-- What was sent, and the shared data after it; `none` means that the fuel ran out.
abbrev pub Trace : Type 0 → Type 0 → Type 0
Trace F Dev = Option (List (MotorId × F) × Rover F Dev)

abbrev pub collect : {F Dev : Type 0} → Option (MotorId × F) → Trace F Dev → Trace F Dev
collect none rest = rest
collect (some s) none = none
collect (some s) (some (ss, r)) = some (s ∷ ss, r)

-- The turn is over when the thread is back at its first access.
abbrev pub until_resting :
    {F Dev : Type 0}
    → (ControlPc F → Rover F Dev → Trace F Dev)
    → ControlPc F
    → Rover F Dev
    → Trace F Dev
until_resting more resting r = some ([], r)
until_resting more pc r = more pc r

-- What the calls of `motor_drive_set_velocity` amount to.
abbrev pub sends : {F : Type 0} → Option (Motors F) → List (MotorId × F)
sends none = []
sends (some w) =
    (front_left, w.front_left)
    ∷ (front_right, w.front_right)
    ∷ (rear_left, w.rear_left)
    ∷ (rear_right, w.rear_right)
    ∷ []

abbrev twelve_more : ℕ → ℕ
twelve_more k = suc (suc (suc (suc (suc (suc (suc (suc (suc (suc (suc (suc k)))))))))))

module _ {F Dev : Type 0} (fl : Float F) (drive : MotorDrive F Dev) (inputs : Inputs F) where
  open inputs use {now_zero, now, stack_wheels, stack_feedback}

  -- The accesses of one turn, from a given one on, without an interruption.
  unfoldable pub alone : ℕ → ControlPc F → Rover F Dev → Trace F Dev
  unfolding control_move
  alone zero pc r = none
  alone (suc k) pc r =
      let (sent, r', pc') = control_move fl drive inputs pc r in
      collect sent (until_resting (alone k) pc' r')

  -- The turn from the exchange with the drive on.
  exchange-alone :
      (k : ℕ) (o : Option Dev) (wheels : Motors F) (r : Rover F Dev)
      → let (sent, feedback, r') =
          exchange fl drive o wheels stack_feedback (record r { motor_dev = o }) in
        until_resting
          (alone (twelve_more k))
          (begin_exchange fl drive inputs o wheels)
          (record r { motor_dev = o })
        ≡ some (sends sent, record_wheels fl drive now wheels feedback r')
  unfolding alone exchange record_wheels send_velocities read_feedback
  exchange-alone k none wheels r = refl
  exchange-alone k (some dev) wheels r = refl

  alone-fetch :
      (n : ℕ) (r : Rover F Dev) → alone (suc n) resting r ≡ alone n (fetched r.cmd_target) r
  unfolding alone robot_command_get
  alone-fetch n r = refl

  alone-state :
      (n : ℕ) (cmd : RobotCommand F) (r : Rover F Dev) (b : Bool)
      → state_machine_motion_allowed r.current_state ≡ b
      → alone (suc n) (fetched cmd) r ≡ alone n (if b then allowed cmd else refused cmd) r
  unfolding alone
  alone-state n cmd r true h = rw h refl
  alone-state n cmd r false h = rw h refl

  alone-faults :
      (n : ℕ) (cmd : RobotCommand F) (r : Rover F Dev) (b : Bool)
      → safety_monitor_motion_permitted r.fault_word ≡ b
      → alone (suc n) (allowed cmd) r ≡ (
          if b
          then until_resting
              (alone n)
              (begin_exchange fl drive inputs r.motor_dev (wheels_of fl drive inputs cmd))
              r
          else alone n (refused cmd) r)
  unfolding alone
  alone-faults n cmd r true h = rw h refl
  alone-faults n cmd r false h = rw h refl

  alone-refused :
      (n : ℕ) (cmd : RobotCommand F) (r : Rover F Dev)
      → let target = robot_command_zero fl now_zero in
        alone (suc n) (refused cmd) r
        ≡ until_resting
            (alone n)
            (begin_exchange fl drive inputs r.motor_dev
              (wheels_of fl drive inputs (zeroed fl drive inputs cmd)))
            (record r { cmd_target = target })
  unfolding alone
  alone-refused n cmd r = refl

  -- What a turn amounts to once the command is selected.
  abbrev outcome : RobotCommand F × Rover F Dev → Trace F Dev
  outcome (cmd, r₁) =
      let wheels = wheels_of fl drive inputs cmd in
      let (sent, feedback, r₂) = exchange fl drive r₁.motor_dev wheels stack_feedback r₁ in
      some (sends sent, record_wheels fl drive now wheels feedback r₂)

  run_once-outcome :
      (r : Rover F Dev)
      → let (sent, r') =
          control_loop_run_once fl drive now_zero now stack_wheels stack_feedback r in
        some (sends sent, r') ≡ outcome (select_command fl now_zero r)
  unfolding control_loop_run_once wheels_of
  run_once-outcome r = refl

  -- Without an interruption the accesses of the control loop come to an end after at most 16, and send
  -- and change exactly what `control_loop_run_once` does.
  pub control_alone :
      (r : Rover F Dev)
      → let (sent, r') =
          control_loop_run_once fl drive now_zero now stack_wheels stack_feedback r in
        alone 16 resting r ≡ some (sends sent, r')
  control_alone r =
      let cmd = r.cmd_target in
      let halted = record r { cmd_target = robot_command_zero fl now_zero } in
      rw (run_once-outcome, alone-fetch 15 r)
        elim (Bool-cases (state_machine_motion_allowed r.current_state)) [
          | inr idle ↦
              alone-state 14 cmd r false idle
              ∙ (alone-refused 13 cmd r
                  ∙ (exchange-alone 1 r.motor_dev _ halted
                      ∙ ap outcome (sym (select_halted fl drive now_zero r (ground arith)))))
          | inl go ↦ elim (Bool-cases (safety_monitor_motion_permitted r.fault_word)) [
            | inr inhibited ↦
                alone-state 14 cmd r true go
                ∙ (alone-faults 13 cmd r false inhibited
                    ∙ (alone-refused 12 cmd r
                        ∙ (exchange-alone 0 r.motor_dev _ halted
                            ∙ ap outcome (sym (select_halted fl drive now_zero r (ground arith))))))
            | inl clear ↦
                alone-state 14 cmd r true go
                ∙ (alone-faults 13 cmd r true clear
                    ∙ (exchange-alone 1 r.motor_dev _ r
                        ∙ ap outcome (sym (select_moving fl drive now_zero r (ground arith)))))
          ]
        ]

abbrev until_waiting : {R : Type 0} → (CallbackPc → R → Option R) → CallbackPc → R → Option R
until_waiting more waiting r = some r
until_waiting more pc r = more pc r

module _ {F D Dev : Type 0} (fl : Float F) (cv : Convert F D) (now : ℤ) (twist : Twist D) where
  -- The accesses of one callback, without an interruption.
  unfoldable callback_alone : ℕ → CallbackPc → Rover F Dev → Option (Rover F Dev)
  unfolding callback_move
  callback_alone zero pc r = none
  callback_alone (suc k) pc r =
      let (r', pc') = callback_move fl cv now twist pc r in until_waiting (callback_alone k) pc' r'

abbrev until_asleep : {F R : Type 0} → (MonitorPc F → R → Option R) → MonitorPc F → R → Option R
until_asleep more asleep r = some r
until_asleep more pc r = more pc r

module _ {F Dev : Type 0} (fl : Float F) (now : ℤ) where
  -- The accesses of one evaluation of the safety monitor, without an interruption.
  unfoldable monitor_alone : ℕ → MonitorPc F → Rover F Dev → Option (Rover F Dev)
  unfolding monitor_move
  monitor_alone zero pc r = none
  monitor_alone (suc k) pc r =
      let (r', pc') = monitor_move fl now pc r in until_asleep (monitor_alone k) pc' r'

module _ {F D Dev : Type 0} (fl : Float F) (cv : Convert F D) where
  -- Without an interruption the accesses of the velocity callback, four at most, and those of an
  -- evaluation of the safety monitor, seven, come to an end, and change exactly what `cmd_vel_callback`
  -- and a turn of the safety monitor do.
  handlers_alone :
      (now : ℤ) (twist : Twist D) (r : Rover F Dev)
      → let (fed, word, checkins) =
          safety_monitor_turn fl now r.cmd_target r.monitor r.fault_word r.checkins in
        (callback_alone fl cv now twist 4 waiting r ≡ some (cmd_vel_callback fl cv now twist r))
        × (monitor_alone fl now 7 asleep r
            ≡ some (record r { fault_word = word; checkins = checkins }))
  unfolding callback_alone cmd_vel_callback callback_move monitor_alone safety_monitor_turn
      safety_monitor_evaluate monitor_move robot_command_get
  handlers_alone now twist r = (ground arith, refl)
