-- ===== src/App/Command/Limits.antt =====
-- The limits that the command target keeps.
use micro_ros_controller_fir.Prelude.{◌≡◌, true, Option, none, some, List, [], ◌∷◌, arith}
use micro_ros_controller_fir.Prelude.Int.{ℤ}
use micro_ros_controller_fir.Common.Real.{Float, IsOrdered}
use micro_ros_controller_fir.Common.Clamp.{clamp, Within, clamp-Within, zero-Within}
use micro_ros_controller_fir.Common.Types.{success, RobotCommand}
use micro_ros_controller_fir.Common.Params.{max_linear_velocity_m_s, max_angular_velocity_rad_s}
use micro_ros_controller_fir.App.Command.{robot_command_init, robot_command_set, robot_command_zero}

-- A call that writes the target.
pub data Write (F : Type 0) : Type 0 where
  set : ℤ → Option (RobotCommand F) → Write F
  zero : ℤ → Write F

-- The target after a sequence of such calls.
pub writes : {F : Type 0} → Float F → RobotCommand F → List (Write F) → RobotCommand F
writes fl t [] = t
writes fl t (set now cmd ∷ ops) = writes fl (robot_command_set fl now cmd t).1 ops
writes fl t (zero now ∷ ops) = writes fl (robot_command_zero fl now) ops

module _ {F : Type 0} (fl : Float F) where
  module _ (ieee : IsOrdered fl) where
    abbrev pub InLimits : RobotCommand F → Type 0
    InLimits c =
        Within fl (max_linear_velocity_m_s fl) c.linear_x
        × Within fl (max_angular_velocity_rad_s fl) c.angular_z

    pub set-InLimits :
        (now : ℤ) (cmd t : RobotCommand F) → InLimits (robot_command_set fl now (some cmd) t).1
    unfolding robot_command_set
    set-InLimits now cmd t = (
      clamp-Within fl ieee 1 0 cmd.linear_x (omega arith) (omega arith),
      clamp-Within fl ieee 2 0 cmd.angular_z (omega arith) (omega arith),
    )

    pub zero-InLimits : (now : ℤ) → InLimits (robot_command_zero fl now)
    unfolding robot_command_zero
    zero-InLimits now = (
      zero-Within fl ieee 1 0 (omega arith) (omega arith),
      zero-Within fl ieee 2 0 (omega arith) (omega arith),
    )

    writes-InLimits :
        (t : RobotCommand F) (ops : List (Write F)) → InLimits t → InLimits (writes fl t ops)
    unfolding writes robot_command_set
    writes-InLimits t [] h = h
    writes-InLimits t (set now none ∷ ops) h = writes-InLimits t ops h
    writes-InLimits t (set now (some cmd) ∷ ops) h =
        writes-InLimits (robot_command_set fl now (some cmd) t).1 ops (set-InLimits now cmd t)
    writes-InLimits t (zero now ∷ ops) h =
        writes-InLimits (robot_command_zero fl now) ops (zero-InLimits now)

    -- With the order of IEEE 754: after any sequence of calls that write the target since it was
    -- initialised, neither of its velocities is above its limit or below the limit's negation.
    pub run-InLimits : (ops : List (Write F)) → InLimits (writes fl (robot_command_init fl).1 ops)
    unfolding robot_command_init
    run-InLimits ops = writes-InLimits _ ops (
      zero-Within fl ieee 1 0 (omega arith) (omega arith),
      zero-Within fl ieee 2 0 (omega arith) (omega arith),
    )

  -- A command whose two velocities are neither above nor below their limits is stored as it is, with the
  -- time of its arrival and as valid.
  set_keeps :
      (now : ℤ) (cmd t : RobotCommand F)
      → Within fl (max_linear_velocity_m_s fl) cmd.linear_x
      → Within fl (max_angular_velocity_rad_s fl) cmd.angular_z
      → robot_command_set fl now (some cmd) t
        ≡ (success, record cmd { timestamp_ms = now; valid = true })
  unfolding robot_command_set clamp
  set_keeps now cmd t h k = ground arith
