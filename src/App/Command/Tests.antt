-- ===== src/App/Command/Tests.antt =====
-- A concrete history of the command target.
use micro_ros_controller_fir.Prelude.{none, some, List, [], ◌∷◌}
use micro_ros_controller_fir.Prelude.Int.{pos}
use micro_ros_controller_fir.App.Command.{robot_command_init}
use micro_ros_controller_fir.App.Command.Limits.{Write, set, zero, writes, InLimits, run-InLimits}
use micro_ros_controller_fir.Instances.FixedPoint.{Fixed, fixed, literal}
use micro_ros_controller_fir.Instances.FixedPointLaws.{fixed-IsOrdered}
use micro_ros_controller_fir.Instances.Robot.{gentle}

abbrev history : List (Write Fixed)
history =
    set (pos 5) (some (record gentle { linear_x = literal 70 0 }))
    ∷ zero (pos 6)
    ∷ set (pos 7) none
    ∷ []

run-InLimits_example :
    InLimits fixed fixed-IsOrdered (writes fixed (robot_command_init fixed).1 history)
run-InLimits_example = run-InLimits fixed fixed-IsOrdered history
