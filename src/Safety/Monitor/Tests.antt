-- ===== src/Safety/Monitor/Tests.antt =====
-- A concrete evaluation.
use micro_ros_controller_fir.Prelude.{◌≡◌, false, [], ◌∷◌}
use micro_ros_controller_fir.Prelude.Int.{pos}
use micro_ros_controller_fir.Safety.Fault.{agent_lost}
use micro_ros_controller_fir.Safety.Fault.Flags.{holds}
use micro_ros_controller_fir.Safety.Monitor.{safety_monitor_evaluate}
use micro_ros_controller_fir.Safety.Monitor.Verdict.{verdict, evaluate-verdict}
use micro_ros_controller_fir.Instances.FixedPoint.{fixed}
use micro_ros_controller_fir.Instances.Robot.{gentle, healthy_monitor}

evaluate-verdict_example :
    holds
      (safety_monitor_evaluate fixed (pos 1100) gentle healthy_monitor 3 (false ∷ false ∷ [])).0
      agent_lost
    ≡ verdict fixed (pos 1100) gentle healthy_monitor 3 agent_lost
evaluate-verdict_example =
    evaluate-verdict fixed (pos 1100) gentle healthy_monitor 3 (false ∷ false ∷ []) agent_lost
