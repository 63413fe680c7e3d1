-- ===== src/Rover/PaceTests.antt =====
-- Timed runs of a concrete robot.
use micro_ros_controller_fir.Prelude.{
  ℕ, ◌+◌, ◌*◌, ◌≤◌, ◌≡◌, refl, true, false, [], ◌∷◌, length, arith,
}
use micro_ros_controller_fir.Prelude.Int.{pos}
use micro_ros_controller_fir.Rover.State.{Rover}
use micro_ros_controller_fir.Rover.Threads.{Event, safety, control, cmd_vel}
use micro_ros_controller_fir.Rover.Feeding.{feedings, feedings-controlled}
use micro_ros_controller_fir.Rover.Pace.{
  Timed, untimed, NoTwoMissed, fed_rounds, control_loop, safety_monitor, Within, Apart,
  two_rounds-fed, fed_rounds-bound,
}
use micro_ros_controller_fir.Instances.FixedPoint.{Fixed, fixed, fixed_conversions, literal}
use micro_ros_controller_fir.Instances.Robot.{all_four, no_feedback, counting_drive, driving, ahead}

abbrev turn : Event Fixed Fixed
turn = control (pos 2000) (pos 2001) (all_four (literal 0 0)) (all_four no_feedback)

-- Nobody has checked in.
abbrev unchecked : Rover Fixed ℕ
unchecked = record driving { checkins = false ∷ false ∷ [] }

-- The control loop makes a turn every 30 ms, the safety monitor one every 20 ms.
abbrev slower : Timed Fixed Fixed
slower =
    (15, cmd_vel (pos 1000) ahead)
    ∷ (5, safety (pos 1005))
    ∷ (10, turn)
    ∷ (10, safety (pos 1025))
    ∷ (20, safety (pos 1045))
    ∷ (0, turn)
    ∷ (20, safety (pos 1065))
    ∷ []

slower-Within : Within control_loop 30 0 slower × Within safety_monitor 20 0 slower
slower-Within = (omega arith, omega arith)

slower-Apart : Apart control_loop 30 0 slower × Apart safety_monitor 20 0 slower
slower-Apart = (ground arith, ground arith)

two_rounds-fed_example :
    NoTwoMissed true (feedings fixed fixed_conversions counting_drive unchecked (untimed slower))
two_rounds-fed_example =
    two_rounds-fed fixed fixed_conversions counting_drive unchecked false false 30 0 0 slower refl
      (λ e. omega arith) (omega arith) slower-Within.0 slower-Apart.1

fed_rounds-bound_example :
    let fed = feedings fixed fixed_conversions counting_drive unchecked (untimed slower) in
    fed_rounds fed * 30 ≤ length fed * 20 + 0
fed_rounds-bound_example =
    fed_rounds-bound fixed fixed_conversions counting_drive unchecked false 30 20 0 0 slower refl
      slower-Apart.0 slower-Within.1

-- Two of the four rounds are fed.
slower_result :
    feedings fixed fixed_conversions counting_drive unchecked (untimed slower)
    ≡ false ∷ true ∷ false ∷ true ∷ []
slower_result =
    feedings-controlled fixed fixed_conversions counting_drive unchecked false false
      (untimed slower) refl
