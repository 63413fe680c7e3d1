-- ===== src/Safety/Fault/Tests.antt =====
-- Concrete fault words.
use micro_ros_controller_fir.Prelude.{ℕ, ◌<◌, ◌^◌, ◌≡◌, ◌&&◌, ◌||◌, List, [], ◌∷◌, arith}
use micro_ros_controller_fir.Safety.Fault.{
  FaultBit, cmd_timeout, agent_lost, undervoltage, estop, watchdog, fault_is_set,
  fault_motion_inhibited,
}
use micro_ros_controller_fir.Safety.Fault.Flags.{holds}
use micro_ros_controller_fir.Safety.Fault.View.{
  Call, init, set, clear, calls, fault_after, any_fault, calls-refine,
}

-- Undervoltage and emergency stop are set, overcurrent as well and then cleared.
abbrev cs : List Call
cs = init ∷ set 44 ∷ clear 8 ∷ []

calls-refine_example :
    let active = λ (f : FaultBit). fault_after f (holds 3 f) cs in
    ((bits : ℕ)
      → bits < 2 ^ 7
      → fault_is_set (calls 3 cs) bits ≡ any_fault (λ f. active f && holds bits f))
    × (fault_motion_inhibited (calls 3 cs) ≡ (
        active cmd_timeout
        || active agent_lost
        || active undervoltage
        || active estop
        || active watchdog))
calls-refine_example = calls-refine 3 cs (omega arith, tt)
