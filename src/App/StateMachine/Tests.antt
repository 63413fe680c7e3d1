-- ===== src/App/StateMachine/Tests.antt =====
-- Concrete requests.
use micro_ros_controller_fir.Prelude.{◌≡◌, refl, [], ◌∷◌}
use micro_ros_controller_fir.App.StateMachine.{
  boot, wait_agent, idle, active, estop, switch_state, state_machine_transition,
}
use micro_ros_controller_fir.App.StateMachine.Diagram.{Answer, transition-Answer}
use micro_ros_controller_fir.App.StateMachine.Recovery.{
  Subsequence, way_up, requests, active_needs_way_up,
}

transition-Answer_example : Answer estop 32 active (state_machine_transition estop 32 active)
transition-Answer_example = transition-Answer estop 32 active

up_from_estop :
    (requests estop 32 (active ∷ boot ∷ wait_agent ∷ active ∷ idle ∷ active ∷ [])).0 ≡ active
unfolding requests state_machine_transition switch_state
up_from_estop = refl

active_needs_way_up_example :
    Subsequence (way_up estop) (active ∷ boot ∷ wait_agent ∷ active ∷ idle ∷ active ∷ [])
active_needs_way_up_example =
    active_needs_way_up estop 32 (active ∷ boot ∷ wait_agent ∷ active ∷ idle ∷ active ∷ [])
      up_from_estop
