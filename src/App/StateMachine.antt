-- ===== src/App/StateMachine.antt =====
-- The lifecycle state machine (apps/rover_controller/src/app/state_machine.c, state_machine.h). A
-- transition takes and returns `current_state` and the fault word, which a reset clears. A
-- `RobotState` is always one of the enumerators, so the `default` case of the switch has no clause.
pub mod Diagram
pub mod Recovery
mod Tests
use micro_ros_controller_fir.Prelude.{ℕ, Bool, true, false}
use micro_ros_controller_fir.Common.Types.{Errno, eperm, Rc, success, failure}
use micro_ros_controller_fir.Safety.Fault.{fault_init}

pub data RobotState : Type 0 where
  boot wait_agent idle active fault estop : RobotState

unfoldable pub state_machine_init : RobotState
state_machine_init = boot

-- The switch over the old state, once the request is known not to be ESTOP.
unfoldable pub switch_state : RobotState → ℕ → RobotState → Rc × RobotState × ℕ
switch_state boot fault_word wait_agent = (success, wait_agent, fault_word)
switch_state wait_agent fault_word idle = (success, idle, fault_word)
switch_state wait_agent fault_word fault = (success, fault, fault_word)
switch_state idle fault_word active = (success, active, fault_word)
switch_state idle fault_word fault = (success, fault, fault_word)
switch_state idle fault_word wait_agent = (success, wait_agent, fault_word)
switch_state active fault_word idle = (success, idle, fault_word)
switch_state active fault_word fault = (success, fault, fault_word)
switch_state fault fault_word boot = (success, boot, fault_init)
switch_state estop fault_word boot = (success, boot, fault_init)
switch_state old_state fault_word new_state = (failure eperm, old_state, fault_word)

unfoldable pub state_machine_transition : RobotState → ℕ → RobotState → Rc × RobotState × ℕ
unfolding switch_state
state_machine_transition current_state fault_word estop = (success, estop, fault_word)
state_machine_transition current_state fault_word new_state =
    switch_state current_state fault_word new_state

unfoldable pub state_machine_get : RobotState → RobotState
state_machine_get current_state = current_state

-- `state == ROBOT_STATE_ACTIVE`
abbrev pub is_active : RobotState → Bool
is_active active = true
is_active _ = false

unfoldable pub state_machine_motion_allowed : RobotState → Bool
unfolding state_machine_get
state_machine_motion_allowed current_state = is_active (state_machine_get current_state)
