-- ===== src/App/StateMachine/Diagram.antt =====
-- The lifecycle diagram, and that the code allows exactly its edges.
use micro_ros_controller_fir.Prelude.{ℕ, ◌≡◌, refl, arith}
use micro_ros_controller_fir.Common.Types.{eperm, Rc, success, failure}
use micro_ros_controller_fir.Safety.Fault.{fault_init}
use micro_ros_controller_fir.App.StateMachine.{
  RobotState, boot, wait_agent, idle, active, fault, estop, state_machine_transition,
}

-- An edge, with what happens to the fault word along it.
pub data Edge (word : ℕ) : RobotState → RobotState → ℕ → Type 0 where
  start : Edge word boot wait_agent word
  connect : Edge word wait_agent idle word
  fail_waiting : Edge word wait_agent fault word
  activate : Edge word idle active word
  fail_idle : Edge word idle fault word
  disconnect : Edge word idle wait_agent word
  rest : Edge word active idle word
  fail_active : Edge word active fault word
  reset_fault : Edge word fault boot fault_init
  reset_estop : Edge word estop boot fault_init
  stop : {s : RobotState} → Edge word s estop word

-- Along an edge the transition succeeds, moves to the requested state, and treats the fault word as
-- the edge says.
pub Edge-transition :
    {w w' : ℕ} {s n : RobotState}
    → Edge w s n w'
    → state_machine_transition s w n ≡ (success, n, w')
unfolding state_machine_transition
Edge-transition start = refl
Edge-transition connect = refl
Edge-transition fail_waiting = refl
Edge-transition activate = refl
Edge-transition fail_idle = refl
Edge-transition disconnect = refl
Edge-transition rest = refl
Edge-transition fail_active = refl
Edge-transition reset_fault = refl
Edge-transition reset_estop = refl
Edge-transition stop = refl

-- The answers that the diagram allows.
pub data Answer (s : RobotState) (w : ℕ) (n : RobotState) : Rc × RobotState × ℕ → Type 0 where
  allowed : {w' : ℕ} → Edge w s n w' → Answer s w n (success, n, w')
  refused : ((w' : ℕ) → ¬ Edge w s n w') → Answer s w n (failure eperm, s, w)

-- In every state a request follows an edge of the diagram, and then the state becomes the requested one
-- and the fault word what the edge says, or there is no such edge and it is refused with -EPERM and
-- changes neither the state nor the fault word.
pub transition-Answer :
    (s : RobotState) (w : ℕ) (n : RobotState) → Answer s w n (state_machine_transition s w n)
unfolding state_machine_transition
transition-Answer boot w wait_agent = allowed start
transition-Answer wait_agent w idle = allowed connect
transition-Answer wait_agent w fault = allowed fail_waiting
transition-Answer idle w active = allowed activate
transition-Answer idle w fault = allowed fail_idle
transition-Answer idle w wait_agent = allowed disconnect
transition-Answer active w idle = allowed rest
transition-Answer active w fault = allowed fail_active
transition-Answer fault w boot = allowed reset_fault
transition-Answer estop w boot = allowed reset_estop
transition-Answer s w estop = allowed stop
transition-Answer s w n = refused (λ w' h. ground (arith, Edge-transition h))
