-- ===== src/App/StateMachine/Recovery.antt =====
-- Sequences of requests: what it takes to become ACTIVE.
use micro_ros_controller_fir.Prelude.{ℕ, ◌≡◌, refl, List, [], ◌∷◌, arith}
use micro_ros_controller_fir.App.StateMachine.{
  RobotState, boot, wait_agent, idle, active, fault, estop, state_machine_transition,
}

-- A list with some of its elements left out.
pub data Subsequence {A : Type 0} : List A → List A → Type 0 where
  done : Subsequence [] []
  keep : {x y : A} {xs ys : List A} → x ≡ y → Subsequence xs ys → Subsequence (x ∷ xs) (y ∷ ys)
  skip : {y : A} {xs ys : List A} → Subsequence xs ys → Subsequence xs (y ∷ ys)

-- The state after a sequence of requests; refused ones change nothing.
unfoldable pub requests : RobotState → ℕ → List RobotState → RobotState × ℕ
requests s w [] = (s, w)
requests s w (n ∷ ns) = let (rc, s', w') = state_machine_transition s w n in requests s' w' ns

-- The requests that are still needed on the way to ACTIVE.
abbrev pub way_up : RobotState → List RobotState
way_up active = []
way_up idle = active ∷ []
way_up wait_agent = idle ∷ active ∷ []
way_up boot = wait_agent ∷ idle ∷ active ∷ []
way_up _ = boot ∷ wait_agent ∷ idle ∷ active ∷ []

Subsequence-nil : {A : Type 0} (ys : List A) → Subsequence [] ys
Subsequence-nil [] = done
Subsequence-nil (y ∷ ys) = skip (Subsequence-nil ys)

Subsequence-tail :
    {A : Type 0} {x : A} {xs ys : List A} → Subsequence (x ∷ xs) ys → Subsequence xs ys
Subsequence-tail (keep e s) = skip s
Subsequence-tail (skip s) = skip (Subsequence-tail s)

-- One request takes at most the first element off the way.
step_up :
    (s : RobotState) (w : ℕ) (n : RobotState) (ns : List RobotState)
    → Subsequence (way_up (state_machine_transition s w n).1) ns
    → Subsequence (way_up s) (n ∷ ns)
unfolding state_machine_transition
step_up boot w wait_agent ns h = keep refl h
step_up wait_agent w idle ns h = keep refl h
step_up idle w active ns h = keep refl h
step_up idle w wait_agent ns h = skip (Subsequence-tail h)
step_up active w n ns h = Subsequence-nil (n ∷ ns)
step_up fault w boot ns h = keep refl h
step_up estop w boot ns h = keep refl h
step_up boot w estop ns h = skip (Subsequence-tail h)
step_up wait_agent w estop ns h = skip (Subsequence-tail (Subsequence-tail h))
step_up wait_agent w fault ns h = skip (Subsequence-tail (Subsequence-tail h))
step_up idle w estop ns h = skip (Subsequence-tail (Subsequence-tail (Subsequence-tail h)))
step_up idle w fault ns h = skip (Subsequence-tail (Subsequence-tail (Subsequence-tail h)))
step_up s w n ns h = skip h

-- If a sequence of requests leaves the robot ACTIVE, it contains, in this order, all the requests
-- that lead there from the first state; from FAULT and ESTOP these are BOOT, WAIT_AGENT, IDLE and
-- ACTIVE.
pub active_needs_way_up :
    (s : RobotState) (w : ℕ) (ns : List RobotState)
    → (requests s w ns).0 ≡ active
    → Subsequence (way_up s) ns
unfolding requests
active_needs_way_up active w [] h = done
active_needs_way_up s w [] h = ground arith
active_needs_way_up s w (n ∷ ns) h =
    let (rc, s', w') = state_machine_transition s w n in
    step_up s w n ns (active_needs_way_up s' w' ns h)
