-- ===== src/Rover/Locks/Tests.antt =====
-- Four threads in the middle of their jobs.
use micro_ros_controller_fir.Prelude.{ℕ, ◌≡◌, refl, true, false, List, [], ◌∷◌, length}
use micro_ros_controller_fir.App.StateMachine.{idle, fault, boot}
use micro_ros_controller_fir.Rover.Locks.{
  fault_lock, Job, control_loop, cmd_vel, evaluation, request, diagnostics_update, transition_locks,
  job_locks, run_once_locks, guard_locks, evaluate_locks, jobs_locks,
}
use micro_ros_controller_fir.Rover.Locks.System.{start, after, step, remaining, is_held, AllDone}
use micro_ros_controller_fir.Rover.Locks.Progress.{jobs_can_end}

abbrev jobs : List (List Job)
jobs =
    (control_loop true false true ∷ control_loop false false true ∷ [])
    ∷ (evaluation true true false ∷ [])
    ∷ (request fault boot ∷ [])
    ∷ (cmd_vel idle true idle ∷ diagnostics_update ∷ [])
    ∷ []

-- The reset has the state lock and asks for the fault lock, which the safety monitor holds.
abbrev so_far : List ℕ
so_far = 1 ∷ 1 ∷ 1 ∷ 0 ∷ 0 ∷ 2 ∷ 2 ∷ 0 ∷ []

both_held : is_held fault_lock (after (start jobs) so_far) ≡ true
unfolding after step start jobs_locks transition_locks job_locks run_once_locks guard_locks
    evaluate_locks
both_held = refl

jobs_can_end_example :
    (js : List ℕ) × (length js ≡ remaining (after (start jobs) so_far))
    × AllDone (after (after (start jobs) so_far) js)
jobs_can_end_example = jobs_can_end jobs so_far
