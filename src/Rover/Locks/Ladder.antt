-- ===== src/Rover/Locks/Ladder.antt =====
-- The order in which the functions nest the locks: the fault lock comes after all others.
use micro_ros_controller_fir.Prelude.{
  ℕ, ◌≡◌, refl, Bool, true, false, ◌&&◌, List, [], ◌∷◌, ◌++◌, ltb, ◌==◌, arith, Bool-cases, inl,
  inr, if◌then◌else◌,
}
use micro_ros_controller_fir.Rover.Locks.{
  Lock, cmd_mutex, wheel_state_mutex, monitor_lock, state_lock, odom_lock, diag_lock, fault_lock,
  LockCall, lock, unlock, resets, transition_locks, run_once_locks, guard_locks, evaluate_locks,
  diagnostics_update_locks, robot_command_set_locks, state_machine_get_locks,
  motion_permitted_locks, callback_locks, Job, control_loop, cmd_vel, evaluation, request,
  state_machine_get, job_locks, jobs_locks,
}
use micro_ros_controller_fir.App.StateMachine.{RobotState, active}
use micro_ros_controller_fir.Ros.CmdVel.{is_idle}

abbrev pub rung : Lock → ℕ
rung cmd_mutex = 0
rung wheel_state_mutex = 1
rung monitor_lock = 2
rung state_lock = 3
rung odom_lock = 4
rung diag_lock = 5
rung fault_lock = 6

-- Every lock held stands below another one.
abbrev pub all_below : List Lock → ℕ → Bool
all_below [] n = true
all_below (h ∷ held) n = ltb (rung h) n && all_below held n

-- From the locks held on, the latest first: only locks above all that are held are taken, the latest one
-- is given back first, and none is left.
unfoldable pub climbs : List Lock → List LockCall → Bool
climbs [] [] = true
climbs (h ∷ held) [] = false
climbs held (lock l ∷ cs) = all_below held (rung l) && climbs (l ∷ held) cs
climbs [] (unlock l ∷ cs) = false
climbs (h ∷ held) (unlock l ∷ cs) = (rung h == rung l) && climbs held cs

climbs-append :
    (held : List Lock) (cs ds : List LockCall)
    → climbs held cs ≡ true
    → climbs [] ds ≡ true
    → climbs held (cs ++ ds) ≡ true
unfolding climbs
climbs-append [] [] ds h k = k
climbs-append (l ∷ held) [] ds h k = cc
climbs-append [] (lock l ∷ cs) ds h k = climbs-append (l ∷ []) cs ds h k
climbs-append (x ∷ held) (lock l ∷ cs) ds h k = ground (arith, climbs-append (l ∷ x ∷ held) cs ds)
climbs-append [] (unlock l ∷ cs) ds h k = cc
climbs-append (x ∷ held) (unlock l ∷ cs) ds h k = ground (arith, climbs-append held cs ds)

transition-climbs : (old new : RobotState) → climbs [] (transition_locks old new) ≡ true
unfolding climbs transition_locks
transition-climbs old new = elim (Bool-cases (resets old new)) [ inl e ↦ rw e | inr e ↦ rw e ]

callback-climbs :
    (old : RobotState) (idles permitted : Bool)
    → climbs [] (
        robot_command_set_locks
        ++ state_machine_get_locks
        ++ (if idles
            then motion_permitted_locks ++ (if permitted then transition_locks old active else [])
            else []))
      ≡ true
unfolding climbs
callback-climbs old false permitted = refl
callback-climbs old true false = refl
callback-climbs old true true = transition-climbs old active

-- Every job does so on all of its branches.
job-climbs : (j : Job) → climbs [] (job_locks j) ≡ true
unfolding climbs job_locks callback_locks run_once_locks guard_locks evaluate_locks
    diagnostics_update_locks
job-climbs (control_loop true true true) = refl
job-climbs (control_loop true true false) = refl
job-climbs (control_loop true false true) = refl
job-climbs (control_loop true false false) = refl
job-climbs (control_loop false permitted true) = refl
job-climbs (control_loop false permitted false) = refl
job-climbs (cmd_vel seen permitted old) = callback-climbs old (is_idle seen) permitted
job-climbs (evaluation true true true) = refl
job-climbs (evaluation true true false) = refl
job-climbs (evaluation true false true) = refl
job-climbs (evaluation true false false) = refl
job-climbs (evaluation false true true) = refl
job-climbs (evaluation false true false) = refl
job-climbs (evaluation false false true) = refl
job-climbs (evaluation false false false) = refl
job-climbs (request old new) = transition-climbs old new
job-climbs state_machine_get = refl
job-climbs j = refl

pub jobs-climb : (js : List Job) → climbs [] (jobs_locks js) ≡ true
unfolding climbs jobs_locks
jobs-climb [] = refl
jobs-climb (j ∷ js) = climbs-append [] (job_locks j) (jobs_locks js) (job-climbs j) (jobs-climb js)
