-- ===== src/Rover/Locks.antt =====
-- The locks that the threads of the rover take: each function of app/robot_command.c,
-- app/state_machine.c, app/control_loop.c, app/odometry.c, app/diagnostics.c, safety/fault.c,
-- safety/safety_monitor.c and ros/subscribers/cmd_vel_sub.c (apps/rover_controller/src) as the sequence
-- of locks that it takes and gives back. What it does in between takes no lock. A test on what another
-- thread may have changed is an argument; a call that returns -EINVAL at once takes no lock.
pub mod Ladder
pub mod System
mod Progress
mod Tests
use micro_ros_controller_fir.Prelude.{Bool, true, false, List, [], ◌∷◌, ◌++◌, if◌then◌else◌}
use micro_ros_controller_fir.App.StateMachine.{RobotState, boot, fault, estop, active}
use micro_ros_controller_fir.Ros.CmdVel.{is_idle}

-- The mutexes and spinlocks.
pub data Lock : Type 0 where
  cmd_mutex wheel_state_mutex monitor_lock state_lock odom_lock diag_lock fault_lock : Lock

-- `k_mutex_lock` or `k_spin_lock`, and their counterparts.
pub data LockCall : Type 0 where
  lock unlock : Lock → LockCall

-- The locks of the functions, by the functions' names.
abbrev pub robot_command_set_locks : List LockCall
robot_command_set_locks = lock cmd_mutex ∷ unlock cmd_mutex ∷ []

abbrev pub robot_command_get_locks : List LockCall
robot_command_get_locks = lock cmd_mutex ∷ unlock cmd_mutex ∷ []

abbrev pub robot_command_zero_locks : List LockCall
robot_command_zero_locks = lock cmd_mutex ∷ unlock cmd_mutex ∷ []

abbrev pub fault_init_locks : List LockCall
fault_init_locks = lock fault_lock ∷ unlock fault_lock ∷ []

abbrev pub fault_set_locks : List LockCall
fault_set_locks = lock fault_lock ∷ unlock fault_lock ∷ []

abbrev pub fault_clear_locks : List LockCall
fault_clear_locks = lock fault_lock ∷ unlock fault_lock ∷ []

abbrev pub fault_get_locks : List LockCall
fault_get_locks = lock fault_lock ∷ unlock fault_lock ∷ []

abbrev pub fault_is_set_locks : List LockCall
fault_is_set_locks = fault_get_locks

abbrev pub motion_permitted_locks : List LockCall
motion_permitted_locks = fault_is_set_locks

abbrev pub state_machine_get_locks : List LockCall
state_machine_get_locks = lock state_lock ∷ unlock state_lock ∷ []

-- The two cases of the switch that call `fault_init`.
abbrev pub resets : (old_state new_state : RobotState) → Bool
resets fault boot = true
resets estop boot = true
resets old_state new_state = false

-- `fault_init` is called with the lock held.
unfoldable pub transition_locks : (old_state new_state : RobotState) → List LockCall
transition_locks old_state new_state =
    lock state_lock ∷ (if resets old_state new_state then fault_init_locks else [])
    ++ unlock state_lock ∷ []

abbrev pub monitor_section_locks : List LockCall
monitor_section_locks = lock monitor_lock ∷ unlock monitor_lock ∷ []

abbrev pub get_wheel_state_locks : List LockCall
get_wheel_state_locks = lock wheel_state_mutex ∷ unlock wheel_state_mutex ∷ []

abbrev pub odometry_locks : List LockCall
odometry_locks = lock odom_lock ∷ unlock odom_lock ∷ []

-- The six flags are read with the lock held.
unfoldable pub diagnostics_update_locks : List LockCall
diagnostics_update_locks =
    fault_get_locks
    ++ lock diag_lock ∷ fault_is_set_locks
    ++ fault_is_set_locks
    ++ fault_is_set_locks
    ++ fault_is_set_locks
    ++ fault_is_set_locks
    ++ fault_is_set_locks
    ++ unlock diag_lock ∷ []

abbrev pub diagnostics_get_locks : List LockCall
diagnostics_get_locks = lock diag_lock ∷ unlock diag_lock ∷ []

-- One call of `safety_monitor_evaluate`, by the results of its three tests.
unfoldable pub evaluate_locks : (stale connected low : Bool) → List LockCall
evaluate_locks stale connected low =
    robot_command_get_locks
    ++ (if stale then fault_set_locks else fault_clear_locks)
    ++ monitor_section_locks
    ++ (if connected then fault_clear_locks else fault_set_locks)
    ++ (if low then fault_set_locks else fault_clear_locks)

-- The test of `control_loop_run_once`, whose second call is made only if the first one says yes, and
-- what it does unless both do.
unfoldable pub guard_locks : (allowed permitted : Bool) → List LockCall
guard_locks true true = state_machine_get_locks ++ motion_permitted_locks
guard_locks true false =
    state_machine_get_locks ++ motion_permitted_locks ++ robot_command_zero_locks
guard_locks false permitted = state_machine_get_locks ++ robot_command_zero_locks

-- `has_motor` is `motor_dev != NULL`.
unfoldable pub run_once_locks : (allowed permitted has_motor : Bool) → List LockCall
unfolding guard_locks
run_once_locks allowed permitted has_motor =
    robot_command_get_locks
    ++ guard_locks allowed permitted
    ++ (if has_motor then monitor_section_locks else [])
    ++ lock wheel_state_mutex ∷ unlock wheel_state_mutex ∷ odometry_locks

-- `seen` is what `state_machine_get` returns, and `old_state` the state at the transition.
unfoldable pub callback_locks :
    (seen : RobotState) (permitted : Bool) (old_state : RobotState) → List LockCall
unfolding transition_locks
callback_locks seen permitted old_state =
    robot_command_set_locks
    ++ state_machine_get_locks
    ++ (if is_idle seen
        then motion_permitted_locks ++ (if permitted then transition_locks old_state active else [])
        else [])

-- What a thread does next, with the results of the tests on the way.
pub data Job : Type 0 where
  control_loop : (allowed permitted has_motor : Bool) → Job
  cmd_vel : (seen : RobotState) (permitted : Bool) (old_state : RobotState) → Job
  evaluation : (stale connected low : Bool) → Job
  request : (old_state new_state : RobotState) → Job
  state_machine_get motion_permitted : Job
  set_monitor_input get_wheel_state : Job
  odometry diagnostics_update diagnostics_get : Job

unfoldable pub job_locks : Job → List LockCall
unfolding run_once_locks callback_locks evaluate_locks transition_locks diagnostics_update_locks
job_locks (control_loop allowed permitted has_motor) = run_once_locks allowed permitted has_motor
job_locks (cmd_vel seen permitted old_state) = callback_locks seen permitted old_state
job_locks (evaluation stale connected low) = evaluate_locks stale connected low
job_locks (request old_state new_state) = transition_locks old_state new_state
job_locks state_machine_get = state_machine_get_locks
job_locks motion_permitted = motion_permitted_locks
job_locks set_monitor_input = monitor_section_locks
job_locks get_wheel_state = get_wheel_state_locks
job_locks odometry = odometry_locks
job_locks diagnostics_update = diagnostics_update_locks
job_locks diagnostics_get = diagnostics_get_locks

-- A thread's jobs, one after the other.
unfoldable pub jobs_locks : List Job → List LockCall
unfolding job_locks
jobs_locks [] = []
jobs_locks (j ∷ js) = job_locks j ++ jobs_locks js
