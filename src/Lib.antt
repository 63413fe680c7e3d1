-- ===== src/Lib.antt =====
-- Verification of the rover controller firmware (apps/rover_controller/src) and of the two sample
-- applications beside it (apps/accel_trig, apps/accel_polling).
--
-- The firmware drives a four-wheeled robot under micro-ROS. A velocity command arrives at the
-- /cmd_vel subscriber, which stores it in the command target; the control loop turns the target into
-- wheel velocities for the motor drive, but only while the lifecycle state machine is ACTIVE and no
-- fault in the shared fault word inhibits motion; the safety monitor decides those faults in its own
-- thread and feeds the watchdog once both threads have checked in. Beside that the adapters of the
-- IMU and the GNSS receiver put samples into message queues, and a thread drains the queues into
-- publishers.
--
-- Files and the code they model:
--   Common: common/robot_types.h and hal/sensor_types.h (Types), common/robot_params.h and
--     safety/limits.h (Params), common/time_utils.c (Time), the limiting of a velocity (Clamp), and the
--     operations of `float` and `double` that the code uses, as parameters (Real).
--   Safety: safety/fault.c (Fault), safety/watchdog.c (Watchdog), safety/safety_monitor.c (Monitor).
--   App: app/robot_command.c (Command), app/state_machine.c (StateMachine), app/kinematics.c
--     (Kinematics), app/odometry.c (Odometry), app/diagnostics.c (Diagnostics), app/control_loop.c
--     (ControlLoop).
--   Rover: the static variables of all modules as one record (State), and the threads as sequences of
--     events on it (Threads), with what holds of every run; the two periodic threads in time (Pace); the
--     same threads one access to the shared variables at a time (Interleaved: Control for
--     app/control_loop.c, Callback for ros/subscribers/cmd_vel_sub.c, Monitor for
--     safety/safety_monitor.c, System for all of them, Serial for the runs that are those of Threads);
--     and the locks that each function takes and gives back, in order (Locks).
--   Hal: hal/imu.c (Imu), hal/gnss.c (Gnss), and the kernel's message queue as a parameter (Queue).
--   Ros: ros/subscribers/cmd_vel_sub.c (CmdVel), ros/publishers/imu_pub.c (ImuPub) and gnss_pub.c
--     (GnssPub), battery_pub.c (BatteryPub), the other publishers (Telemetry), ros/node.c (Node), the
--     stamp of a message (Stamp).
--   Main: main.c, with the start-up, and the publishing thread over one turn and over many (Loop).
--   Samples: apps/accel_trig/src/main.c (AccelTrig), apps/accel_polling/src/main.c (AccelPolling; its
--     stream in AccelPolling/Stream), and what they use of the kernel as a parameter (Kernel).
--   Instances: concrete numbers, a queue and a robot, for the tests, which stand in the Tests modules.
--   Prelude: what the others share.
--
-- A function of the source is a definition with its name. The static variables that it reads and
-- writes are arguments and results; a pointer that it compares with NULL is an Option; an error
-- code is an Rc; the time that a call of time_now_ms returns is an argument. A mutex or a spinlock
-- makes a call one step. In Rover/Threads a thread's turn is one event, so the runs are those in
-- which a turn is not interleaved with another; in Rover/Interleaved a thread is preempted between
-- any two of its accesses, with its local variables kept in its program counter; there too a call
-- that takes no lock, of the watchdog, is one step: `watchdog_feed` is called by the safety monitor
-- alone, whose thread is cooperative, and does not wait, so no other thread runs during it, and
-- `watchdog_check_in` writes one Boolean. In these models a lock is never waited for; the waiting
-- is in Rover/Locks, where a thread that asks for a lock that is held makes no step, and what it
-- does between two calls of a lock is left out. Where a theorem speaks of how much time passes, it
-- follows the times of the calls along the run (Rover/Deadline, Rover/Interleaved/Timeline), or the
-- time between one event and the next (Rover/Pace). Memory that the code leaves uninitialised is an
-- argument. The fault word is a number below 2 ^ 32 with `~` written out, and the conversions to 32
-- bits in the stamps and the heartbeat wrap around. Two loops run on fuel: the draining of a queue,
-- where more fuel than there are messages is enough, and a queue holds at most 32; and the accesses
-- of a thread that is not interrupted, where 16 are enough for the control loop, four for the
-- callback and seven for the safety monitor. The endless loops of the polling sample, of main, of
-- the publishing thread and of the executor thread are run for a number of turns.
--
-- Parameters: floating-point arithmetic, with the laws of IEEE 754 that a theorem needs as a
-- hypothesis (order, NaN, zeros, operations that are not rounded); the motor drive and the power
-- monitor, whose headers are not in the repository (and, of the latter's reading, the field
-- `valid`); the kernel's message queue with its documented behaviour; the client library, as its
-- return codes or, in Ros/Node, as its functions; the return codes of the drivers; the constants of
-- the message packages; for the samples the sensor's driver, the semaphore and the atomic variable,
-- the RTIO context and the decoder.
--
-- The build file apps/rover_controller/CMakeLists.txt leaves out the safety and application layers and
-- the velocity subscriber, and main.c their initialisation; the model follows each file as it is written,
-- so Rover is about the firmware with all of its threads, and Main about main.c as it stands.
--
-- Not modelled: logging, stack sizes and what creating a thread does; the Madgwick filter, a copy of a
-- library that nothing calls; what the samples print besides numbers; Zephyr and micro-ROS, whose
-- sources are not in the repository.
pub mod Prelude
pub mod Common
pub mod App
pub mod Safety
pub mod Samples
pub mod Rover
pub mod Ros
pub mod Hal
pub mod Main
pub mod Instances
