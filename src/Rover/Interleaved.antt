-- ===== src/Rover/Interleaved.antt =====
-- The threads of the firmware one access to shared data at a time. A thread is preempted between any two
-- of its accesses: the sections under a mutex or a spinlock, and the calls of the motor drive. What it
-- has in its local variables in between is its program counter.
pub mod Control
pub mod Callback
pub mod Monitor
pub mod System
pub mod Keeps
pub mod Holding
pub mod Alone
pub mod Leads
mod Serial
pub mod Origin
pub mod Race
pub mod Stop
pub mod Budget
pub mod Delay
pub mod Agent
pub mod Notice
pub mod Limits
mod Deadline
mod Feeding
pub mod Timeline
pub mod Watched
mod Tests
mod SerialTests
mod DeadlineTests
mod WatchdogTests
