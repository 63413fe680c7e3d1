-- ===== src/Rover.antt =====
-- The rover as a whole: the static variables of all modules, and the threads that work on them.
pub mod State
pub mod Threads
pub mod Halt
pub mod Frame
pub mod Feeding
pub mod Stop
pub mod Agent
pub mod Timeout
pub mod Limits
pub mod Activation
mod Deadline
pub mod Following
pub mod Pace
pub mod Locks
pub mod Interleaved
mod Tests
mod PaceTests
