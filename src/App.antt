-- ===== src/App.antt =====
-- The application and control layer (apps/rover_controller/src/app).
pub mod Command
pub mod StateMachine
pub mod Kinematics
pub mod Odometry
pub mod Diagnostics
pub mod ControlLoop
