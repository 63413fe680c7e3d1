-- ===== src/Ros.antt =====
-- The ROS 2 interface layer (apps/rover_controller/src/ros).
pub mod CmdVel
pub mod Stamp
pub mod ImuPub
pub mod GnssPub
pub mod Node
pub mod Telemetry
pub mod BatteryPub
