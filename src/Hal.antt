-- ===== src/Hal.antt =====
-- The hardware abstraction layer (apps/rover_controller/src/hal).
pub mod Queue
pub mod Imu
pub mod Gnss
