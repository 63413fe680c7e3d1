-- ===== src/Safety.antt =====
-- The safety layer (apps/rover_controller/src/safety).
pub mod Fault
pub mod Watchdog
pub mod Monitor
