-- ===== src/Samples.antt =====
-- The two sample applications for the accelerometer (apps/accel_trig, apps/accel_polling).
pub mod Kernel
pub mod AccelTrig
pub mod AccelPolling
