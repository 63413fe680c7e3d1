-- ===== src/Common.antt =====
-- What all layers share (apps/rover_controller/src/common), and the arithmetic of `float` and `double`.
pub mod Real
pub mod Types
pub mod Params
pub mod Time
pub mod Clamp
