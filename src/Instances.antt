-- ===== src/Instances.antt =====
-- Concrete values of the parameters, for the tests: numbers, a queue and a robot.
pub mod FixedPoint
pub mod FixedPointLaws
pub mod FixedPointValues
pub mod Fifo
pub mod Robot
