-- ===== src/Perception.antt =====
-- The perception package, ros2_ws/src/patrol_perception/patrol_perception.
pub mod Samplers
pub mod Resolver
pub mod CheckpointConfig
pub mod Coordinator
pub mod Writer
pub mod Latch
pub mod Visits
pub mod Returns
pub mod Filed
pub mod Published
pub mod Examples
pub mod CaptureExamples
