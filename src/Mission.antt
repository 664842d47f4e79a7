-- ===== src/Mission.antt =====
-- The mission package, ros2_ws/src/patrol_mission/patrol_mission.
pub mod Frames
pub mod Config
pub mod States
pub mod Machine
pub mod Commands
pub mod Messages
pub mod Node
pub mod Examples
pub mod Startup
pub mod LoaderExamples
