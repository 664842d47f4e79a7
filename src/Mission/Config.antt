-- ===== src/Mission/Config.antt =====
-- ros2_ws/src/patrol_mission/patrol_mission/config.py: the parsed mission, as frozen records.
pub mod Yaml
pub mod Sections
pub mod Checkpoints
pub mod Waypoints
pub mod Loader
pub mod Flyable
pub mod Lookup
pub mod Keys
use patrol_drone.Prelude.{String, Option, List}
use patrol_drone.Float.{Float}
use patrol_drone.Mission.Frames.{Point}

module _ ⦃fl : Float⦄ where
  open fl use {F}

  pub record Completion : Type 0 where
    pub tolerance_m : F
    pub hold_time_s : F

  pub record AbortConfig : Type 0 where
    pub low_battery_threshold : F

  pub record Approach : Type 0 where
    pub standoff_m : F
    pub camera_pitch_rad : F

  pub record Waypoint : Type 0 where
    pub position : Point
    pub frame : String
    pub dwell_s : F
    pub checkpoint_id : Option String
    pub yaw_enu : Option F

  pub record MissionConfig : Type 0 where
    pub takeoff_alt_m : F
    pub hover_time_s : F
    pub completion : Completion
    pub abort : AbortConfig
    pub home_position : Point
    pub home_frame : String
    pub waypoints : List Waypoint
    pub approach : Approach
