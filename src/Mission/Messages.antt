-- ===== src/Mission/Messages.antt =====
-- node.py: the constants of the node, the messages that it reads, and those that it publishes.
use patrol_drone.Prelude.{ℕ, Bool, ℤ}
use patrol_drone.Mission.Commands.{Px4CommandKind, do_set_offboard, do_arm, do_land}
use patrol_drone.Float.{Float}
use patrol_drone.Mission.Frames.{Point}
use patrol_drone.Mission.States.{MissionState}

abbrev pub offboard_stream_warmup_ticks : ℕ
offboard_stream_warmup_ticks = 10

-- VehicleStatus.ARMING_STATE_ARMED and NAVIGATION_STATE_OFFBOARD
abbrev pub arming_state_armed : ℕ
arming_state_armed = 2

abbrev pub navigation_state_offboard : ℕ
navigation_state_offboard = 14

-- The MAVLink ids of VehicleCommand.
abbrev pub vehicle_cmd_id : Px4CommandKind → ℕ
vehicle_cmd_id do_set_offboard = 176
vehicle_cmd_id do_arm = 400
vehicle_cmd_id do_land = 21

module _ ⦃fl : Float⦄ where
  open fl use {F, milli, neg, sub, le}

  abbrev pub ekf_origin_ned : Point
  ekf_origin_ned = (milli 0, milli 0, milli 0)

  abbrev pub telemetry_timeout_s : F
  telemetry_timeout_s = milli 2000

  abbrev pub battery_timeout_s : F
  battery_timeout_s = milli 10000

  abbrev pub dwell_settle_s : F
  dwell_settle_s = milli 2000

  pub record VehicleLocalPosition : Type 0 where
    pub x : F
    pub y : F
    pub z : F
    pub xy_valid : Bool
    pub z_valid : Bool

  pub record VehicleStatus : Type 0 where
    pub arming_state : ℕ
    pub nav_state : ℕ

  pub record BatteryStatus : Type 0 where
    pub remaining : F
    pub connected : Bool

  -- What the node publishes.
  pub data Message : Type 0 where
    keepalive : Message
    trajectory_setpoint : Point → F → Message
    vehicle_command : ℕ → F → F → Message
    mission_state : MissionState → Message
    current_waypoint : ℤ → Message
    dwell_event : ℤ → Message
