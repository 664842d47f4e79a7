-- ===== src/Mission/States.antt =====
-- ros2_ws/src/patrol_mission/patrol_mission/state_machine.py: the states, what a tick reads and
-- issues, and the tests on one reading that stand outside the class.
use patrol_drone.Prelude.{
  ℕ, Bool, true, false, if◌then◌else◌, ◌==◌, ◌&&◌, Option, none, negsuc, ℤ, not, some, ◌||◌,
}
use patrol_drone.Float.{Float}
use patrol_drone.Mission.Frames.{Point}

pub data MissionState : Type 0 where
  idle arming takeoff hover waypoint dwell rth landing abort done : MissionState

pub data AbortReason : Type 0 where
  no_reason external_signal low_battery manual_takeover timeout : AbortReason

-- The `auto()` values: two members are the same object exactly when their values agree.
abbrev pub value : MissionState → ℕ
value idle = 1
value arming = 2
value takeoff = 3
value hover = 4
value waypoint = 5
value dwell = 6
value rth = 7
value landing = 8
value abort = 9
value done = 10

abbrev pub is_state : MissionState → MissionState → Bool
is_state s t = value s == value t

abbrev pub is_last : MissionState → Option MissionState → Bool
is_last s none = false
is_last s (some t) = is_state s t

abbrev pub is_raised : AbortReason → Bool
is_raised no_reason = false
is_raised _ = true

-- Membership in `_NON_ABORTABLE`.
abbrev pub non_abortable : MissionState → Bool
non_abortable abort = true
non_abortable rth = true
non_abortable landing = true
non_abortable done = true
non_abortable _ = false

unfoldable pub local_position_usable : Bool → Bool → Bool
local_position_usable xy_valid z_valid = xy_valid && z_valid

module _ ⦃fl : Float⦄ where
  open fl use {F, milli, sub, le, lt, is_finite, dist}

  pub record Telemetry : Type 0 where
    pub now_s : F
    pub position_ned : Point
    pub armed : Bool
    pub offboard_active : Bool
    pub battery_remaining : F
    pub abort_requested : Bool
    pub manual_takeover : Bool
    pub timed_out : Bool

  pub record Command : Type 0 where
    pub arm : Bool
    pub set_offboard : Bool
    pub land : Bool
    pub setpoint_ned : Option Point
    pub yaw : F
    pub current_waypoint : ℤ

  -- `Command()`
  abbrev pub no_command : Command
  no_command = record {
    arm = false;
    set_offboard = false;
    land = false;
    setpoint_ned = none;
    yaw = milli 0;
    current_waypoint = negsuc 0;
  }

  -- `Command(setpoint_ned=p)`
  abbrev pub fly_to : Point → Command
  fly_to p = record no_command { setpoint_ned = some p }

  pub record Progress : Type 0 where
    pub last_state : Option MissionState
    pub state_entered_s : F
    pub inside_since_s : Option F
    pub waypoint_index : ℕ
    pub abort_reason : AbortReason

  unfoldable pub telemetry_fresh : F → F → Bool
  telemetry_fresh age_s timeout_s = le age_s timeout_s

  unfoldable pub battery_low : F → F → Bool
  battery_low remaining threshold =
      if not (is_finite remaining) || lt remaining (milli 0) then false else lt remaining threshold
