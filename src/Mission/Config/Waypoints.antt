-- ===== src/Mission/Config/Waypoints.antt =====
-- config.py: one waypoint of the mission file, which is either a checkpoint or an inline position.
use patrol_drone.Prelude.{
  ◌>>◌, ◌>>=◌, String, List, Result, ◌∷◌, [], not, ok, ◌||◌, if◌then◌else◌, or_raise, ◌&&◌, none,
  some,
}
use patrol_drone.Float.{Float}
use patrol_drone.Mission.Frames.{Point}
use patrol_drone.Mission.Config.Yaml.{
  Fields, ConfigError, refuse_if, has, subscript, within, validate_frame, point, keys, number,
  refuse, missing_field, value_error, unknown_key, ambiguous_waypoint, unknown_checkpoint,
  shapeless_waypoint,
}
use patrol_drone.Mission.Config.Checkpoints.{Positions, checkpoint_id, position_of}
use patrol_drone.Mission.Config.{Approach, Waypoint}

pub data WaypointShape : Type 0 where
  from_checkpoint inline : WaypointShape

abbrev pub checkpoint_waypoint_keys : List String
checkpoint_waypoint_keys = "checkpoint_id" ∷ "dwell_s" ∷ []

abbrev pub inline_waypoint_keys : List String
inline_waypoint_keys = "position" ∷ "frame" ∷ "dwell_s" ∷ []

module _ ⦃fl : Float⦄ where
  open fl use {F, add, sub, mul, tan, atan2}

  unfoldable pub waypoint_shape : Fields → Result ConfigError WaypointShape
  waypoint_shape w =
      let has_checkpoint = has w "checkpoint_id" in
      let has_inline = has w "position" || has w "frame" in
      if has_checkpoint && has_inline
      then refuse ambiguous_waypoint
      else if has_checkpoint
      then ok from_checkpoint
      else if has_inline
      then ok inline
      else refuse shapeless_waypoint

  unfoldable pub check_waypoint_keys : Fields → List String → Result ConfigError Unit
  check_waypoint_keys w allowed =
      refuse_if (not (within allowed (keys w))) missing_field
      >> refuse_if (not (within (keys w) allowed)) unknown_key

  unfoldable pub approach_pose : Point → F → F → Point × F
  approach_pose (tx, ty, tz) standoff_m camera_pitch_rad =
      let hy = add ty standoff_m in
      ((tx, hy, add tz (mul standoff_m (tan camera_pitch_rad))), atan2 (sub ty hy) (sub tx tx))

  unfoldable pub checkpoint_waypoint : Fields → Positions → Approach → Result ConfigError Waypoint
  checkpoint_waypoint w checkpoints approach = do
    id ← subscript w "checkpoint_id"
    cid ← checkpoint_id id
    tag ← or_raise (position_of checkpoints cid) (value_error unknown_checkpoint)
    let pose = approach_pose tag approach.standoff_m approach.camera_pitch_rad
    dwell ← subscript w "dwell_s"
    dwell_s ← number dwell
    ok (record {
      position = pose.0;
      frame = "enu";
      dwell_s = dwell_s;
      checkpoint_id = some cid;
      yaw_enu = some pose.1;
    })

  unfoldable pub inline_waypoint : Fields → Result ConfigError Waypoint
  inline_waypoint w = do
    f ← subscript w "frame"
    frame ← validate_frame f
    place ← subscript w "position"
    position ← point place
    dwell ← subscript w "dwell_s"
    dwell_s ← number dwell
    ok (record {
      position = position;
      frame = frame;
      dwell_s = dwell_s;
      checkpoint_id = none;
      yaw_enu = none;
    })

  abbrev pub parse_shaped :
      WaypointShape → Fields → Positions → Approach → Result ConfigError Waypoint
  parse_shaped from_checkpoint w checkpoints approach =
      check_waypoint_keys w checkpoint_waypoint_keys >> checkpoint_waypoint w checkpoints approach
  parse_shaped inline w checkpoints approach =
      check_waypoint_keys w inline_waypoint_keys >> inline_waypoint w

  unfoldable pub parse_waypoint : Fields → Positions → Approach → Result ConfigError Waypoint
  parse_waypoint w checkpoints approach = do
    shape ← waypoint_shape w
    parse_shaped shape w checkpoints approach

  unfoldable pub parse_waypoints :
      List Fields → Positions → Approach → Result ConfigError (List Waypoint)
  parse_waypoints [] checkpoints approach = ok []
  parse_waypoints (w ∷ ws) checkpoints approach = do
    wp ← parse_waypoint w checkpoints approach
    wps ← parse_waypoints ws checkpoints approach
    ok (wp ∷ wps)
