-- ===== src/Mission/LoaderExamples.antt =====
-- Tests of the loader's definitions, and its theorems at concrete inputs: a mission file with one
-- checkpoint and one inline waypoint.
use patrol_drone.Prelude.{
  pos, ◌∷◌, ℕ, Ensures, String, All, Result, [], some, negsuc, if◌then◌else◌, none, ok, ◌≡◌, err,
  refl,
}
use text.Mathlib.Text.{◌==◌}
use patrol_drone.Mission.Config.Checkpoints.{
  resolve_checkpoints, load_checkpoints, Positions, collect, checkpoint_entry, checkpoint_id,
  checkpoint_list, checkpoints_map,
}
use patrol_drone.Mission.Config.Loader.{
  load_mission_config, build_config, waypoint_entries, mappings,
}
use patrol_drone.Mission.Config.Flyable.{load_mission_config-Ranges, Ranges, Framed}
use patrol_drone.Float.Fixed.{fixed_float, fin}
use patrol_drone.Mission.Config.Yaml.{
  Yaml, Fields, entry, mapping, real, FileError, sequence, require, str, no_fields, require_mapping,
  item, no_items, require_list, point, not_found, refuse, coord, number, relative_path, no_path,
  finite, finite_or, validate_frame, duplicate_checkpoint,
}
use patrol_drone.Mission.Config.{MissionConfig}
use patrol_drone.Mission.Config.Keys.{Spares, parse_waypoint-Spares}
use patrol_drone.Mission.Config.Sections.{
  reject_unknown_top_level_keys, approach_section, completion_section, section, abort_section,
  section_of, coerce_section_floats, validate_semantics, positive, non_negative, unit_interval,
  half_turn_down, validate_dwells,
}
use patrol_drone.Mission.Config.Lookup.{Finds, checkpoints_map-Finds}
use patrol_drone.Mission.Config.Waypoints.{
  parse_waypoint, parse_waypoints, waypoint_shape, check_waypoint_keys, checkpoint_waypoint,
  inline_waypoint, approach_pose,
}
use patrol_drone.Mission.Node.Drive.{Safe, drive, fresh}
use patrol_drone.Mission.Node.{timer, init_node}
use patrol_drone.Mission.Startup.{load-starts}

abbrev quantity : ℕ → Yaml
quantity k = real (fin (pos k))

abbrev place : ℕ → ℕ → ℕ → Yaml
place x y z =
    mapping (entry "x" (quantity x) (entry "y" (quantity y) (entry "z" (quantity z) no_fields)))

abbrev checkpoint_fields : Fields
checkpoint_fields = entry "checkpoint_id" (str "cp_a") (entry "dwell_s" (quantity 2000) no_fields)

abbrev inline_fields : Fields
inline_fields =
    entry "position" (place 1000 0 2500)
      (entry "frame" (str "enu") (entry "dwell_s" (quantity 1000) no_fields))

abbrev home_fields : Fields
home_fields = entry "position" (place 0 0 0) (entry "frame" (str "enu") no_fields)

abbrev document : Yaml
document = mapping (
    entry "takeoff_alt_m" (quantity 2500) (
      entry "hover_time_s" (quantity 1000) (
        entry "home" (mapping home_fields) (
          entry "waypoints"
            (sequence (item (mapping checkpoint_fields) (item (mapping inline_fields) no_items)))
            no_fields))))

abbrev checkpoint_a : Yaml
checkpoint_a =
    mapping (entry "checkpoint_id" (str "cp_a") (entry "position" (place 1000 2000 1500) no_fields))

abbrev checkpoint_b : Yaml
checkpoint_b =
    mapping (entry "checkpoint_id" (str "cp_b") (entry "position" (place 3000 2000 1500) no_fields))

abbrev files : String → Result FileError Yaml
files path =
    if path == "mission.yaml"
    then ok document
    else if path == "/checkpoints.yaml"
    then ok (sequence (item checkpoint_a (item checkpoint_b no_items)))
    else err not_found

abbrev loaded : MissionConfig
loaded = record {
  takeoff_alt_m = fin (pos 2500);
  hover_time_s = fin (pos 1000);
  completion = record { tolerance_m = fin (pos 500); hold_time_s = fin (pos 2000) };
  abort = record { low_battery_threshold = fin (pos 200) };
  home_position = (fin (pos 0), fin (pos 0), fin (pos 0));
  home_frame = "enu";
  waypoints =
      record {
        position = (fin (pos 1000), fin (pos 5000), fin (pos 2550));
        frame = "enu";
        dwell_s = fin (pos 2000);
        checkpoint_id = some "cp_a";
        yaw_enu = some (fin (negsuc 2999));
      }
      ∷ record {
        position = (fin (pos 1000), fin (pos 0), fin (pos 2500));
        frame = "enu";
        dwell_s = fin (pos 1000);
        checkpoint_id = none;
        yaw_enu = none;
      }
      ∷ [];
  approach = record { standoff_m = fin (pos 3000); camera_pitch_rad = fin (pos 350) };
}

loads : load_mission_config files "mission.yaml" "/checkpoints.yaml" ≡ ok loaded
unfolding load_mission_config build_config reject_unknown_top_level_keys approach_section
    completion_section abort_section section section_of coerce_section_floats require
    require_mapping require_list waypoint_entries mappings resolve_checkpoints load_checkpoints
    checkpoint_list collect checkpoint_entry checkpoint_id point coord number finite finite_or
    validate_frame parse_waypoints parse_waypoint waypoint_shape check_waypoint_keys
    checkpoint_waypoint inline_waypoint approach_pose validate_semantics positive non_negative
    unit_interval half_turn_down validate_dwells
loads = refl

-- a checkpoint without a path, and one with a path that is not absolute
no_path_test : load_mission_config files "mission.yaml" "" ≡ refuse no_path
unfolding load_mission_config build_config reject_unknown_top_level_keys approach_section section
    require require_mapping require_list waypoint_entries mappings resolve_checkpoints
no_path_test = refl

relative_path_test :
    load_mission_config files "mission.yaml" "checkpoints.yaml" ≡ refuse relative_path
unfolding load_mission_config build_config reject_unknown_top_level_keys approach_section section
    require require_mapping require_list waypoint_entries mappings resolve_checkpoints
relative_path_test = refl

load_mission_config-Ranges_example : Ranges loaded × Framed loaded
load_mission_config-Ranges_example =
    load_mission_config-Ranges files "mission.yaml" "/checkpoints.yaml" loaded loads

load-starts_example :
    Ensures
      (λ n. Ensures (λ d. Safe d.node) (drive (fresh n) ((fin (pos 0), timer) ∷ [])))
      (init_node loaded)
load-starts_example =
    load-starts files "mission.yaml" "/checkpoints.yaml" loaded ((fin (pos 0), timer) ∷ []) loads

abbrev both : Positions
both =
    ("cp_a", (fin (pos 1000), fin (pos 2000), fin (pos 1500)))
    ∷ ("cp_b", (fin (pos 3000), fin (pos 2000), fin (pos 1500)))
    ∷ []

both_collected : checkpoints_map (checkpoint_a ∷ checkpoint_b ∷ []) ≡ ok both
unfolding collect checkpoint_entry require require_mapping checkpoint_id point coord number finite
both_collected = refl

checkpoints_map-Finds_example : All (Finds both) (checkpoint_a ∷ checkpoint_b ∷ [])
checkpoints_map-Finds_example =
    checkpoints_map-Finds (checkpoint_a ∷ checkpoint_b ∷ []) both both_collected

duplicate_test : checkpoints_map (checkpoint_a ∷ checkpoint_a ∷ []) ≡ refuse duplicate_checkpoint
unfolding collect checkpoint_entry require require_mapping checkpoint_id point coord number finite
duplicate_test = refl

parse_waypoint-Spares_example : Spares (parse_waypoint checkpoint_fields both loaded.approach)
parse_waypoint-Spares_example = parse_waypoint-Spares checkpoint_fields both loaded.approach
