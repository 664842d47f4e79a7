-- ===== src/Mission/Config/Loader.antt =====
-- config.py, `load_mission_config`: from the two paths to the configuration, or to an error.
use patrol_drone.Prelude.{◌∷◌, ◌>>◌, ◌>>=◌, String, Result, List, ok, err, []}
use patrol_drone.Float.{Float}
use patrol_drone.Mission.Config.Checkpoints.{resolve_checkpoints}
use patrol_drone.Mission.Config.Yaml.{
  FileError, Yaml, ConfigError, Fields, require, require_list, require_mapping, file_error, number,
  point, validate_frame,
}
use patrol_drone.Mission.Config.{MissionConfig}
use patrol_drone.Mission.Config.Sections.{
  reject_unknown_top_level_keys, approach_section, validate_semantics, completion_section,
  abort_section,
}
use patrol_drone.Mission.Config.Waypoints.{parse_waypoints}

module _ ⦃fl : Float⦄ (read_yaml : String → Result FileError Yaml) where
  unfoldable pub mappings : List Yaml → Result ConfigError (List Fields)
  mappings [] = ok []
  mappings (v ∷ vs) = do w ← require_mapping v; ws ← mappings vs; ok (w ∷ ws)

  unfoldable pub waypoint_entries : Fields → Result ConfigError (List Fields)
  waypoint_entries raw = do v ← require raw "waypoints"; vs ← require_list v; mappings vs

  abbrev pub read_mission : String → Result ConfigError Yaml
  read_mission path = elim (read_yaml path) [ ok v ↦ ok v | err e ↦ err (file_error e) ]

  -- the MissionConfig of the document, before `_validate_semantics`
  unfoldable pub build_config : Fields → String → Result ConfigError MissionConfig
  build_config raw checkpoints_yaml_path = do
    reject_unknown_top_level_keys raw
    approach ← approach_section raw
    home_value ← require raw "home"
    home ← require_mapping home_value
    raw_waypoints ← waypoint_entries raw
    checkpoints ← resolve_checkpoints read_yaml raw_waypoints checkpoints_yaml_path
    waypoints ← parse_waypoints raw_waypoints checkpoints approach
    takeoff_value ← require raw "takeoff_alt_m"
    takeoff_alt_m ← number takeoff_value
    hover_value ← require raw "hover_time_s"
    hover_time_s ← number hover_value
    completion ← completion_section raw
    abort ← abort_section raw
    place ← require home "position"
    home_position ← point place
    frame ← require home "frame"
    home_frame ← validate_frame frame
    ok (record {
      takeoff_alt_m = takeoff_alt_m;
      hover_time_s = hover_time_s;
      completion = completion;
      abort = abort;
      home_position = home_position;
      home_frame = home_frame;
      waypoints = waypoints;
      approach = approach;
    })

  unfoldable pub load_mission_config : String → String → Result ConfigError MissionConfig
  load_mission_config mission_yaml_path checkpoints_yaml_path = do
    document ← read_mission mission_yaml_path
    raw ← require_mapping document
    cfg ← build_config raw checkpoints_yaml_path
    validate_semantics cfg
    ok cfg
