-- ===== src/Mission/Config/Sections.antt =====
-- config.py: the optional sections, and the ranges of the numbers.
use patrol_drone.Prelude.{
  ◌>>◌, ◌>>=◌, String, List, Result, ◌∷◌, Option, if◌then◌else◌, ok, [], ◌>>◌, not, some, ◌>>=◌,
  none, ◌&&◌,
}
use text.Mathlib.Text.{◌==◌}
use patrol_drone.Float.{Float}
use patrol_drone.Mission.Config.Yaml.{
  Fields, Yaml, ConfigError, refuse_if, refuse, get, unknown_key, null_section, entry, contains,
  within, mapping, keys, number, finite, not_mapping, out_of_range, null, no_fields,
}
use patrol_drone.Mission.Config.{MissionConfig, Waypoint, Approach, Completion, AbortConfig}

abbrev pub known_top_level_keys : List String
known_top_level_keys =
    "takeoff_alt_m" ∷ "hover_time_s" ∷ "completion" ∷ "abort" ∷ "approach" ∷ "home" ∷ "waypoints"
    ∷ []

module _ ⦃fl : Float⦄ where
  open fl use {F, milli, pi, half, le, lt}

  unfoldable pub reject_unknown_top_level_keys : Fields → Result ConfigError Unit
  reject_unknown_top_level_keys raw =
      refuse_if (not (within (keys raw) known_top_level_keys)) unknown_key

  -- The section's values as keyword arguments: a number for a field of the class, none for another key.
  unfoldable pub coerce_section_floats :
      List String → Fields → Result ConfigError (List (String × Option F))
  coerce_section_floats names no_fields = ok []
  coerce_section_floats names (entry k v fs) =
      let rest = coerce_section_floats names fs in
      if contains names k
      then (number v >>= λ x. rest >>= λ kwargs. ok ((k, some x) ∷ kwargs))
      else (rest >>= λ kwargs. ok ((k, none) ∷ kwargs))

  -- `cls(**kwargs)` raises on a key that the class does not have.
  abbrev pub bind_arguments :
      List String → List (String × Option F) → Result ConfigError (List (String × F))
  bind_arguments names [] = ok []
  bind_arguments names ((k, none) ∷ kwargs) = refuse unknown_key
  bind_arguments names ((k, some x) ∷ kwargs) = do
    rest ← bind_arguments names kwargs
    ok ((k, x) ∷ rest)

  -- `section`, from the value that the key has
  unfoldable pub section_of : List String → Yaml → Result ConfigError (List (String × F))
  section_of names null = refuse null_section
  section_of names (mapping fs) = do
    kwargs ← coerce_section_floats names fs
    bind_arguments names kwargs
  section_of names _ = refuse not_mapping

  unfoldable pub section : List String → Fields → String → Result ConfigError (List (String × F))
  section names raw key = elim (get key raw) [ none ↦ ok [] | some v ↦ section_of names v ]

  -- an argument of the constructor, or its default
  abbrev pub argument : List (String × F) → String → F → F
  argument [] key d = d
  argument ((k, x) ∷ kwargs) key d = if key == k then x else argument kwargs key d

  unfoldable pub completion_section : Fields → Result ConfigError Completion
  completion_section raw = do
    kwargs ← section ("tolerance_m" ∷ "hold_time_s" ∷ []) raw "completion"
    ok (record {
      tolerance_m = argument kwargs "tolerance_m" (milli 500);
      hold_time_s = argument kwargs "hold_time_s" (milli 2000);
    })

  unfoldable pub abort_section : Fields → Result ConfigError AbortConfig
  abort_section raw = do
    kwargs ← section ("low_battery_threshold" ∷ []) raw "abort"
    ok (record { low_battery_threshold = argument kwargs "low_battery_threshold" (milli 200) })

  unfoldable pub approach_section : Fields → Result ConfigError Approach
  approach_section raw = do
    kwargs ← section ("standoff_m" ∷ "camera_pitch_rad" ∷ []) raw "approach"
    ok (record {
      standoff_m = argument kwargs "standoff_m" (milli 3000);
      camera_pitch_rad = argument kwargs "camera_pitch_rad" (milli 350);
    })

  unfoldable pub positive : F → Result ConfigError Unit
  positive value = do x ← finite value; refuse_if (le x (milli 0)) out_of_range

  unfoldable pub non_negative : F → Result ConfigError Unit
  non_negative value = do x ← finite value; refuse_if (lt x (milli 0)) out_of_range

  unfoldable pub unit_interval : F → Result ConfigError Unit
  unit_interval value = do
    x ← finite value
    refuse_if (not (le (milli 0) x && le x (milli 1000))) out_of_range

  unfoldable pub half_turn_down : F → Result ConfigError Unit
  half_turn_down value = do
    x ← finite value
    refuse_if (not (le (milli 0) x && lt x (half pi))) out_of_range

  unfoldable pub validate_dwells : List Waypoint → Result ConfigError Unit
  validate_dwells [] = ok tt
  validate_dwells (w ∷ ws) = non_negative w.dwell_s >> validate_dwells ws

  unfoldable pub validate_semantics : MissionConfig → Result ConfigError Unit
  validate_semantics cfg = do
    positive cfg.takeoff_alt_m
    non_negative cfg.hover_time_s
    positive cfg.completion.tolerance_m
    non_negative cfg.completion.hold_time_s
    unit_interval cfg.abort.low_battery_threshold
    positive cfg.approach.standoff_m
    half_turn_down cfg.approach.camera_pitch_rad
    validate_dwells cfg.waypoints
