-- ===== src/Mission/Config/Checkpoints.antt =====
-- config.py: the checkpoints file, read only where a waypoint refers to a checkpoint.
use patrol_drone.Prelude.{
  ◌∷◌, ◌++◌, ◌>>◌, ◌>>=◌, String, Option, Bool, Result, List, none, ok, [], or_raise, false,
  if◌then◌else◌, err, some, not, true, ◌||◌,
}
use text.Mathlib.Text.{◌==◌, starts_with}
use patrol_drone.Float.{Float}
use patrol_drone.Mission.Config.Yaml.{
  Yaml, FileError, ConfigError, value_error, mapping, str, require_mapping, Fields, missing_file,
  refuse, require, point, bad_checkpoint_id, get, file_error, bad_document, not_found, refuse_if,
  require_list, no_path, relative_path, sequence, items, duplicate_checkpoint, has,
}
use patrol_drone.Mission.Frames.{Point}

module _ ⦃fl : Float⦄ where
  -- the dict {checkpoint_id: position}, as its items
  abbrev pub Positions : Type 0
  Positions = List (String × Point)

  abbrev pub position_of : Positions → String → Option Point
  position_of [] cid = none
  position_of ((k, p) ∷ ps) cid = if cid == k then some p else position_of ps cid

  abbrev pub has_position : Positions → String → Bool
  has_position ps cid = elim (position_of ps cid) [ none ↦ false | some p ↦ true ]

  unfoldable pub checkpoint_id : Yaml → Result ConfigError String
  checkpoint_id (str s) = ok s
  checkpoint_id _ = refuse bad_checkpoint_id

  unfoldable pub checkpoint_entry : Yaml → Result ConfigError (String × Point)
  checkpoint_entry v = do
    fs ← require_mapping v
    id ← require fs "checkpoint_id"
    cid ← checkpoint_id id
    place ← require fs "position"
    p ← point place
    ok (cid, p)

  unfoldable pub checkpoint_list : Yaml → Result ConfigError (List Yaml)
  checkpoint_list (mapping fs) = do
    v ← or_raise (get "checkpoints" fs) (value_error bad_document)
    require_list v
  checkpoint_list (sequence is) = ok (items is)
  checkpoint_list _ = refuse bad_document

  -- the loop of `_checkpoints_map`, on the dict built so far
  unfoldable pub collect : Positions → List Yaml → Result ConfigError Positions
  collect ps [] = ok ps
  collect ps (v ∷ vs) = do
    (cid, p) ← checkpoint_entry v
    refuse_if (has_position ps cid) duplicate_checkpoint
    collect (ps ++ (cid, p) ∷ []) vs

  abbrev pub checkpoints_map : List Yaml → Result ConfigError Positions
  checkpoints_map raw = collect [] raw

  -- `open` and `yaml.safe_load` of a path
  module _ (read_yaml : String → Result FileError Yaml) where
    abbrev missing_or : FileError → ConfigError
    missing_or not_found = value_error missing_file
    missing_or e = file_error e

    abbrev read_checkpoints : String → Result ConfigError Yaml
    read_checkpoints path = elim (read_yaml path) [ ok v ↦ ok v | err e ↦ err (missing_or e) ]

    unfoldable pub load_checkpoints : String → Result ConfigError Positions
    load_checkpoints path = do
      raw ← read_checkpoints path
      entries ← checkpoint_list raw
      checkpoints_map entries

    abbrev pub references_checkpoint : List Fields → Bool
    references_checkpoint [] = false
    references_checkpoint (w ∷ ws) = has w "checkpoint_id" || references_checkpoint ws

    unfoldable pub resolve_checkpoints : List Fields → String → Result ConfigError Positions
    resolve_checkpoints raw_waypoints path =
        if not (references_checkpoint raw_waypoints) then ok [] else do
          refuse_if (path == "") no_path
          refuse_if (not (starts_with path "/")) relative_path
          load_checkpoints path
