-- ===== src/Bags/Recorder/Sidecar.antt =====
-- recorder.py: the sidecar of a recording, and the staging file from which it is finished.
use text.Mathlib.Text.{◌==◌}
use patrol_drone.Prelude.{
  Bool, false, ◌||◌, not, String, List, [], ◌∷◌, Option, none, some, Result, ok, err, if◌then◌else◌,
  or_raise, ◌>>=◌,
}
use patrol_drone.Bags.Text.{◌<>◌}
use patrol_drone.Bags.Dates.{Dates}
use patrol_drone.Bags.Disk.{
  os_error, Fault, value_error, key_error, type_error, Json, null, boolean, number, str, array,
  object, Values, no_values, value, Members, no_members, member, json_text, Node, read_json, get,
}
use patrol_drone.Bags.Layout.{contains}
use patrol_drone.Bags.Publish.{Disk, at, unlink, atomic_write_text}
use patrol_drone.Bags.Recorder.{is_regular_file, is_finalized_bag_dir}

abbrev pub sidecar_inputs_path : String → String
sidecar_inputs_path bag = bag <> ".sidecar-inputs.json"

abbrev pub meta_path : String → String
meta_path bag = bag <> ".meta.json"

-- `payload[key]`
unfoldable pub item : Json → String → Result Fault Json
item (object ms) key = or_raise (get key ms) key_error
item null key = err type_error
item (boolean b) key = err type_error
item (number t) key = err type_error
item (str t) key = err type_error
item (array vs) key = err type_error

abbrev pub characters : String → Values
characters String.[] = no_values
characters (String.◌∷◌ c s) = value (str (String.◌∷◌ c "")) (characters s)

abbrev pub has_key : String → Members → Bool
has_key k no_members = false
has_key k (member n j ms) = k == n || has_key k ms

-- the keys of a dict, each at its first place; the first argument holds those already there
abbrev pub keys_after : List String → Members → Values
keys_after before no_members = no_values
keys_after before (member n j ms) =
    let rest = keys_after (n ∷ before) ms in if contains before n then rest else value (str n) rest

-- `list(v)`
unfoldable pub as_list : Json → Result Fault Values
as_list (array vs) = ok vs
as_list (str s) = ok (characters s)
as_list (object ms) = ok (keys_after [] ms)
as_list null = err type_error
as_list (boolean b) = err type_error
as_list (number t) = err type_error

module _ ⦃dates : Dates⦄ where
  open dates use {DateTime, isoformat, fromisoformat}

  -- A text that was read back from a file may be any JSON value, since nothing checks it.
  pub record RecordingRun : Type 0 where
    pub mission_id : Json
    pub bag_uri : Json
    pub started : DateTime
    pub mission_config_ref : Json

  pub record BagSidecar : Type 0 where
    pub mission_id : Json
    pub bag_uri : Json
    pub started_utc : String
    pub ended_utc : String
    pub recorded_topics : Values
    pub mission_config_ref : Json

  unfoldable pub build_sidecar : RecordingRun → DateTime → Values → BagSidecar
  build_sidecar run ended recorded_topics = record {
    mission_id = run.mission_id;
    bag_uri = run.bag_uri;
    started_utc = isoformat run.started;
    ended_utc = isoformat ended;
    recorded_topics = recorded_topics;
    mission_config_ref = run.mission_config_ref;
  }

  -- `json.dumps(asdict(sidecar), sort_keys=True)`
  unfoldable pub sidecar_json : BagSidecar → Json
  sidecar_json s = object (
      member "bag_uri" s.bag_uri (
        member "ended_utc" (str s.ended_utc) (
          member "mission_config_ref" s.mission_config_ref (
            member "mission_id" s.mission_id (
              member "recorded_topics" (array s.recorded_topics)
                (member "started_utc" (str s.started_utc) no_members))))))

  unfoldable pub write_sidecar : String → String → BagSidecar → Disk → Result Fault Unit × Disk
  write_sidecar secret path s d = atomic_write_text secret path (json_text (sidecar_json s)) d

  unfoldable pub inputs_json : RecordingRun → Values → Json
  inputs_json run recorded_topics = object (
      member "bag_uri" run.bag_uri (
        member "mission_config_ref" run.mission_config_ref (
          member "mission_id" run.mission_id (
            member "recorded_topics" (array recorded_topics)
              (member "started_utc" (str (isoformat run.started)) no_members)))))

  unfoldable pub write_sidecar_inputs :
      String → String → RecordingRun → Values → Disk → Result Fault Unit × Disk
  write_sidecar_inputs secret path run recorded_topics d =
      atomic_write_text secret path (json_text (inputs_json run recorded_topics)) d

  -- `datetime.fromisoformat(v)`
  unfoldable pub parse_date : Json → Result Fault DateTime
  parse_date (str s) = or_raise (fromisoformat s) value_error
  parse_date (object ms) = err type_error
  parse_date null = err type_error
  parse_date (boolean b) = err type_error
  parse_date (number t) = err type_error
  parse_date (array vs) = err type_error

  unfoldable pub parse_inputs : Json → Result Fault (RecordingRun × Values)
  unfolding parse_date as_list
  parse_inputs payload = do
    mission_id ← item payload "mission_id"
    bag_uri ← item payload "bag_uri"
    started_utc ← item payload "started_utc"
    started ← parse_date started_utc
    mission_config_ref ← item payload "mission_config_ref"
    recorded_topics ← item payload "recorded_topics"
    topics ← as_list recorded_topics
    ok (
      record {
        mission_id = mission_id;
        bag_uri = bag_uri;
        started = started;
        mission_config_ref = mission_config_ref;
      },
      topics,
    )

  unfoldable pub read_sidecar_inputs : Option Node → Result Fault (RecordingRun × Values)
  read_sidecar_inputs path = do payload ← read_json path; parse_inputs payload

  -- `inputs.unlink()`, which may raise, and the result after it
  abbrev pub remove_inputs : String → Option String → Disk → Result Fault (Option String) × Disk
  remove_inputs bag path d =
      if d.stuck then (err os_error, d) else (ok path, unlink (sidecar_inputs_path bag) d)

  -- the steps after the sidecar is written
  abbrev pub clear_staging : String → Result Fault Unit × Disk → Result Fault (Option String) × Disk
  clear_staging bag (ok u, d) = remove_inputs bag (some (meta_path bag)) d
  clear_staging bag (err e, d) = (err e, d)

  abbrev pub finish_sidecar :
      String
      → DateTime
      → String
      → Disk
      → Result Fault (RecordingRun × Values)
      → Result Fault (Option String) × Disk
  finish_sidecar secret now bag d (ok (run, recorded_topics)) =
      clear_staging bag
        (write_sidecar secret (meta_path bag) (build_sidecar run now recorded_topics) d)
  finish_sidecar secret now bag d (err e) = (err e, d)

  unfoldable pub finalize_sidecar_from_staging :
      String → DateTime → String → Disk → Result Fault (Option String) × Disk
  finalize_sidecar_from_staging secret now bag d =
      if not (is_finalized_bag_dir (at d bag))
      then (ok none, d)
      else if not (is_regular_file (at d (sidecar_inputs_path bag)))
      then (ok none, d)
      else if is_regular_file (at d (meta_path bag))
      then remove_inputs bag none d
      else finish_sidecar secret now bag d (read_sidecar_inputs (at d (sidecar_inputs_path bag)))
