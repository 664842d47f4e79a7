-- ===== src/Perception/CaptureExamples.antt =====
-- Tests of the checkpoints file and of the writer of the perception package, and their theorems at
-- concrete inputs: two checkpoints, and a run of four captures of which two fail.
use patrol_drone.Mission.Frames.{enu_quaternion_from_ned_heading, ned_yaw_to_enu}
use patrol_drone.Prelude.{
  Option, Option, some, pos, ok, err, ◌∷◌, ◌>>=◌, Result, ℕ, List, none, [], String, Bool, true,
  refl, ◌≡◌, Ensures, Permits, All, length, map,
}
use patrol_drone.Float.Fixed.{fixed_float, fin}
use patrol_drone.Mission.Config.Yaml.{
  Yaml, entry, no_fields, mapping, sequence, item, no_items, str, integer, real,
}
use patrol_drone.Bags.Text.{strip, path_parts, is_space}
use patrol_drone.Bags.Recorder.{run_id_rejection}
use patrol_drone.Perception.Resolver.{Entries, Detection, resolve, verbatim}
use patrol_drone.Perception.Coordinator.{
  CaptureRecord, Coordinator, CaptureError, on_trigger, first_detection, is_fresh, sample_world,
  capture, persist, build_message,
}
use patrol_drone.Perception.Samplers.{latest_at, update, sample}
use patrol_drone.Perception.Examples.{encode, settings, at, readings, tag, pose}
use patrol_drone.Perception.Filed.{calm, Store, write_next}
use patrol_drone.Perception.Published.{Agrees, on_trigger-Agrees}
use patrol_drone.Perception.CheckpointConfig.{
  ReadFault, load, read, collect, parse_row, checkpoint_rows, require_mapping, require_safe_id,
  require_str, require_int, require_number, parse_position, is_safe_id, is_id_char, complain,
  duplicate_tag, unsafe_id,
}
use patrol_drone.Perception.CheckpointConfig.Maps.{Maps, load-Maps}
use patrol_drone.Perception.Writer.{
  stored, image_file, refused, torn, Trouble, CaptureWriter, new_writer, write, run,
  run_id_is_unsafe, child_path, pad3, decimal, Call, unsafe_run_id,
}
use patrol_drone.Perception.Writer.Kept.{Numbered, run-Numbered}

abbrev row : String → Yaml → Yaml
row id tag =
    let place = mapping (
      entry "x" (integer (pos 1))
        (entry "y" (real (fin (pos 500))) (entry "z" (real (fin (pos 0))) no_fields))) in
    mapping (
      entry "checkpoint_id" (str id) (
        entry "tag_id" tag
          (entry "tag_family" (str "tag36h11") (entry "position" place no_fields))))

abbrev document : Yaml → Yaml → Yaml
document a b = mapping (entry "checkpoints" (sequence (item a (item b no_items))) no_fields)

abbrev there : String → Bool
there path = true

abbrev table : Entries
table =
    (
      pos 0,
      record {
        checkpoint_id = "cp_a";
        tag_id = pos 0;
        tag_family = "tag36h11";
        position = (fin (pos 1000), fin (pos 500), fin (pos 0));
      },
    )
    ∷ (
      pos 1,
      record {
        checkpoint_id = "cp_b";
        tag_id = pos 1;
        tag_family = "tag36h11";
        position = (fin (pos 1000), fin (pos 500), fin (pos 0));
      },
    )
    ∷ []

abbrev document_read : String → Result ReadFault Yaml
document_read path = ok (document (row "cp_a" (integer (pos 0))) (row "cp_b" (integer (pos 1))))

table_loaded : load there document_read "checkpoints.yaml" ≡ ok table
unfolding load read checkpoint_rows require_mapping collect parse_row require_safe_id require_str
    require_int require_number parse_position is_safe_id is_id_char
table_loaded = refl

duplicate_tag_test :
    load there
      (λ _. ok (document (row "cp_a" (integer (pos 0))) (row "cp_b" (integer (pos 0)))))
      "c.yaml"
    ≡ complain duplicate_tag
unfolding load read checkpoint_rows require_mapping collect parse_row require_safe_id require_str
    require_int require_number parse_position is_safe_id is_id_char
duplicate_tag_test = refl

unsafe_id_test :
    load there
      (λ _. ok (document (row "a/b" (integer (pos 0))) (row "cp_b" (integer (pos 1)))))
      "c.yaml"
    ≡ complain unsafe_id
unfolding load read checkpoint_rows require_mapping collect parse_row require_safe_id require_str
    require_int require_number parse_position is_safe_id is_id_char
unsafe_id_test = refl

abbrev seen : Detection
seen = record { id = pos 1; family = "36h11"; decision_margin = none; hamming = none }

load-Maps_example :
    Ensures (All (Maps table)) (read there document_read "checkpoints.yaml" >>= checkpoint_rows)
    × Permits (λ r. is_safe_id r.0 ≡ true) (resolve table seen)
load-Maps_example = load-Maps there document_read "checkpoints.yaml" table seen table_loaded

abbrev taken : String → CaptureRecord
taken id = record {
  stamp = (pos 4, pos 0);
  frame_id = "patrol_world";
  checkpoint_id = id;
  position = (fin (pos 0), fin (pos 0), fin (pos 0));
  orientation = (fin (pos 0), fin (pos 0), fin (pos 0), fin (pos 1000));
  image_path = "";
  metadata = ("tag_id", verbatim "1") ∷ [];
}

abbrev call : Trouble → String → ℕ → Call ℕ
call trouble id bytes = record { trouble = trouble; rec = taken id; image_bytes = bytes }

-- a capture, one whose sidecar is torn, its repetition, and a second visit
abbrev calls : List (Call ℕ)
calls =
    call calm "cp_a" 10
    ∷ call (record calm { sidecar = torn }) "cp_b" 20
    ∷ call (record calm { image = refused }) "cp_b" 30
    ∷ call calm "cp_a" 40
    ∷ []

abbrev writer : CaptureWriter
writer = record { run_dir = "captures/run_1"; index = 0 }

writer_built : new_writer "captures/" "run_1" ≡ ok writer
unfolding new_writer run_id_is_unsafe child_path path_parts strip is_space
writer_built = refl

paths_test :
    map (λ c. c.0) (run ℕ (writer, []) calls).1
    ≡ "captures/run_1/000_cp_a.png" ∷ "captures/run_1/001_cp_a.png" ∷ []
unfolding run write pad3 decimal
paths_test = refl

-- The image of the failed capture stays, since the next capture is of another checkpoint.
orphan_test : stored ℕ "001_cp_b.png" (run ℕ (writer, []) calls).0.1 ≡ some (image_file 20)
unfolding run write pad3 decimal
orphan_test = refl

climbing_test : new_writer "captures" ".." ≡ err unsafe_run_id
unfolding new_writer run_id_is_unsafe strip is_space
climbing_test = refl

calls_safe : All (λ c. is_safe_id c.rec.checkpoint_id ≡ true) calls
unfolding is_safe_id is_id_char
calls_safe = (refl, (refl, (refl, (refl, tt))))

run-Numbered_example :
    let (last, captures) = run ℕ (writer, []) calls in
    (run_id_rejection "run_1" ≡ none)
    × (last.0.index ≡ length captures)
    × Numbered ℕ (child_path "captures/" "run_1") 0 last.1 captures
run-Numbered_example = run-Numbered ℕ "captures/" "run_1" writer [] calls writer_built calls_safe

-- A tag in view and all streams fresh, with the writer in place; its next write fails half-way.
abbrev Recording : Type 0
Recording = Coordinator ℕ ℕ (Store ℕ) encode (write_next ℕ)

abbrev ready : List Trouble → Recording
ready troubles = record {
  settings = settings;
  frames = record { value = some 5; received_at = some (at 1) };
  poses = record { value = some pose; received_at = some (at 1) };
  detections = record { value = some (tag ∷ []); received_at = some (at 1) };
  latched_token = none;
  writer = some ((writer, []), troubles);
}

abbrev path_of : Result CaptureError (Recording × Option CaptureRecord) → Option String
path_of (ok (c, some m)) = some m.image_path
path_of _ = none

published_test :
    path_of (on_trigger ℕ ℕ (Store ℕ) encode (write_next ℕ) (ready []) (readings 1) (pos 0))
    ≡ some "captures/run_1/000_cp_a.png"
unfolding on_trigger first_detection latest_at update is_fresh sample_world sample resolve capture
    persist build_message write pad3 decimal enu_quaternion_from_ned_heading ned_yaw_to_enu
published_test = refl

degraded_test :
    path_of (
      on_trigger ℕ ℕ
        (Store ℕ)
        encode
        (write_next ℕ)
        (ready (record calm { sidecar = torn } ∷ []))
        (readings 1)
        (pos 0))
    ≡ some ""
unfolding on_trigger first_detection latest_at update is_fresh sample_world sample resolve capture
    persist build_message write pad3 decimal enu_quaternion_from_ned_heading ned_yaw_to_enu
degraded_test = refl

on_trigger-Agrees_example :
    Ensures
      (Agrees ℕ ℕ encode (ready []))
      (on_trigger ℕ ℕ (Store ℕ) encode (write_next ℕ) (ready []) (readings 1) (pos 0))
on_trigger-Agrees_example =
    on_trigger-Agrees ℕ ℕ encode (ready []) (readings 1) (pos 0) (λ i. (i, refl)) refl (refl, tt)
