-- ===== src/Bags/Examples.antt =====
-- Tests of the recorder and the uploader on a small directory, and the theorems at concrete inputs.
use Prim.Native.String.{len}
use text.Mathlib.TextPositions.{eq_refl, len-append}
use patrol_drone.Prelude.{
  pos, true, false, leb, not, ◌&&◌, String, List, [], ◌∷◌, ◌++◌, ◌≡◌, ◌≢◌, refl, ap, ◌∙◌, Option,
  none, some, ok, arith,
}
use patrol_drone.Shared.BoundedSeen.{new_seen}
use patrol_drone.Bags.Text.{path_parts, is_absolute, strip, rstrip_slashes, is_space, sorted}
use patrol_drone.Bags.Dates.{Dates, DatesLaws}
use patrol_drone.Bags.Disk.{
  str, object, no_members, texts, json_text, plain, not_json, Node, file, folder, link, Entries,
  entry, no_entries, insert,
}
use patrol_drone.Bags.Disk.Lookup.{lookup-insert_other}
use patrol_drone.Bags.Layout.{is_regular_file, is_valid_bag_dir, contained_payload_path}
use patrol_drone.Bags.Layout.Contained.{resolve, contained_payload_path-Stays}
use patrol_drone.Bags.Publish.{Disk, publish_bytes_exclusive, atomic_write_text}
use patrol_drone.Bags.Publish.Crash.{
  Atomic, Exclusive, publish_bytes_exclusive-Atomic, atomic_write_text-Atomic,
}
use patrol_drone.Bags.Recorder.{
  is_finalized_bag_dir, validate_run_id, run_id_rejection, bag_name, sanitize_mission_id,
  collapse_unsafe, is_fs_safe,
}
use patrol_drone.Bags.Recorder
use patrol_drone.Bags.Recorder.Names.{validate_run_id-IsSegment, bag_name-IsSegment}
use patrol_drone.Bags.Recorder.Sidecar.{
  item, parse_inputs, write_sidecar, RecordingRun, write_sidecar_inputs,
  finalize_sidecar_from_staging, read_sidecar_inputs, inputs_json,
}
use patrol_drone.Bags.Recorder.Staging.{
  Staged, write_sidecar_inputs-Staged, is_finalized_bag_dir-is_valid_bag_dir,
}
use patrol_drone.Bags.Recorder.Finalize.{Finalized, finalize_sidecar_from_staging-Finalized}
use patrol_drone.Bags.Upload.{
  UploadDaemon, World, iter_bag_dirs, is_complete, canonical_target, receipt_bytes, on_bag_complete,
  send_with_retry, send_all, attempts, write_upload_marker,
}
use patrol_drone.Bags.Upload.Retry.{tries}
use patrol_drone.Bags.Upload.Receipt.{Receipted, marked-uploaded, write_upload_marker-Receipted}
use patrol_drone.Bags.Upload.Ship.{Shipped, on_bag_complete-Shipped}
use patrol_drone.Bags.Upload.Once.{Handled, watch_loop-Handled}
use patrol_drone.Bags.Upload.Live.{Delivered, on_bag_complete-Live}
use patrol_drone.Bags.Upload.Watch.{watch_loop}

-- A date is the text after a leading `T`.
abbrev without_t : String → Option String
without_t String.[] = none
without_t (String.◌∷◌ c s) = some s

instance abbrev pub text_dates : Dates
text_dates = record {
  DateTime = String;
  isoformat = λ d. String.◌∷◌ "T" d;
  fromisoformat = without_t;
  bag_stamp = λ d. "20260101_000000";
  run_stamp = λ d. "20260101T000000Z";
}

pub text_dates_laws : DatesLaws
text_dates_laws = record { from_iso = λ d. refl; written = λ d. refl; digits = λ d. refl }

-- a finished bag
abbrev pub bag_node : Node
bag_node =
    folder (entry "metadata.yaml" (file (plain "m")) (entry "a_0.mcap" (file not_json) no_entries))

-- the bag with its sidecar, and a bag that was cut off
abbrev two_bags : Entries
two_bags = entry "patrol_b" (folder (entry "metadata.yaml" (file (plain "m")) no_entries)) (
    entry "patrol_a.meta.json" (file (json_text (object no_members)))
      (entry "patrol_a" bag_node (entry "planted" (link false bag_node) no_entries)))

abbrev disk : Disk
disk = record { entries = two_bags; past = []; full = false; stuck = false }

-- It refuses the first transfer.
abbrev flaky_daemon : UploadDaemon
flaky_daemon = record {
  transport = λ log path target. ok (leb 1 (tries log));
  target = "dgx:/data/bags/";
  max_retries = pos 3;
  secret = λ d. "0f";
}

abbrev world : World
world = record { disk = disk; log = [] }

candidates_test : iter_bag_dirs (some two_bags) ≡ "patrol_a" ∷ "patrol_b" ∷ []
unfolding iter_bag_dirs sorted
candidates_test = refl

complete_test : is_complete two_bags "patrol_a" && not (is_complete two_bags "patrol_b") ≡ true
unfolding is_complete is_valid_bag_dir is_regular_file
complete_test = refl

target_test : canonical_target " dgx:/data/bags// " ≡ "dgx:/data/bags"
unfolding canonical_target strip rstrip_slashes is_space
target_test = refl

root_test : canonical_target "/" ≡ "/"
unfolding canonical_target strip rstrip_slashes is_space
root_test = refl

upload_test : (on_bag_complete flaky_daemon "patrol_a" world).0 ≡ ok true
unfolding on_bag_complete is_complete is_valid_bag_dir is_regular_file send_all send_with_retry
    attempts write_upload_marker publish_bytes_exclusive
upload_test = refl

on_bag_complete-Shipped_example :
    Shipped flaky_daemon "patrol_a" world (on_bag_complete flaky_daemon "patrol_a" world)
on_bag_complete-Shipped_example = on_bag_complete-Shipped flaky_daemon "patrol_a" world

on_bag_complete-Live_example :
    ((on_bag_complete flaky_daemon "patrol_a" world).0 ≡ ok true)
    × Delivered flaky_daemon "patrol_a" world (on_bag_complete flaky_daemon "patrol_a" world).1
unfolding is_complete is_valid_bag_dir is_regular_file
on_bag_complete-Live_example =
    on_bag_complete-Live flaky_daemon 1 (λ log path target. refl) (omega arith) "patrol_a" world
      refl (omega arith) refl refl refl refl

write_upload_marker-Receipted_example :
    Receipted "patrol_a" "dgx:/data/bags/" disk
      (write_upload_marker "0f" "patrol_a" "dgx:/data/bags/" disk)
write_upload_marker-Receipted_example =
    write_upload_marker-Receipted "0f" "patrol_a" "dgx:/data/bags/" disk

-- the directory after the upload, and another process that adds a bag
abbrev uploaded : World
uploaded = record {
  disk = record disk {
    entries =
        entry "patrol_a.uploaded" (file (receipt_bytes "patrol_a" "dgx:/data/bags/")) two_bags;
  };
  log = [];
}

abbrev add_bag : Entries → Entries
add_bag es = insert "patrol_c" bag_node es

uploaded-Handled : Handled flaky_daemon "patrol_a" 0 uploaded
uploaded-Handled = (
  marked-uploaded uploaded.disk.entries "patrol_a" "dgx:/data/bags/" "dgx:/data/bags/" refl
      ∙ ap ok (eq_refl (canonical_target "dgx:/data/bags/")),
  refl,
)

watch_loop-Handled_example :
    Handled flaky_daemon "patrol_a" 0
      (watch_loop flaky_daemon (add_bag ∷ add_bag ∷ []) (uploaded, new_seen 1)).1.0
watch_loop-Handled_example =
    watch_loop-Handled flaky_daemon "patrol_a" 0 (add_bag ∷ add_bag ∷ []) (uploaded, new_seen 1)
      (λ b e. omega (arith, ap len e, len-append b ".meta.json"))
      (
        λ es.
            lookup-insert_other "patrol_a.uploaded" "patrol_c" bag_node es
              (λ e. omega (arith, ap len e)),
        (
          λ es.
              lookup-insert_other "patrol_a.uploaded" "patrol_c" bag_node es
                (λ e. omega (arith, ap len e)),
          tt,
        ),
      )
      uploaded-Handled

publish_bytes_exclusive-Atomic_example :
    Atomic "m" "0f" not_json disk (publish_bytes_exclusive "0f" "m" not_json disk)
    × Exclusive "m" "0f" not_json disk (publish_bytes_exclusive "0f" "m" not_json disk)
publish_bytes_exclusive-Atomic_example = publish_bytes_exclusive-Atomic "m" "0f" not_json disk tt

atomic_write_text-Atomic_example :
    Atomic "patrol_a.meta.json" "0f" not_json disk
      (atomic_write_text "0f" "patrol_a.meta.json" not_json disk)
atomic_write_text-Atomic_example =
    atomic_write_text-Atomic "patrol_a.meta.json" "0f" not_json disk tt

is_finalized_bag_dir-is_valid_bag_dir_example :
    is_finalized_bag_dir (some bag_node) ≡ is_valid_bag_dir (some bag_node)
is_finalized_bag_dir-is_valid_bag_dir_example =
    is_finalized_bag_dir-is_valid_bag_dir (some bag_node) refl

abbrev run_id : String
run_id = "20260101T000000Z"

validate_run_id-IsSegment_example :
    (run_id ≡ run_id)
    × (path_parts run_id ≡ run_id ∷ [])
    × (is_absolute run_id ≡ false)
    × (run_id ≢ "..")
unfolding validate_run_id run_id_rejection strip is_space
validate_run_id-IsSegment_example = validate_run_id-IsSegment run_id run_id refl

contained_payload_path-Stays_example :
    (is_absolute "./a_0.mcap" ≡ false)
    × ((below : List String) × (resolve ("patrol_a" ∷ []) ("a_0.mcap" ∷ [])
          ≡ below ++ ("patrol_a" ∷ []))
        × (below ≢ []))
unfolding contained_payload_path
contained_payload_path-Stays_example =
    contained_payload_path-Stays "./a_0.mcap" ("a_0.mcap" ∷ []) ("patrol_a" ∷ []) refl

abbrev pub staged_run : RecordingRun
staged_run = record {
  mission_id = str "m1";
  bag_uri = str "patrol_a";
  started = "noon";
  mission_config_ref = str "mission.yaml";
}

write_sidecar_inputs-Staged_example :
    Staged "patrol_a.sidecar-inputs.json" staged_run (texts ("/fmu" ∷ [])) disk (
      write_sidecar_inputs "0f" "patrol_a.sidecar-inputs.json" staged_run
        (texts ("/fmu" ∷ []))
        disk)
write_sidecar_inputs-Staged_example =
    write_sidecar_inputs-Staged text_dates_laws "0f" "patrol_a.sidecar-inputs.json" staged_run
      (texts ("/fmu" ∷ [])) disk

-- a finished bag with its staging file
abbrev pub staged_disk : Disk
staged_disk = record {
  entries = entry "patrol_a" bag_node (
      entry "patrol_a.sidecar-inputs.json"
        (file (json_text (inputs_json staged_run (texts ("/fmu" ∷ []))))) no_entries);
  past = [];
  full = false;
  stuck = false;
}

finalize_sidecar_from_staging-Finalized_example :
    Finalized "now" "patrol_a" staged_disk
      (finalize_sidecar_from_staging "0f" "now" "patrol_a" staged_disk)
finalize_sidecar_from_staging-Finalized_example =
    finalize_sidecar_from_staging-Finalized "now" "patrol_a" staged_disk "0f"

pub staged_disk-finalizes :
    (finalize_sidecar_from_staging "0f" "now" "patrol_a" staged_disk).0
    ≡ ok (some "patrol_a.meta.json")
unfolding finalize_sidecar_from_staging is_finalized_bag_dir Recorder.is_regular_file
    read_sidecar_inputs parse_inputs item inputs_json write_sidecar atomic_write_text
staged_disk-finalizes = refl

climbing_name : bag_name "../a b" "now" ≡ ok "patrol_.._a_b_20260101_000000"
unfolding bag_name sanitize_mission_id collapse_unsafe strip is_space is_fs_safe
climbing_name = refl

bag_name-IsSegment_example :
    path_parts "patrol_.._a_b_20260101_000000" ≡ "patrol_.._a_b_20260101_000000" ∷ []
bag_name-IsSegment_example =
    bag_name-IsSegment text_dates_laws "../a b" "now" "patrol_.._a_b_20260101_000000" climbing_name
