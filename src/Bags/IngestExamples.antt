-- ===== src/Bags/IngestExamples.antt =====
-- Tests of the ingest service, and its theorems at concrete inputs.
use patrol_drone.Prelude.{
  ℕ, ℤ, pos, Bool, true, leb, ◌&&◌, String, [], ◌∷◌, ◌≡◌, refl, Option, none, some, Result, ok, err,
}
use patrol_drone.Float.Fixed.{inf, fixed_float, fin}
use patrol_drone.Shared.BoundedSeen.{new_seen}
use patrol_drone.Mission.Config.Yaml.{
  Yaml, integer, str as yaml_str, sequence, mapping, no_items, item as yaml_item, Fields, no_fields,
  entry as yaml_entry,
}
use patrol_drone.Bags.Disk
use patrol_drone.Bags.Disk.{
  Fault, yaml_error, overflow_error, str, object, member, no_members, Contents, json_text, plain,
  file, Entries, entry, no_entries, texts,
}
use patrol_drone.Bags.Layout
use patrol_drone.Bags.Recorder.Sidecar.{
  finalize_sidecar_from_staging, inputs_json, read_sidecar_inputs, parse_inputs, item,
}
use patrol_drone.Bags.Upload.{is_complete}
use patrol_drone.Bags.Ingest.{
  ManifestRow, ManifestStore, new_store, query_ordered, BagFactsReader, index,
  query_recently_recorded,
}
use patrol_drone.Bags.Ingest.Facts.{
  BagFacts, require_bag_information, require_mapping, require_declared_payloads, require_payloads,
  require_payload, metadata_duration_ns, to_int, metadata_topic_counts, topic_counts_from,
  topic_count_entry, read_bag_facts, facts_from_info, declared_payloads,
}
use patrol_drone.Bags.Ingest.Facts.Payloads.{FromMetadata, read_bag_facts-IsBacked}
use patrol_drone.Bags.Ingest.Manifest.{put, ask, run, spec_run, spec_of, run-Refines, find}
use patrol_drone.Bags.Ingest.Index.{Indexed, index-Indexed}
use patrol_drone.Bags.Ingest.Kept.{watch_loop-Keeps}
use patrol_drone.Bags.Ingest.Watch.{watch_loop}
use patrol_drone.Bags.Pipeline.{finalize-index}
use patrol_drone.Bags.Examples.{
  text_dates, text_dates_laws, bag_node, staged_run, staged_disk, staged_disk-finalizes,
}

-- The database is locked at every third access.
abbrev busy : ℕ → Bool
busy n = leb 3 n && leb n 3

abbrev clock : ℕ → String
clock n = "2026-01-02"

abbrev two_topics : BagFacts
two_topics = record { duration_s = fin (pos 7); topic_counts = ("/fmu", pos 3) ∷ [] }

abbrev reader : BagFactsReader
reader es bag = ok two_topics

abbrev row_a : ManifestRow
row_a = record {
  bag_id = "patrol_a";
  mission_id = "m1";
  recorded_utc = "2026-01-01";
  duration_s = fin (pos 7);
  topics_json = ("/fmu", pos 3) ∷ [];
  metadata_json = no_members;
  ingested_utc = "2026-01-02";
}

abbrev row_b : ManifestRow
row_b = record row_a { bag_id = "patrol_b"; recorded_utc = "2026-01-03" }

abbrev two_rows : ManifestStore
two_rows = record { rows = row_a ∷ row_b ∷ []; accesses = 0 }

-- a bag that has landed with its sidecar
abbrev landed : Entries
landed = entry "patrol_c" bag_node (
    entry "patrol_c.meta.json"
      (file (
        json_text (
          object (
            member "bag_uri" (str "patrol_c") (
              member "mission_id" (str "m1")
                (member "started_utc" (str "2026-01-01") no_members))))))
      no_entries)

run-Refines_example :
    spec_run busy (put row_a ∷ ask "patrol_a" ∷ put row_b ∷ []) (spec_of busy new_store) ≡ (
      let r = run busy (put row_a ∷ ask "patrol_a" ∷ put row_b ∷ []) new_store in
      (r.0, spec_of busy r.1))
run-Refines_example = run-Refines busy (put row_a ∷ ask "patrol_a" ∷ put row_b ∷ []) new_store

index-Indexed_example :
    Indexed reader landed "2026-01-02" "patrol_c" "patrol_c.meta.json" two_rows
      (index busy clock reader landed "patrol_c" "patrol_c.meta.json" two_rows)
index-Indexed_example =
    index-Indexed busy clock reader landed "patrol_c" "patrol_c.meta.json" two_rows

newest_test : query_recently_recorded busy (pos 1) two_rows ≡ ok (row_b ∷ [])
unfolding query_recently_recorded query_ordered
newest_test = refl

watch_loop-Keeps_example :
    find "patrol_b"
      (watch_loop busy clock reader (landed ∷ landed ∷ []) (two_rows, new_seen 2)).1.0.rows
    ≡ some row_b
watch_loop-Keeps_example =
    watch_loop-Keeps busy clock reader (landed ∷ landed ∷ []) "patrol_b" row_b
      (two_rows, new_seen 2) refl

finalize-index_example :
    let es = (finalize_sidecar_from_staging "0f" "now" "patrol_a" staged_disk).1.entries in
    (is_complete es "patrol_a" ≡ true)
    × ((index busy clock reader es "patrol_a" "patrol_a.meta.json" two_rows).0 ≡ ok tt)
unfolding read_sidecar_inputs parse_inputs item inputs_json
finalize-index_example =
    finalize-index text_dates_laws staged_run (texts ("/fmu" ∷ [])) "now" "0f" "patrol_a"
      "patrol_a.meta.json" staged_disk busy clock reader two_topics two_rows staged_disk-finalizes
      refl refl (refl, refl, ("m1", refl, refl)) refl refl

-- metadata with one payload and one topic
abbrev info : Fields
info = yaml_entry "duration" (mapping (yaml_entry "nanoseconds" (integer (pos 5)) no_fields)) (
    yaml_entry "relative_file_paths" (sequence (yaml_item (yaml_str "a_0.mcap") no_items)) (
      yaml_entry "topics_with_message_count"
        (sequence (
          yaml_item
            (mapping (
              yaml_entry "message_count" (integer (pos 3)) (
                yaml_entry "topic_metadata"
                  (mapping (yaml_entry "name" (yaml_str "/fmu") no_fields)) no_fields)))
            no_items))
        no_fields))

abbrev safe_load : Contents → Result Fault Yaml
safe_load (plain s) =
    ok (mapping (yaml_entry "rosbag2_bagfile_information" (mapping info) no_fields))
safe_load _ = err yaml_error

abbrev no_int : String → Option ℤ
no_int s = none

abbrev no_str : Yaml → String
no_str v = ""

abbrev no_info : String → Result Fault BagFacts
no_info bag = err yaml_error

abbrev five_ns : BagFacts
five_ns = record { duration_s = fixed_float.of_nanos (pos 5); topic_counts = ("/fmu", pos 3) ∷ [] }

read_bag_facts-IsBacked_example : FromMetadata no_int no_str safe_load (some bag_node) five_ns
unfolding read_bag_facts facts_from_info require_bag_information require_mapping
    require_declared_payloads declared_payloads require_payloads require_payload
    Layout.contained_payload_path metadata_duration_ns to_int metadata_topic_counts
    topic_counts_from topic_count_entry
read_bag_facts-IsBacked_example =
    read_bag_facts-IsBacked no_int no_str safe_load no_info (entry "patrol_a" bag_node no_entries)
      "patrol_a" five_ns refl refl

-- metadata with an infinite duration
abbrev endless : Fields
endless =
    yaml_entry "duration" (mapping (yaml_entry "nanoseconds" (Yaml.real inf) no_fields)) no_fields

abbrev load_endless : Contents → Result Fault Yaml
load_endless (plain s) =
    ok (mapping (yaml_entry "rosbag2_bagfile_information" (mapping endless) no_fields))
load_endless _ = err yaml_error
