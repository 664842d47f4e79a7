-- ===== src/Bags/Recorder/Staging.antt =====
-- recorder.py: the staging file gives back the facts of the recording, and the sidecar is finished from
-- it once.
use patrol_drone.Prelude.{
  ◌⊎◌, false, String, ◌≡◌, ◌≢◌, refl, Option, none, some, Result, ok, err, arith,
}
use patrol_drone.Bags.Dates.{Dates, DatesLaws}
use patrol_drone.Bags.Disk.{
  Fault, Values, json_text, Node, file, folder, link, dangling, special, Entries, no_entries, entry,
  is_symlink,
}
use patrol_drone.Bags.Layout
use patrol_drone.Bags.Layout.{is_valid_bag_dir, any_payload}
use patrol_drone.Bags.Publish.{Disk, at}
use patrol_drone.Bags.Publish.Crash.{Left, Keeping, atomic_write_text-Keeping}
use patrol_drone.Bags.Recorder.{is_regular_file, any_mcap, is_finalized_bag_dir}
use patrol_drone.Bags.Recorder.Sidecar.{
  RecordingRun, inputs_json, write_sidecar_inputs, parse_inputs, read_sidecar_inputs, item,
}

any_mcap-any_payload : (es : Entries) → any_mcap es ≡ any_payload es
unfolding is_regular_file Layout.is_regular_file
any_mcap-any_payload no_entries = refl
any_mcap-any_payload (entry n v es) = rw (any_mcap-any_payload es) refl

-- The recorder's test of a finished bag agrees with the one that the uploader and the ingest service
-- share, of every name that is not a symbolic link.
pub is_finalized_bag_dir-is_valid_bag_dir :
    (bag : Option Node) → is_symlink bag ≡ false → is_finalized_bag_dir bag ≡ is_valid_bag_dir bag
unfolding is_finalized_bag_dir is_valid_bag_dir is_regular_file Layout.is_regular_file
is_finalized_bag_dir-is_valid_bag_dir none h = refl
is_finalized_bag_dir-is_valid_bag_dir (some (file c)) h = refl
is_finalized_bag_dir-is_valid_bag_dir (some (folder es)) h = ground (arith, any_mcap-any_payload es)
is_finalized_bag_dir-is_valid_bag_dir (some (link inside n)) h = cc
is_finalized_bag_dir-is_valid_bag_dir (some dangling) h = cc
is_finalized_bag_dir-is_valid_bag_dir (some special) h = refl

module _ ⦃dates : Dates⦄ where
  open dates use {DateTime, isoformat, fromisoformat}

  read-inputs_json :
      (laws : DatesLaws) (run : RecordingRun) (recorded_topics : Values)
      → read_sidecar_inputs (some (file (json_text (inputs_json run recorded_topics))))
        ≡ ok (run, recorded_topics)
  unfolding read_sidecar_inputs parse_inputs inputs_json item
  read-inputs_json laws run recorded_topics = rw (laws.from_iso run.started) refl

  -- What staging the facts of a recording comes to.
  abbrev pub Staged : String → RecordingRun → Values → Disk → Result Fault Unit × Disk → Type 0
  Staged path run recorded_topics d (ok u, d') =
      (read_sidecar_inputs (at d' path) ≡ ok (run, recorded_topics))
      × ((k : String) → k ≢ path → at d' k ≡ at d k)
  Staged path run recorded_topics d (err e, d') =
      ((k : String) → at d' k ≡ at d k)
      ⊎ Left path "" (json_text (inputs_json run recorded_topics)) d d'

  staged :
      (laws : DatesLaws) (path : String) (run : RecordingRun) (recorded_topics : Values) (d : Disk)
      (r : Result Fault Unit × Disk)
      → Keeping path "" (json_text (inputs_json run recorded_topics)) d r
      → Staged path run recorded_topics d r
  staged laws path run recorded_topics d (ok _, d') (_, (placed, others)) =
      (rw placed (read-inputs_json laws run recorded_topics), others)
  staged laws path run recorded_topics d (err e, d') (_, same) = same

  -- Where the facts of a recording are staged, reading them gives the same facts, to the start time and
  -- the topics, and no other name changes. Where the writing fails no name changes, or a removal failed
  -- too and all that may have changed is that the temporary file is there, or the whole new one.
  pub write_sidecar_inputs-Staged :
      (laws : DatesLaws) (secret path : String) (run : RecordingRun) (recorded_topics : Values)
      (d : Disk)
      → Staged path run recorded_topics d (write_sidecar_inputs secret path run recorded_topics d)
  unfolding write_sidecar_inputs
  write_sidecar_inputs-Staged laws secret path run recorded_topics d =
      staged laws path run recorded_topics d _
        (atomic_write_text-Keeping path secret (json_text (inputs_json run recorded_topics)) d)
