-- ===== src/Bags/Pipeline.antt =====
-- The recorder, the uploader and the ingest service together: a bag that the recorder finishes is one
-- that the uploader takes, and that the ingest service accepts.
use text.Mathlib.TextPositions.{eq_refl}
use patrol_drone.Prelude.{
  ℕ, Bool, true, false, String, ◌≡◌, ◌≢◌, refl, sym, ◌∙◌, ap, Option, none, some, Result, ok, err,
}
use patrol_drone.Float.{Float}
use patrol_drone.Bags.Text.{is_empty}
use patrol_drone.Bags.Dates.{Dates, DatesLaws}
use patrol_drone.Bags.Disk.{
  Fault, Json, str, object, Values, Members, json_text, file, Entries, lookup, is_symlink,
}
use patrol_drone.Bags.Disk.Lookup.{ne-append}
use patrol_drone.Bags.Layout
use patrol_drone.Bags.Layout.{is_valid_bag_dir}
use patrol_drone.Bags.Publish.{Disk, at}
use patrol_drone.Bags.Recorder.{is_finalized_bag_dir}
use patrol_drone.Bags.Recorder.Sidecar.{
  RecordingRun, build_sidecar, sidecar_json, read_sidecar_inputs, sidecar_inputs_path, meta_path,
  finalize_sidecar_from_staging,
}
use patrol_drone.Bags.Recorder.Staging.{is_finalized_bag_dir-is_valid_bag_dir}
use patrol_drone.Bags.Recorder.Finalize.{
  Finished, Finalized, finalize_sidecar_from_staging-Finalized,
}
use patrol_drone.Bags.Upload.{is_complete}
use patrol_drone.Bags.Ingest.{BagFactsReader, ManifestStore, index, row_of, upsert}
use patrol_drone.Bags.Ingest.Facts.{BagFacts}
use patrol_drone.Bags.Ingest.Sidecar.{
  load_valid_sidecar, validate_sidecar_fields, require_finalized_bag,
}

bag-ne-meta : (bag : String) → bag ≢ meta_path bag
bag-ne-meta bag = ne-append bag ".meta.json" (cc)

bag-ne-inputs : (bag : String) → bag ≢ sidecar_inputs_path bag
bag-ne-inputs bag = ne-append bag ".sidecar-inputs.json" (cc)

module _ ⦃dates : Dates⦄ (laws : DatesLaws) where
  open dates use {DateTime}

  -- The facts of a recording name its bag and a mission.
  abbrev pub Identifies : RecordingRun → String → Type 0
  Identifies run bag =
      (run.bag_uri ≡ str bag)
      × (is_empty bag ≡ false)
      × ((mission : String) × (run.mission_id ≡ str mission) × (is_empty mission ≡ false))

  abbrev pub members_of : Json → Members
  members_of (object ms) = ms
  members_of j = Members.no_members

  sidecar_fits :
      (run : RecordingRun) (recorded_topics : Values) (now : DateTime) (bag : String) (es : Entries)
      → Identifies run bag
      → lookup (meta_path bag) es
        ≡ some (file (json_text (sidecar_json (build_sidecar run now recorded_topics))))
      → load_valid_sidecar es (meta_path bag) bag
        ≡ ok (members_of (sidecar_json (build_sidecar run now recorded_topics)))
  unfolding load_valid_sidecar validate_sidecar_fields sidecar_json build_sidecar
  sidecar_fits run recorded_topics now bag es (e, full, (mission, e', full')) h =
      rw (h, e, e', full, full', laws.written run.started, eq_refl bag) refl

  abbrev pub Ready : RecordingRun → Values → DateTime → String → Disk → Type 0
  Ready run recorded_topics now bag d' =
      (is_complete d'.entries bag ≡ true)
      × (is_valid_bag_dir (at d' bag) ≡ true)
      × (load_valid_sidecar d'.entries (meta_path bag) bag
          ≡ ok (members_of (sidecar_json (build_sidecar run now recorded_topics))))

  complete :
      (es : Entries) (bag : String) (c : Json)
      → is_valid_bag_dir (lookup bag es) ≡ true
      → lookup (meta_path bag) es ≡ some (file (json_text c))
      → is_complete es bag ≡ true
  unfolding is_complete Layout.is_regular_file
  complete es bag c h k = rw (h, k) refl

  Finished-Ready :
      (run : RecordingRun) (recorded_topics : Values) (now : DateTime) (bag : String) (d d' : Disk)
      → Finished now bag d run recorded_topics d'
      → is_finalized_bag_dir (at d bag) ≡ true
      → is_symlink (at d bag) ≡ false
      → Identifies run bag
      → Ready run recorded_topics now bag d'
  Finished-Ready run recorded_topics now bag d d' (placed, _, others) fin plain who =
      let valid : is_valid_bag_dir (at d' bag) ≡ true =
        ap is_valid_bag_dir (others bag (bag-ne-meta bag) (bag-ne-inputs bag))
        ∙ sym (is_finalized_bag_dir-is_valid_bag_dir (at d bag) plain)
        ∙ fin in
      (
        complete d'.entries bag (sidecar_json (build_sidecar run now recorded_topics)) valid placed,
        valid,
        sidecar_fits run recorded_topics now bag d'.entries who placed,
      )

  Finalized-Ready :
      (run : RecordingRun) (recorded_topics : Values) (now : DateTime) (bag path : String)
      (d : Disk) (r : Result Fault (Option String) × Disk)
      → Finalized now bag d r
      → r.0 ≡ ok (some path)
      → read_sidecar_inputs (at d (sidecar_inputs_path bag)) ≡ ok (run, recorded_topics)
      → is_symlink (at d bag) ≡ false
      → Identifies run bag
      → Ready run recorded_topics now bag r.1
  Finalized-Ready run topics now bag path d (ok (some p), d') (_, fin, _, (run', topics', read, f))
        h staged plain who =
      let same : Path (Result Fault (RecordingRun × Values)) (ok (run', topics'))
          (ok (run, topics)) =
        sym read ∙ staged in
      let same_run : run' ≡ run = cc in
      let same_topics : topics' ≡ topics = cc in
      Finished-Ready run topics now bag d d' (rw same_run at (rw same_topics at f)) fin plain who
  Finalized-Ready run topics now bag path d (ok none, d') f h staged plain who = cc
  Finalized-Ready run topics now bag path d (err e, d') f h staged plain who = cc

  module _ ⦃fl : Float⦄ where
    index-ok :
        (busy : ℕ → Bool) (clock : ℕ → String) (bag_facts : BagFactsReader) (facts : BagFacts)
        (es : Entries) (run : RecordingRun) (recorded_topics : Values) (now : DateTime)
        (bag : String) (s : ManifestStore)
        → is_valid_bag_dir (lookup bag es) ≡ true
        → load_valid_sidecar es (meta_path bag) bag
          ≡ ok (members_of (sidecar_json (build_sidecar run now recorded_topics)))
        → bag_facts es bag ≡ ok facts
        → busy s.accesses ≡ false
        → Identifies run bag
        → (index busy clock bag_facts es bag (meta_path bag) s).0 ≡ ok tt
    unfolding index row_of require_finalized_bag upsert sidecar_json build_sidecar
    index-ok busy clock bag_facts facts es run topics now bag s valid loads reads free
          (e, full, (mission, e', full')) =
        rw (valid, loads, reads, e', free) refl

    -- Where the recorder finishes the sidecar of a bag that is no symbolic link, from staged facts that
    -- name the bag and a mission, the uploader takes the bag for complete, and the ingest service
    -- indexes it, given that the facts of the bag can be read and the database is not locked.
    pub finalize-index :
        (run : RecordingRun) (recorded_topics : Values) (now : DateTime) (secret bag path : String)
        (d : Disk) (busy : ℕ → Bool) (clock : ℕ → String) (bag_facts : BagFactsReader)
        (facts : BagFacts) (s : ManifestStore)
        → (finalize_sidecar_from_staging secret now bag d).0 ≡ ok (some path)
        → read_sidecar_inputs (at d (sidecar_inputs_path bag)) ≡ ok (run, recorded_topics)
        → is_symlink (at d bag) ≡ false
        → Identifies run bag
        → let es = (finalize_sidecar_from_staging secret now bag d).1.entries in
          bag_facts es bag ≡ ok facts
          → busy s.accesses ≡ false
          → (is_complete es bag ≡ true)
            × ((index busy clock bag_facts es bag (meta_path bag) s).0 ≡ ok tt)
    finalize-index run topics now secret bag path d busy clock bag_facts facts s h staged plain who
          reads free =
        let ready =
          Finalized-Ready run topics now bag path d (finalize_sidecar_from_staging secret now bag d)
            (finalize_sidecar_from_staging-Finalized now bag d secret) h staged plain who in
        (
          ready.0,
          index-ok busy clock bag_facts facts
              (finalize_sidecar_from_staging secret now bag d).1.entries run topics now bag s
              ready.1 ready.2 reads free who,
        )
