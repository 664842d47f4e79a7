-- ===== src/Bags/Recorder/Finalize.antt =====
-- recorder.py: what `finalize_sidecar_from_staging` comes to, and that a second call does nothing.
use patrol_drone.Prelude.{
  true, false, ◌&&◌, not, String, ◌≡◌, ◌≢◌, refl, ◌∙◌, Option, none, some, ◌⊎◌, inl, inr, Result,
  ok, err, arith, if_cases,
}
use patrol_drone.Bags.Dates.{Dates}
use patrol_drone.Bags.Disk.{Fault, Values, json_text, Node, file}
use patrol_drone.Bags.Disk.Lookup.{lookup-erase_other, lookup-erase_self, append-ne_append}
use patrol_drone.Bags.Publish.{Disk, at}
use patrol_drone.Bags.Publish.Crash.{Left, Keeping, atomic_write_text-Keeping}
use patrol_drone.Bags.Recorder.{is_regular_file, is_finalized_bag_dir}
use patrol_drone.Bags.Recorder.Sidecar.{
  RecordingRun, build_sidecar, sidecar_json, write_sidecar, read_sidecar_inputs,
  sidecar_inputs_path, meta_path, clear_staging, finish_sidecar, finalize_sidecar_from_staging,
}

meta-ne-inputs : (bag : String) → meta_path bag ≢ sidecar_inputs_path bag
meta-ne-inputs bag = append-ne_append bag ".meta.json" ".sidecar-inputs.json" (cc)

module _ ⦃dates : Dates⦄ (now : dates.DateTime) (bag : String) (d : Disk) where
  -- the sidecar that belongs to the facts of a recording
  abbrev pub sidecar_file : RecordingRun → Values → Option Node
  sidecar_file run recorded_topics =
      some (file (json_text (sidecar_json (build_sidecar run now recorded_topics))))

  abbrev pub Finished : RecordingRun → Values → Disk → Type 0
  Finished run recorded_topics d' =
      (at d' (meta_path bag) ≡ sidecar_file run recorded_topics)
      × (at d' (sidecar_inputs_path bag) ≡ none)
      × ((k : String) → k ≢ meta_path bag → k ≢ sidecar_inputs_path bag → at d' k ≡ at d k)

  -- A removal failed: of the temporary file of the sidecar, or of the staging file once the sidecar is
  -- written.
  abbrev pub Stranded : RecordingRun → Values → Disk → Type 0
  Stranded run recorded_topics d' =
      Left (meta_path bag) "" (json_text (sidecar_json (build_sidecar run now recorded_topics))) d
        d'
      ⊎ ((d'.stuck ≡ true)
          × (at d' (meta_path bag) ≡ sidecar_file run recorded_topics)
          × ((k : String) → k ≢ meta_path bag → at d' k ≡ at d k))

  -- What finishing a sidecar may come to.
  abbrev pub Finalized : Result Fault (Option String) × Disk → Type 0
  Finalized (ok (some path), d') =
      (path ≡ meta_path bag)
      × (is_finalized_bag_dir (at d bag) ≡ true)
      × (is_regular_file (at d (meta_path bag)) ≡ false)
      × ((run : RecordingRun) × (recorded_topics : Values) × (read_sidecar_inputs
              (at d (sidecar_inputs_path bag))
            ≡ ok (run, recorded_topics))
          × Finished run recorded_topics d')
  Finalized (ok none, d') =
      (((is_finalized_bag_dir (at d bag) && is_regular_file (at d (sidecar_inputs_path bag))
            ≡ false)
          × (d' ≡ d))
        ⊎ ((is_regular_file (at d (meta_path bag)) ≡ true)
            × (at d' (sidecar_inputs_path bag) ≡ none)
            × ((k : String) → k ≢ sidecar_inputs_path bag → at d' k ≡ at d k)))
  Finalized (err e, d') =
      ((k : String) → at d' k ≡ at d k)
      ⊎ ((run : RecordingRun) × (recorded_topics : Values) × (read_sidecar_inputs
              (at d (sidecar_inputs_path bag))
            ≡ ok (run, recorded_topics))
          × Stranded run recorded_topics d')

  cleared :
      (run : RecordingRun) (recorded_topics : Values) (r : Result Fault Unit × Disk)
      → is_finalized_bag_dir (at d bag) ≡ true
      → is_regular_file (at d (meta_path bag)) ≡ false
      → read_sidecar_inputs (at d (sidecar_inputs_path bag)) ≡ ok (run, recorded_topics)
      → Keeping
          (meta_path bag)
          ""
          (json_text (sidecar_json (build_sidecar run now recorded_topics)))
          d
          r
      → Finalized (clear_staging bag r)
  cleared run recorded_topics (ok _, d1) fin new e (_, (placed, others)) =
      if_cases Finalized d1.stuck _ _
        (λ stuck. inr (run, recorded_topics, e, inr (stuck, placed, others)))
        (λ _. (
          refl,
          fin,
          new,
          (
            run,
            recorded_topics,
            e,
            (
              lookup-erase_other (meta_path bag) (sidecar_inputs_path bag) d1.entries
                    (meta-ne-inputs bag)
                  ∙ placed,
              lookup-erase_self (sidecar_inputs_path bag) d1.entries,
              λ k h h'. lookup-erase_other k (sidecar_inputs_path bag) d1.entries h' ∙ others k h,
            ),
          ),
        ))
  cleared run recorded_topics (err f, d1) fin new e (_, inl same) = inl same
  cleared run recorded_topics (err f, d1) fin new e (_, inr left) =
      inr (run, recorded_topics, e, inl left)

  finished :
      (secret : String) (r : Result Fault (RecordingRun × Values))
      → is_finalized_bag_dir (at d bag) ≡ true
      → is_regular_file (at d (meta_path bag)) ≡ false
      → read_sidecar_inputs (at d (sidecar_inputs_path bag)) ≡ r
      → Finalized (finish_sidecar secret now bag d r)
  unfolding write_sidecar
  finished secret (ok (run, recorded_topics)) fin new e = cleared run recorded_topics _ fin new e (
      atomic_write_text-Keeping (meta_path bag) secret
        (json_text (sidecar_json (build_sidecar run now recorded_topics))) d)
  finished secret (err f) fin new e = inl (λ k. refl)

  -- A sidecar is written only for a finished bag with a staging file and no sidecar of its own. It then
  -- holds the staged facts and the time of the call, the staging file is gone, and no other name has
  -- changed. Where there is nothing to finish nothing is returned and the sidecar is left alone; only a
  -- staging file beside a sidecar is removed. Where the call raises, no name has changed; or the facts
  -- were read and a removal failed: of a temporary file, which stays under a name that was free, or of
  -- the staging file, which stays beside the finished sidecar.
  pub finalize_sidecar_from_staging-Finalized :
      (secret : String) → Finalized (finalize_sidecar_from_staging secret now bag d)
  unfolding finalize_sidecar_from_staging
  finalize_sidecar_from_staging-Finalized secret =
      if_cases Finalized (not (is_finalized_bag_dir (at d bag))) _ _
        (λ e. inl (ground (arith, e), refl))
        (λ e.
          if_cases Finalized (not (is_regular_file (at d (sidecar_inputs_path bag)))) _ _
            (λ i. inl (ground (arith, e, i), refl))
            (λ i.
              if_cases Finalized (is_regular_file (at d (meta_path bag))) _ _
                (λ m.
                  if_cases Finalized d.stuck _ _ (λ _. inl (λ k. refl))
                    (λ _. inr (
                      m,
                      lookup-erase_self (sidecar_inputs_path bag) d.entries,
                      λ k h. lookup-erase_other k (sidecar_inputs_path bag) d.entries h,
                    )))
                (λ m. finished secret _ (ground (arith, e)) m refl)))

module _ ⦃dates : Dates⦄ where
  open dates use {DateTime}

  gone : (o : Option Node) → o ≡ none → is_regular_file o ≡ false
  unfolding is_regular_file
  gone o h = rw h refl

  -- with no staging file there is nothing to do
  idle :
      (secret : String) (now : DateTime) (bag : String) (d : Disk)
      → at d (sidecar_inputs_path bag) ≡ none
      → finalize_sidecar_from_staging secret now bag d ≡ (ok none, d)
  unfolding finalize_sidecar_from_staging
  idle secret now bag d h = let i = gone (at d (sidecar_inputs_path bag)) h in ground (arith, i)

  again :
      (secret' : String) (now now' : DateTime) (bag path : String) (d : Disk)
      (r : Result Fault (Option String) × Disk)
      → Finalized now bag d r
      → r.0 ≡ ok (some path)
      → finalize_sidecar_from_staging secret' now' bag r.1 ≡ (ok none, r.1)
  again secret' now now' bag path d (ok (some p), d') (_, _, _, (_, _, _, (_, empty, _))) h =
      idle secret' now' bag d' empty
  again secret' now now' bag path d (ok none, d') f h = cc
  again secret' now now' bag path d (err e, d') f h = cc

  -- Once a sidecar is finished, another call at any later time returns nothing and leaves the directory
  -- as it is.
  pub finalize_sidecar_from_staging-idempotent :
      (secret secret' : String) (now now' : DateTime) (bag path : String) (d : Disk)
      → (finalize_sidecar_from_staging secret now bag d).0 ≡ ok (some path)
      → let d' = (finalize_sidecar_from_staging secret now bag d).1 in
        finalize_sidecar_from_staging secret' now' bag d' ≡ (ok none, d')
  finalize_sidecar_from_staging-idempotent secret secret' now now' bag path d h =
      again secret' now now' bag path d (finalize_sidecar_from_staging secret now bag d)
        (finalize_sidecar_from_staging-Finalized now bag d secret) h
