-- ===== src/Perception/Writer/Kept.antt =====
-- capture_writer.py: what a run of captures leaves in the directory.
use text.Mathlib.TextPositions.{eq_refl}
use patrol_drone.Prelude.{
  ℕ, suc, ◌+◌, ◌<◌, Bool, true, false, String, Option, some, none, List, [], ◌∷◌, ◌≡◌, refl, sym,
  ap, ◌∙◌, All, subst, ok, raise_if, ◌>>◌, length, arith, if◌then◌else◌,
}
use patrol_drone.Float.{Float}
use patrol_drone.Bags.Text.{◌<>◌, any_char, is_slash}
use patrol_drone.Bags.Disk.Lookup.{==-ne}
use patrol_drone.Bags.Recorder.{run_id_rejection, is_some, Rejection}
use patrol_drone.Perception.Coordinator.{CaptureRecord}
use patrol_drone.Perception.CheckpointConfig.{is_safe_id}
use patrol_drone.Perception.Writer.{
  new_writer, child_path, unsafe_run_id, run_id_is_unsafe, Ending, done, refused, torn,
  CaptureWriter, file_name, Saved, image_file, sidecar_file, Files, stored, Disk, write, Call,
  Capture, noted, run, build_sidecar, partial,
}
use patrol_drone.Perception.Writer.Names.{
  extension-ne, is_safe_id-no_slash, run_id_is_unsafe-run_id_rejection, index_of,
  index_of-file_name, basename-append, file_name-no_slash,
}

none_rejected : (o : Option Rejection) → is_some o ≡ false → o ≡ none
none_rejected none h = refl
none_rejected (some r) h = cc

new_writer-ok :
    (output_root run_id : String) (w : CaptureWriter)
    → new_writer output_root run_id ≡ ok w
    → (run_id_rejection run_id ≡ none)
      × (w ≡ record { run_dir = child_path output_root run_id; index = 0 })
unfolding new_writer
new_writer-ok output_root run_id w h =
    let (safe, built) = accepted (run_id_is_unsafe run_id) _ w h in
    (none_rejected _ (sym (run_id_is_unsafe-run_id_rejection run_id) ∙ safe), built)
  where
    accepted :
        (b : Bool) (v w : CaptureWriter)
        → (raise_if b unsafe_run_id >> ok v) ≡ ok w
        → (b ≡ false) × (w ≡ v)
    accepted true v w h = cc
    accepted false v w h = (refl, cc)

module _ ⦃fl : Float⦄ (Bytes : Type 0) where
  -- a file whose number is below the index is kept
  abbrev Frame : ℕ → Files Bytes → Files Bytes → Type 0
  Frame index fs gs =
      (name : String) → index_of name < index → stored Bytes name gs ≡ stored Bytes name fs

  add-Frame :
      (index : ℕ) (checkpoint_id extension : String) (v : Saved Bytes) (fs : Files Bytes)
      → Frame index fs ((file_name index checkpoint_id extension, v) ∷ fs)
  add-Frame index checkpoint_id extension v fs name h =
      ap (λ b. if b then some v else stored Bytes name fs)
        (==-ne name (file_name index checkpoint_id extension)
          λ e. omega (arith, h, ap index_of e, index_of-file_name index checkpoint_id extension))

  -- the image and the sidecar of a capture are there, under its number, and the sidecar names the image
  abbrev pub Holds : String → ℕ → Files Bytes → Capture Bytes → Type 0
  Holds run_dir index fs (path, rec, image_bytes) =
      let png = file_name index rec.checkpoint_id ".png" in
      let json = file_name index rec.checkpoint_id ".json" in
      (path ≡ run_dir <> ("/" <> png))
      × (stored Bytes png fs ≡ some (image_file image_bytes))
      × (stored Bytes json fs ≡ some (sidecar_file (record (build_sidecar rec) { image = png })))

  -- the captures are numbered from `index` on, with no gap, and all of them are there
  abbrev pub Numbered : String → ℕ → Files Bytes → List (Capture Bytes) → Type 0
  Numbered run_dir index fs [] = Unit
  Numbered run_dir index fs (c ∷ cs) = Holds run_dir index fs c × Numbered run_dir (suc index) fs cs

  build_sidecar-image :
      (run_dir : String) (index : ℕ) (rec : CaptureRecord)
      → any_char is_slash rec.checkpoint_id ≡ false
      → let png = file_name index rec.checkpoint_id ".png" in
        build_sidecar (record rec { image_path = run_dir <> ("/" <> png) })
        ≡ record (build_sidecar rec) { image = png }
  unfolding build_sidecar
  build_sidecar-image run_dir index rec h =
      let png = file_name index rec.checkpoint_id ".png" in
      ap (λ i. record (build_sidecar rec) { image = i })
        (basename-append run_dir png (file_name-no_slash index rec.checkpoint_id ".png" h refl))

  Outcome : Disk Bytes → CaptureRecord → Bytes → Disk Bytes × Option String → Type 0
  Outcome d rec b (next, none) = (next.0 ≡ d.0) × Frame d.0.index d.1 next.1
  Outcome d rec b (next, some path) =
      (next.0 ≡ record d.0 { index = suc d.0.index })
      × Frame d.0.index d.1 next.1
      × Holds d.0.run_dir d.0.index next.1 (path, rec, b)

  write-Outcome :
      (mkdir_fails : Bool) (i s : Ending) (d : Disk Bytes) (rec : CaptureRecord) (b : Bytes)
      → any_char is_slash rec.checkpoint_id ≡ false
      → Outcome d rec b
          (write Bytes (record { mkdir_fails = mkdir_fails; image = i; sidecar = s }) d rec b)
  unfolding write Outcome
  write-Outcome true i s d rec b h = (refl, λ name k. refl)
  write-Outcome false refused s d rec b h = (refl, λ name k. refl)
  write-Outcome false torn s d rec b h =
      (refl, add-Frame d.0.index rec.checkpoint_id ".png" partial d.1)
  write-Outcome false done refused d rec b h =
      (refl, add-Frame d.0.index rec.checkpoint_id ".png" (image_file b) d.1)
  write-Outcome false done torn d rec b h =
      let png = file_name d.0.index rec.checkpoint_id ".png" in
      (
        refl,
        λ name k.
            add-Frame d.0.index rec.checkpoint_id ".json" partial ((png, image_file b) ∷ d.1) name k
            ∙ add-Frame d.0.index rec.checkpoint_id ".png" (image_file b) d.1 name k,
      )
  write-Outcome false done done d rec b h =
      let png = file_name d.0.index rec.checkpoint_id ".png" in
      let path = d.0.run_dir <> ("/" <> png) in
      (
        refl,
        (λ name k.
            add-Frame d.0.index rec.checkpoint_id ".json"
              (sidecar_file (build_sidecar (record rec { image_path = path })))
              ((png, image_file b) ∷ d.1) name k
            ∙ add-Frame d.0.index rec.checkpoint_id ".png" (image_file b) d.1 name k),
        (
          refl,
          rw (extension-ne d.0.index rec.checkpoint_id, eq_refl png) refl,
          rw (eq_refl)
              (ap (λ v. some (sidecar_file v)) (build_sidecar-image d.0.run_dir d.0.index rec h)),
        ),
      )

  Holds-Frame :
      (run_dir : String) (index next : ℕ) (fs gs : Files Bytes) (c : Capture Bytes)
      → index < next
      → Frame next fs gs
      → Holds run_dir index fs c
      → Holds run_dir index gs c
  Holds-Frame run_dir index next fs gs (path, rec, b) h kept (e, image, sidecar) =
      let low = λ (extension : String).
        subst (λ n. n < next) (sym (index_of-file_name index rec.checkpoint_id extension)) h in
      (e, kept _ (low ".png") ∙ image, kept _ (low ".json") ∙ sidecar)

  -- what a run does, from a writer and the files of its directory
  Ran : CaptureWriter → Files Bytes → Disk Bytes × List (Capture Bytes) → Type 0
  Ran w fs (last, captures) =
      Frame w.index fs last.1
      × (last.0.index ≡ w.index + length captures)
      × Numbered w.run_dir w.index last.1 captures

  step-Ran :
      (d next : Disk Bytes) (path : Option String) (c : Call Bytes) (last : Disk Bytes)
      (captures : List (Capture Bytes))
      → Outcome d c.rec c.image_bytes (next, path)
      → Ran next.0 next.1 (last, captures)
      → Ran d.0 d.1 (last, noted Bytes c path captures)
  unfolding Outcome Ran
  step-Ran d next none c last captures (same, kept) ran =
      let (later, total, numbered) = subst (λ w. Ran w next.1 (last, captures)) same ran in
      ((λ name h. later name h ∙ kept name h), total, numbered)
  step-Ran d next (some path) c last captures (moved, kept, holds) ran =
      let (later, total, numbered) = subst (λ w. Ran w next.1 (last, captures)) moved ran in
      (
        (λ name h. later name (omega (arith, h)) ∙ kept name h),
        omega (arith, total),
        (
          Holds-Frame d.0.run_dir d.0.index (suc d.0.index) next.1 last.1
              (path, c.rec, c.image_bytes) (omega arith) later holds,
          numbered,
        ),
      )

  run-Ran :
      (d : Disk Bytes) (cs : List (Call Bytes))
      → All (λ c. is_safe_id c.rec.checkpoint_id ≡ true) cs
      → Ran d.0 d.1 (run Bytes d cs)
  unfolding run Ran
  run-Ran d [] safe = ((λ name h. refl), omega arith, tt)
  run-Ran d (c ∷ cs) safe =
      let (next, path) = write Bytes c.trouble d c.rec c.image_bytes in
      let (last, captures) = run Bytes next cs in
      step-Ran d next path c last captures
        (write-Outcome c.trouble.mkdir_fails c.trouble.image c.trouble.sidecar d c.rec c.image_bytes
          (is_safe_id-no_slash c.rec.checkpoint_id safe.0))
        (run-Ran next cs safe.1)

  -- Over any run of a new writer, whatever steps of the file system fail, where the checkpoint ids are
  -- ones that the configuration accepts: the captures that come out are numbered from 0 with no gap, so
  -- none overwrites another, and at the end the directory holds for each its own image and a sidecar
  -- that names this image. The writer exists only where the recorder accepts the run id.
  pub run-Numbered :
      (output_root run_id : String) (w : CaptureWriter) (fs : Files Bytes) (cs : List (Call Bytes))
      → new_writer output_root run_id ≡ ok w
      → All (λ c. is_safe_id c.rec.checkpoint_id ≡ true) cs
      → let (last, captures) = run Bytes (w, fs) cs in
        (run_id_rejection run_id ≡ none)
        × (last.0.index ≡ length captures)
        × Numbered (child_path output_root run_id) 0 last.1 captures
  unfolding Ran
  run-Numbered output_root run_id w fs cs h safe =
      let (accepted, built) = new_writer-ok output_root run_id w h in
      let (_, total, numbered) =
        subst (λ v. Ran v fs (run Bytes (w, fs) cs)) built (run-Ran (w, fs) cs safe) in
      (accepted, total ∙ omega arith, numbered)
