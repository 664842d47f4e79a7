-- ===== src/Perception/Filed.antt =====
-- coordinator.py and capture_writer.py together: what the writer makes of a record, as the coordinator calls it.
use text.Mathlib.Text.{◌==◌ as str_eq}
use text.Mathlib.TextPositions.{eq_refl}
use patrol_drone.Prelude.{
  Option, String, List, [], ◌∷◌, Bool, true, false, ◌≡◌, ◌⊎◌, inl, inr, some, none, refl,
  Bool-cases, if◌then◌else◌, Permits, Result, ok,
}
use patrol_drone.Float.{Float}
use patrol_drone.Bags.Text.{◌<>◌}
use patrol_drone.Perception.Resolver.{Metadata, Shown, verbatim, put}
use patrol_drone.Perception.Coordinator.{written, persist, CaptureRecord, CaptureError}
use patrol_drone.Perception.Writer.{
  Ending, done, refused, torn, Trouble, file_name, stored, image_file, sidecar_file, build_sidecar,
  Disk, write,
}
use patrol_drone.Perception.Writer.Names.{extension-ne}

abbrev pub calm : Trouble
calm = record { mkdir_fails = false; image = done; sidecar = done }

module _ ⦃fl : Float⦄ (Bytes : Type 0) where
  -- what a write comes to, for the name that the record has
  WriteResult : Disk Bytes → CaptureRecord → Bytes → Disk Bytes × Option String → Type 0
  WriteResult d rec b (next, none) = next.0 ≡ d.0
  WriteResult d rec b (next, some path) =
      let png = file_name d.0.index rec.checkpoint_id ".png" in
      let json = file_name d.0.index rec.checkpoint_id ".json" in
      (path ≡ d.0.run_dir <> ("/" <> png))
      × (stored Bytes png next.1 ≡ some (image_file b))
      × (stored Bytes json next.1
          ≡ some (sidecar_file (build_sidecar (record rec { image_path = path }))))

  write-Result :
      (mkdir_fails : Bool) (i s : Ending) (d : Disk Bytes) (rec : CaptureRecord) (b : Bytes)
      → WriteResult d rec b
          (write Bytes (record { mkdir_fails = mkdir_fails; image = i; sidecar = s }) d rec b)
  unfolding write WriteResult
  write-Result true i s d rec b = refl
  write-Result false refused s d rec b = refl
  write-Result false torn s d rec b = refl
  write-Result false done refused d rec b = refl
  write-Result false done torn d rec b = refl
  write-Result false done done d rec b =
      let png = file_name d.0.index rec.checkpoint_id ".png" in
      (refl, rw (extension-ne d.0.index rec.checkpoint_id, eq_refl png) refl, rw eq_refl refl)

  abbrev pub Store : Type 0
  Store = Disk Bytes × List Trouble

  -- The writer as the coordinator has it: it raises OSError only. The list holds what happens to its next writes.
  abbrev pub write_next :
      Store → CaptureRecord → Bytes → Result CaptureError (Store × Option String)
  write_next (d, []) rec b = let (next, path) = write Bytes calm d rec b in ok ((next, []), path)
  write_next (d, t ∷ ts) rec b = let (next, path) = write Bytes t d rec b in ok ((next, ts), path)

  -- `metadata[key]`
  abbrev pub shown_of : Metadata → String → Option Shown
  shown_of [] key = none
  shown_of ((k, v) ∷ ms) key = if str_eq key k then some v else shown_of ms key

  pub shown_of-put :
      (ms : Metadata) (key : String) (v : Shown) → shown_of (put ms key v) key ≡ some v
  shown_of-put [] key v = rw eq_refl refl
  shown_of-put ((k, x) ∷ ms) key v = elim (Bool-cases (str_eq key k)) [
    | inl e ↦ rw e (rw e refl)
    | inr e ↦ rw e (rw e (shown_of-put ms key v))
  ]

  abbrev pub HasStatus : CaptureRecord → String → Type 0
  HasStatus m status = shown_of m.metadata "image_write_status" ≡ some (verbatim status)

  -- The image and the sidecar of a message are on the disk, under the number of the writer.
  abbrev pub OnDisk : Bytes → Disk Bytes → Disk Bytes → CaptureRecord → Type 0
  OnDisk b d next m =
      let png = file_name d.0.index m.checkpoint_id ".png" in
      let json = file_name d.0.index m.checkpoint_id ".json" in
      HasStatus m "ok"
      × (m.image_path ≡ d.0.run_dir <> ("/" <> png))
      × (stored Bytes png next.1 ≡ some (image_file b))
      × (stored Bytes json next.1 ≡ some (sidecar_file (build_sidecar m)))

  abbrev pub Filed : Bytes → Option Store → Option Store → CaptureRecord → Type 0
  Filed b none after m = (after ≡ none) × (m.image_path ≡ "")
  Filed b (some before) none m = ⊥
  Filed b (some (d, ts)) (some (next, rest)) m =
      (HasStatus m "failed" × (m.image_path ≡ "") × (next.0 ≡ d.0)) ⊎ OnDisk b d next m

  written-Filed :
      (Image : Type 0) (encode : Image → Option Bytes) (d : Disk Bytes) (ts rest : List Trouble)
      (rec : CaptureRecord) (b : Bytes) (out : Disk Bytes × Option String)
      → WriteResult d rec b out
      → rec.image_path ≡ ""
      → HasStatus rec "ok"
      → Filed b
          (some (d, ts))
          (some (out.0, rest))
          (written Image Bytes Store encode write_next rec out.1)
  unfolding WriteResult
  written-Filed Image encode d ts rest rec b (next, none) same empty_ good =
      inl (shown_of-put rec.metadata "image_write_status" (verbatim "failed"), empty_, same)
  written-Filed Image encode d ts rest rec b (next, some path) result empty_ good =
      inr (good, result.0, result.1, result.2)

  pub persist-Filed :
      (Image : Type 0) (encode : Image → Option Bytes) (o : Option Store) (rec : CaptureRecord)
      (b : Bytes)
      → rec.image_path ≡ ""
      → HasStatus rec "ok"
      → Permits (λ out. Filed b o out.0 out.1) (persist Image Bytes Store encode write_next o rec b)
  unfolding persist
  persist-Filed Image encode none rec b empty_ good = (refl, empty_)
  persist-Filed Image encode (some (d, [])) rec b empty_ good =
      written-Filed Image encode d [] [] rec b (write Bytes calm d rec b)
        (write-Result false done done d rec b) empty_ good
  persist-Filed Image encode (some (d, t ∷ ts)) rec b empty_ good =
      written-Filed Image encode d (t ∷ ts) ts rec b (write Bytes t d rec b)
        (write-Result t.mkdir_fails t.image t.sidecar d rec b) empty_ good
