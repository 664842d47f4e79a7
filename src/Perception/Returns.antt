-- ===== src/Perception/Returns.antt =====
-- coordinator.py, `on_trigger`: where the encoder encodes and the checkpoints have names, it returns.
use text.Mathlib.Text.{◌==◌}
use patrol_drone.Prelude.{
  ok, err, ◌∷◌, Result, arith, Option, String, ◌≡◌, false, ℤ, some, Ensures, All, if_cases,
  Ensures-bind, none, ap, Bool-cases, refl, Permits-Ensures, ◌∙◌, eq_ℤ, inl, subst, inr, [],
}
use patrol_drone.Float.{Float}
use patrol_drone.Perception.Coordinator.{
  CaptureError, sampled, on_pose, on_frame, on_trigger, Coordinator, record_of, visit_metadata,
  on_resolved, on_sample, on_view, sample_world, capture, persist, first_detection, CaptureRecord,
  Readings, build_message, is_latched,
}
use patrol_drone.Perception.Latch.{
  Answer, on_trigger-Answer, resolve-Resolved, persist-SameCheckpoint, SameCheckpoint,
}
use patrol_drone.Perception.Resolver.{
  Entries, Detection, CheckpointEntry, Metadata, entry_of, resolve, ResolverError,
}
use patrol_drone.Perception.Samplers.{PoseSample, PoseNed, Time, sample, latest_at}
use patrol_drone.Mission.Frames.{is_infinite, ned_yaw_to_enu, enu_quaternion_from_ned_heading}

module _ ⦃fl : Float⦄ (Image Bytes W : Type 0) (encode : Image → Option Bytes)
    (write : W → CaptureRecord → Bytes → Result CaptureError (W × Option String)) where
  open fl use {sub, half, pi}

  abbrev C : Type 0
  C = Coordinator Image Bytes W encode write

  -- every image is encoded
  abbrev pub Encodes : Type 0
  Encodes = (i : Image) → (b : Bytes) × (encode i ≡ some b)

  -- no write raises anything but an OSError
  abbrev pub Writes : Type 0
  Writes = (w : W) (rec : CaptureRecord) (b : Bytes) → Ensures (λ _. Unit) (write w rec b)

  abbrev pub Named : Entries → Type 0
  Named es = All (λ x. (x.1.checkpoint_id == "") ≡ false) es

  -- the heading of the latest pose, if there is one, is an angle that `remainder` takes
  abbrev IsAngle : Option PoseNed → Type 0
  IsAngle none = Unit
  IsAngle (some p) = is_infinite (sub (half pi) p.heading) ≡ false

  abbrev pub HasHeading : C → Type 0
  HasHeading c = IsAngle c.poses.value

  sample-returns :
      (c : C)
      → HasHeading c
      → Ensures (λ _. Unit) (sampled (sample c.settings.world_frame c.settings.origin c.poses))
  unfolding sample latest_at enu_quaternion_from_ned_heading ned_yaw_to_enu
  sample-returns c h = from c.poses.value c.poses.received_at h
    where
      from :
          (v : Option PoseNed) (t : Option Time)
          → IsAngle v
          → Ensures
              (λ _. Unit)
              (sampled (
                sample c.settings.world_frame c.settings.origin
                  (record { value = v; received_at = t })))
      from none t k = tt
      from (some p) none k = tt
      from (some p) (some t) k = rw k tt

  entry_of-Named :
      (es : Entries) (t : ℤ) (e : CheckpointEntry)
      → Named es
      → entry_of es t ≡ some e
      → (e.checkpoint_id == "") ≡ false
  entry_of-Named [] t e n h = cc
  entry_of-Named ((u, x) ∷ es) t e n h = elim (Bool-cases (eq_ℤ t u)) [
    | inl q ↦
        let same : x ≡ e = cc (rw q at h) in subst (λ z. (z.checkpoint_id == "") ≡ false) same n.0
    | inr q ↦ entry_of-Named es t e n.1 (rw q at h)
  ]

  build_message-returns :
      (rec : CaptureRecord)
      → (rec.checkpoint_id == "") ≡ false
      → Ensures (λ _. Unit) (build_message rec)
  unfolding build_message
  build_message-returns rec h = rw h tt

  persist-returns :
      (o : Option W) (rec : CaptureRecord) (b : Bytes)
      → Writes
      → Ensures (λ _. Unit) (persist Image Bytes W encode write o rec b)
  unfolding persist
  persist-returns none rec b writes = tt
  persist-returns (some w) rec b writes =
      Ensures-bind (λ _. Unit) (λ _. Unit) (write w rec b) _ (writes w rec b) λ _ _. tt

  capture-returns :
      (c : C) (r : Readings) (token : ℤ) (cid : String) (ms : Metadata) (b : Bytes) (p : PoseSample)
      → Writes
      → (cid == "") ≡ false
      → Ensures (λ _. Unit) (capture Image Bytes W encode write c r token cid ms b p)
  unfolding capture
  capture-returns c r token cid ms b p writes h =
      let rec =
        record_of Image Bytes W encode write cid
          (visit_metadata Image Bytes W encode write c.settings token ms) p r.at_emit in
      let out = persist Image Bytes W encode write c.writer rec b in
      Ensures-bind (SameCheckpoint Image Bytes W encode write rec) (λ _. Unit) out _
        (Permits-Ensures (SameCheckpoint Image Bytes W encode write rec) out
          (persist-SameCheckpoint Image Bytes W encode write c.writer rec b)
          (persist-returns c.writer rec b writes))
        λ stored kept.
          Ensures-bind (λ _. Unit) (λ _. Unit) (build_message stored.1) _
            (build_message-returns stored.1 (ap (λ z. z == "") kept ∙ h)) (λ _ _. tt)

  on_resolved-returns :
      (c : C) (r : Readings) (token : ℤ) (d : Detection) (b : Bytes) (p : PoseSample)
      (q : Result ResolverError (String × Metadata))
      → Writes
      → Named c.settings.entries
      → resolve c.settings.entries d ≡ q
      → Ensures (λ _. Unit) (on_resolved Image Bytes W encode write c r token b p q)
  on_resolved-returns c r token d b p (err x) writes n e = tt
  on_resolved-returns c r token d b p (ok (cid, ms)) writes n e =
      let (x, found, _, same) = resolve-Resolved Image Bytes W encode write c d cid ms e in
      capture-returns c r token cid ms b p writes
        (ap (λ z. z == "") same ∙ entry_of-Named c.settings.entries d.id x n found)

  on_sample-returns :
      (c : C) (r : Readings) (token : ℤ) (d : Detection) (o : Option (Bytes × PoseSample))
      → Writes
      → Named c.settings.entries
      → Ensures (λ _. Unit) (on_sample Image Bytes W encode write c r token d o)
  on_sample-returns c r token d none writes n = tt
  on_sample-returns c r token d (some (b, p)) writes n =
      on_resolved-returns c r token d b p (resolve c.settings.entries d) writes n refl

  on_pose-returns :
      (image : Image) (o : Option PoseSample)
      → Encodes
      → Ensures (λ _. Unit) (on_pose Image Bytes W encode write image o)
  on_pose-returns image none enc = tt
  on_pose-returns image (some p) enc = ground (arith, enc image)

  on_frame-returns :
      (c : C) (r : Readings) (o : Option Image)
      → Encodes
      → HasHeading c
      → Ensures (λ _. Unit) (on_frame Image Bytes W encode write c r o)
  on_frame-returns c r none enc up = tt
  on_frame-returns c r (some image) enc up =
      Ensures-bind (λ _. Unit) (λ _. Unit)
        (sampled (sample c.settings.world_frame c.settings.origin c.poses)) _ (sample-returns c up)
        (λ pose _. on_pose-returns image _ enc)

  sample_world-returns :
      (c : C) (r : Readings)
      → Encodes
      → HasHeading c
      → Ensures (λ _. Unit) (sample_world Image Bytes W encode write c r)
  unfolding sample_world
  sample_world-returns c r enc up = on_frame-returns c r _ enc up

  on_view-returns :
      (c : C) (r : Readings) (token : ℤ) (o : Option Detection)
      → Encodes
      → HasHeading c
      → Writes
      → Named c.settings.entries
      → Ensures (λ _. Unit) (on_view Image Bytes W encode write c r token o)
  on_view-returns c r token none enc up writes n = tt
  on_view-returns c r token (some d) enc up writes n =
      Ensures-bind (λ _. Unit) (λ _. Unit) (sample_world Image Bytes W encode write c r) _
        (sample_world-returns c r enc up) (λ o _. on_sample-returns c r token d o writes n)

  -- Where every image is encoded, the heading of the latest pose is not infinite, the writer raises
  -- nothing but an OSError and every configured checkpoint has a name, a trigger returns, whether or
  -- not the write succeeds. Either it publishes nothing and leaves the coordinator as it was, so that the visit can be retried; or it publishes a capture, and then the
  -- visit had not been captured last, a tag was in view in a fresh buffer, the capture's checkpoint is
  -- the (non-empty) one that the configuration has for that tag in a matching family, the visit is
  -- latched and the buffer of detections is cleared.
  pub on_trigger-returns :
      (c : C) (r : Readings) (token : ℤ)
      → Encodes
      → HasHeading c
      → Writes
      → Named c.settings.entries
      → Ensures
          (Answer Image Bytes W encode write c r token)
          (on_trigger Image Bytes W encode write c r token)
  unfolding on_trigger
  on_trigger-returns c r token enc up writes n =
      Permits-Ensures (Answer Image Bytes W encode write c r token)
        (on_trigger Image Bytes W encode write c r token)
        (on_trigger-Answer Image Bytes W encode write c r token) returns
    where
      returns : Ensures (λ _. Unit) (on_trigger Image Bytes W encode write c r token)
      returns =
          if_cases (Ensures (λ _. Unit)) (is_latched c.latched_token token) (ok (c, none))
            (on_view Image Bytes W encode write c r token
              (first_detection Image Bytes W encode write c r.at_detection))
            (λ _. tt)
            (λ _.
              on_view-returns c r token
                (first_detection Image Bytes W encode write c r.at_detection) enc up writes n)
