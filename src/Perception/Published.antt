-- ===== src/Perception/Published.antt =====
-- coordinator.py and capture_writer.py together: what is published and what is on the disk.
use patrol_drone.Prelude.{
  Permits-after, Ensures, Ensures-map, Permits-Ensures, ok, err, Result, Option, String, ℤ, ◌≡◌,
  inl, inr, some, none, ◌∷◌, [], refl, sym, subst, Bool-cases, Permits, Permits-step, Permits-bind,
  if_cases, or_raise,
}
use patrol_drone.Float.{Float}
use patrol_drone.Perception.Samplers.{sample, Time, latest_at, PoseSample, LatestBuffer}
use patrol_drone.Perception.Resolver.{Detection, resolve, Metadata, ResolverError, verbatim}
use patrol_drone.Perception.Coordinator.{
  sampled, on_trigger, record_of, visit_metadata, on_resolved, on_sample, on_view, on_pose,
  on_frame, sample_world, first_detection, persist, capture, CaptureRecord, Coordinator, Readings,
  Settings, is_fresh, build_message, is_latched, fresh_frame, encode_failed,
}
use patrol_drone.Perception.Latch.{Answer, build_message-same}
use patrol_drone.Perception.Returns.{HasHeading, Encodes, Writes, Named, on_trigger-returns}
use patrol_drone.Perception.Filed.{Store, write_next, Filed, shown_of-put, persist-Filed}

module _ ⦃fl : Float⦄ (Bytes Image : Type 0) (encode : Image → Option Bytes) where
  abbrev C : Type 0
  C = Coordinator Image Bytes (Store Bytes) encode (write_next Bytes)

  -- the encoded image is that of the latest frame
  abbrev pub IsShot : C → Bytes → Type 0
  IsShot c b = (i : Image) × (c.frames.value ≡ some i) × (encode i ≡ some b)

  -- what is published is on the disk
  abbrev pub Agrees : C → C × Option CaptureRecord → Type 0
  Agrees c (after, none) = after ≡ c
  Agrees c (after, some m) = (b : Bytes) × IsShot c b × Filed Bytes b c.writer after.writer m

  abbrev ShotOr : C → Option (Bytes × PoseSample) → Type 0
  ShotOr c none = Unit
  ShotOr c (some (b, p)) = IsShot c b

  on_pose-Shot :
      (c : C) (i : Image) (o : Option PoseSample)
      → c.frames.value ≡ some i
      → Permits (ShotOr c) (on_pose Image Bytes (Store Bytes) encode (write_next Bytes) i o)
  on_pose-Shot c i none h = tt
  on_pose-Shot c i (some p) h =
      Permits-step (ShotOr c) (or_raise (encode i) encode_failed) _
        λ b e. (i, h, encoded (encode i) b e)
    where
      encoded : (o : Option Bytes) (b : Bytes) → or_raise o encode_failed ≡ ok b → o ≡ some b
      encoded none b e = cc
      encoded (some a) b e = cc

  fresh_frame-latest :
      (s : Settings) (now : Time) (f : LatestBuffer Image) (i : Image)
      → fresh_frame Image Bytes (Store Bytes) encode (write_next Bytes) s now (latest_at f) ≡ some i
      → f.value ≡ some i
  unfolding latest_at
  fresh_frame-latest s now f i h = latest f.value f.received_at h
    where
      latest :
          (v : Option Image) (t : Option Time)
          → fresh_frame Image Bytes
              (Store Bytes)
              encode
              (write_next Bytes)
              s
              now
              (latest_at (record { value = v; received_at = t }))
            ≡ some i
          → v ≡ some i
      latest none t h = cc
      latest (some x) none h = cc
      latest (some x) (some t) h = elim (Bool-cases (is_fresh now t s.frame_s)) [
        | inl fresh ↦ cc (rw fresh at h)
        | inr stale ↦ cc (rw stale at h)
      ]

  on_frame-Shot :
      (c : C) (r : Readings) (o : Option Image)
      → fresh_frame Image Bytes
          (Store Bytes)
          encode
          (write_next Bytes)
          c.settings
          r.at_frame
          (latest_at c.frames)
        ≡ o
      → Permits (ShotOr c) (on_frame Image Bytes (Store Bytes) encode (write_next Bytes) c r o)
  on_frame-Shot c r none e = tt
  on_frame-Shot c r (some i) e =
      Permits-after (ShotOr c) (sampled (sample c.settings.world_frame c.settings.origin c.poses)) _
        λ pose. on_pose-Shot c i _ (fresh_frame-latest c.settings r.at_frame c.frames i e)

  sample_world-Shot :
      (c : C) (r : Readings)
      → Permits (ShotOr c) (sample_world Image Bytes (Store Bytes) encode (write_next Bytes) c r)
  unfolding sample_world
  sample_world-Shot c r = on_frame-Shot c r _ refl

  capture-Agrees :
      (c : C) (r : Readings) (token : ℤ) (cid : String) (ms : Metadata) (b : Bytes) (p : PoseSample)
      → IsShot c b
      → Permits
          (Agrees c)
          (capture Image Bytes (Store Bytes) encode (write_next Bytes) c r token cid ms b p)
  unfolding capture
  capture-Agrees c r token cid ms b p shot =
      let visit =
        visit_metadata Image Bytes (Store Bytes) encode (write_next Bytes) c.settings token ms in
      let rec =
        record_of Image Bytes (Store Bytes) encode (write_next Bytes) cid visit p r.at_emit in
      Permits-bind (λ out. Filed Bytes b c.writer out.0 out.1) (Agrees c)
        (persist Image Bytes (Store Bytes) encode (write_next Bytes) c.writer rec b) _
        (persist-Filed Bytes Image encode c.writer rec b refl
          (shown_of-put Bytes visit "image_write_status" (verbatim "ok")))
        λ kept filed. Permits-step (Agrees c) (build_message kept.1) _ λ msg h. (
          b,
          shot,
          subst (Filed Bytes b c.writer kept.0)
              (sym
                (build_message-same Image Bytes (Store Bytes) encode (write_next Bytes) kept.1 msg
                  h).0)
              filed,
        )

  on_resolved-Agrees :
      (c : C) (r : Readings) (token : ℤ) (b : Bytes) (p : PoseSample)
      (q : Result ResolverError (String × Metadata))
      → IsShot c b
      → Permits
          (Agrees c)
          (on_resolved Image Bytes (Store Bytes) encode (write_next Bytes) c r token b p q)
  on_resolved-Agrees c r token b p (err x) shot = refl
  on_resolved-Agrees c r token b p (ok (cid, ms)) shot = capture-Agrees c r token cid ms b p shot

  on_sample-Agrees :
      (c : C) (r : Readings) (token : ℤ) (d : Detection) (o : Option (Bytes × PoseSample))
      → ShotOr c o
      → Permits
          (Agrees c)
          (on_sample Image Bytes (Store Bytes) encode (write_next Bytes) c r token d o)
  on_sample-Agrees c r token d none shot = refl
  on_sample-Agrees c r token d (some (b, p)) shot =
      on_resolved-Agrees c r token b p (resolve c.settings.entries d) shot

  on_view-Agrees :
      (c : C) (r : Readings) (token : ℤ) (o : Option Detection)
      → Permits (Agrees c) (on_view Image Bytes (Store Bytes) encode (write_next Bytes) c r token o)
  on_view-Agrees c r token none = refl
  on_view-Agrees c r token (some d) =
      Permits-bind (ShotOr c) (Agrees c)
        (sample_world Image Bytes (Store Bytes) encode (write_next Bytes) c r) _
        (sample_world-Shot c r) (λ o shot. on_sample-Agrees c r token d o shot)

  on_trigger-Permits :
      (c : C) (r : Readings) (token : ℤ)
      → Permits
          (Agrees c)
          (on_trigger Image Bytes (Store Bytes) encode (write_next Bytes) c r token)
  unfolding on_trigger
  on_trigger-Permits c r token =
      if_cases (Permits (Agrees c)) (is_latched c.latched_token token) (ok (c, none))
        (on_view Image Bytes (Store Bytes) encode (write_next Bytes) c r token
          (first_detection Image Bytes (Store Bytes) encode (write_next Bytes) c r.at_detection))
        (λ _. refl) (λ _. on_view-Agrees c r token _)

  write_next-returns : Writes Image Bytes (Store Bytes) encode (write_next Bytes)
  write_next-returns (d, []) rec b = tt
  write_next-returns (d, t ∷ ts) rec b = tt

  -- A message and the disk agree. Where every image is encoded, the heading of the latest pose is not
  -- infinite and every configured checkpoint has a name, a trigger returns. Where it publishes with a writer in place, the image is that of the
  -- latest frame, and either the write failed, the message says so and names no image, and no number
  -- is used up; or the message says that it is written and has the path of its image, the image is on
  -- the disk under it, and beside it is the sidecar that is built from this very message. Without a
  -- writer the message names no image. Where nothing is published, nothing has changed.
  pub on_trigger-Agrees :
      (c : C) (r : Readings) (token : ℤ)
      → Encodes Image Bytes (Store Bytes) encode (write_next Bytes)
      → HasHeading Image Bytes (Store Bytes) encode (write_next Bytes) c
      → Named Image Bytes (Store Bytes) encode (write_next Bytes) c.settings.entries
      → Ensures
          (Agrees c)
          (on_trigger Image Bytes (Store Bytes) encode (write_next Bytes) c r token)
  on_trigger-Agrees c r token enc up n =
      let run_ = on_trigger Image Bytes (Store Bytes) encode (write_next Bytes) c r token in
      Permits-Ensures (Agrees c) run_ (on_trigger-Permits c r token) (
        Ensures-map (Answer Image Bytes (Store Bytes) encode (write_next Bytes) c r token)
          (λ _. Unit) run_ (λ _ _ _. tt)
          (on_trigger-returns Image Bytes (Store Bytes) encode (write_next Bytes) c r token enc up
            write_next-returns n))
