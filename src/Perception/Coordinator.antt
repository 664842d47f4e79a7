-- ===== src/Perception/Coordinator.antt =====
-- coordinator.py, with the record of capture_builder.py and the callbacks of perception_node.py that
-- feed it. The encoder and the writer are parameters; the clock's readings are arguments.
use text.Mathlib.Text.{◌==◌}
use patrol_drone.Prelude.{
  ok, err, Result, ◌∷◌, ◌>>◌, ◌>>=◌, String, Option, Result, Bool, List, raise_if, some, ℤ, none,
  false, ok, if◌then◌else◌, ◌-ℤ◌, eq_ℤ, [], err, or_raise,
}
use patrol_drone.Float.{Float}
use patrol_drone.Perception.Samplers.{
  Time, PoseSample, LatestBuffer, latest_at, PoseNed, update, sample,
}
use patrol_drone.Mission.Frames.{FrameError, Point, Quaternion}
use patrol_drone.Perception.Resolver.{
  Detection, Metadata, Entries, put, verbatim, resolve, shown_int, ResolverError,
}

-- What leaves `on_trigger`: the encoder's error, the refusal of `build_message`, an error of the writer
-- that is not an OSError, or what the sampling of the pose raises.
pub data CaptureError : Type 0 where
  encode_failed empty_checkpoint_id writer_failed : CaptureError
  bad_pose : FrameError → CaptureError

abbrev pub sampled : {A : Type 0} → Result FrameError A → Result CaptureError A
sampled (ok a) = ok a
sampled (err e) = err (bad_pose e)

-- the readings of the clock in one trigger, in order
pub record Readings : Type 0 where
  pub at_detection : Time
  pub at_frame : Time
  pub at_pose : Time
  pub at_emit : Time
  pub at_clear : Time

module _ ⦃fl : Float⦄ where
  open fl use {F, le, add_int, of_nanos}

  pub record CaptureRecord : Type 0 where
    pub stamp : Time
    pub frame_id : String
    pub checkpoint_id : String
    pub position : Point
    pub orientation : Quaternion
    pub image_path : String
    pub metadata : Metadata

  pub record Settings : Type 0 where
    pub detection_s : F
    pub frame_s : F
    pub pose_s : F
    pub mission_id : String
    pub world_frame : String
    pub origin : Point
    pub entries : Entries

  unfoldable pub is_fresh : Time → Time → F → Bool
  is_fresh (now_sec, now_ns) (rx_sec, rx_ns) max_age_s =
      le (add_int (now_sec -ℤ rx_sec) (of_nanos (now_ns -ℤ rx_ns))) max_age_s

  abbrev pub fresh_head : Settings → Time → Option (List Detection × Time) → Option Detection
  fresh_head s now none = none
  fresh_head s now (some ([], received_at)) = none
  fresh_head s now (some (d ∷ ds, received_at)) =
      if is_fresh now received_at s.detection_s then some d else none

  -- the pose, behind its gate
  abbrev pub fresh_pose : Settings → Time → Option (PoseSample × Time) → Option PoseSample
  fresh_pose s now none = none
  fresh_pose s now (some (p, received_at)) =
      if is_fresh now received_at s.pose_s then some p else none

  abbrev pub is_latched : Option ℤ → ℤ → Bool
  is_latched none token = false
  is_latched (some t) token = eq_ℤ token t

  -- `build_message`: the message has the fields of the record.
  unfoldable pub build_message : CaptureRecord → Result CaptureError CaptureRecord
  build_message rec = do raise_if (rec.checkpoint_id == "") empty_checkpoint_id; ok rec

  -- Images, encoded images, and the writer's own state. A write ends with the path of the image, with
  -- nothing after an OSError, or with another error.
  module _ (Image Bytes W : Type 0) (encode : Image → Option Bytes)
      (write : W → CaptureRecord → Bytes → Result CaptureError (W × Option String)) where
    pub record Coordinator : Type 0 where
      pub settings : Settings
      pub frames : LatestBuffer Image
      pub poses : LatestBuffer PoseNed
      pub detections : LatestBuffer (List Detection)
      pub latched_token : Option ℤ
      pub writer : Option W

    unfoldable pub first_detection : Coordinator → Time → Option Detection
    first_detection c now = fresh_head c.settings now (latest_at c.detections)

    -- the frame, behind its gate
    abbrev pub fresh_frame : Settings → Time → Option (Image × Time) → Option Image
    fresh_frame s now none = none
    fresh_frame s now (some (i, received_at)) =
        if is_fresh now received_at s.frame_s then some i else none

    -- `sample_world` on the fresh pose, and on the fresh frame
    abbrev pub on_pose :
        Image → Option PoseSample → Result CaptureError (Option (Bytes × PoseSample))
    on_pose image none = ok none
    on_pose image (some pose) = do
      bytes ← or_raise (encode image) encode_failed
      ok (some (bytes, pose))

    abbrev pub on_frame :
        Coordinator → Readings → Option Image → Result CaptureError (Option (Bytes × PoseSample))
    on_frame c r none = ok none
    on_frame c r (some image) = do
      pose ← sampled (sample c.settings.world_frame c.settings.origin c.poses)
      on_pose image (fresh_pose c.settings r.at_pose pose)

    unfoldable pub sample_world :
        Coordinator → Readings → Result CaptureError (Option (Bytes × PoseSample))
    sample_world c r = on_frame c r (fresh_frame c.settings r.at_frame (latest_at c.frames))

    abbrev pub failed : CaptureRecord → CaptureRecord
    failed rec = record rec { metadata = put rec.metadata "image_write_status" (verbatim "failed") }

    abbrev pub written : CaptureRecord → Option String → CaptureRecord
    written rec none = failed rec
    written rec (some path) = record rec { image_path = path }

    unfoldable pub persist :
        Option W → CaptureRecord → Bytes → Result CaptureError (Option W × CaptureRecord)
    persist none rec bytes = ok (none, rec)
    persist (some w) rec bytes = do (w', path) ← write w rec bytes; ok (some w', written rec path)

    -- the record of `_emit`, before it is written
    abbrev pub record_of : String → Metadata → PoseSample → Time → CaptureRecord
    record_of checkpoint_id metadata pose stamp = record {
      stamp = stamp;
      frame_id = pose.frame_id;
      checkpoint_id = checkpoint_id;
      position = pose.position;
      orientation = pose.orientation;
      image_path = "";
      metadata = put metadata "image_write_status" (verbatim "ok");
    }

    abbrev pub visit_metadata : Settings → ℤ → Metadata → Metadata
    visit_metadata s token ms =
        put (put ms "mission_id" (verbatim s.mission_id)) "waypoint_index" (shown_int token)

    -- `on_trigger` from a resolved detection on
    unfoldable pub capture :
        Coordinator
        → Readings
        → ℤ
        → String
        → Metadata
        → Bytes
        → PoseSample
        → Result CaptureError (Coordinator × Option CaptureRecord)
    capture c r token checkpoint_id ms bytes pose = do
      stored ←
          persist c.writer
            (record_of checkpoint_id (visit_metadata c.settings token ms) pose r.at_emit) bytes
      msg ← build_message stored.1
      ok (
        record c {
          writer = stored.0;
          latched_token = some token;
          detections = update c.detections none r.at_clear;
        },
        some msg,
      )

    -- `on_trigger`, in its steps: on what the resolver says, on the sampled world, on the tag in view
    abbrev pub on_resolved :
        Coordinator
        → Readings
        → ℤ
        → Bytes
        → PoseSample
        → Result ResolverError (String × Metadata)
        → Result CaptureError (Coordinator × Option CaptureRecord)
    on_resolved c r token bytes pose (err e) = ok (c, none)
    on_resolved c r token bytes pose (ok (checkpoint_id, ms)) =
        capture c r token checkpoint_id ms bytes pose

    abbrev pub on_sample :
        Coordinator
        → Readings
        → ℤ
        → Detection
        → Option (Bytes × PoseSample)
        → Result CaptureError (Coordinator × Option CaptureRecord)
    on_sample c r token d none = ok (c, none)
    on_sample c r token d (some (bytes, pose)) =
        on_resolved c r token bytes pose (resolve c.settings.entries d)

    abbrev pub on_view :
        Coordinator
        → Readings
        → ℤ
        → Option Detection
        → Result CaptureError (Coordinator × Option CaptureRecord)
    on_view c r token none = ok (c, none)
    on_view c r token (some d) = do sampled ← sample_world c r; on_sample c r token d sampled

    unfoldable pub on_trigger :
        Coordinator → Readings → ℤ → Result CaptureError (Coordinator × Option CaptureRecord)
    on_trigger c r token =
        if is_latched c.latched_token token
        then ok (c, none)
        else on_view c r token (first_detection c r.at_detection)

    -- the callbacks of the node, with the readings of the clock
    pub data Perceived : Type 0 where
      image_arrives : Image → Time → Perceived
      pose_arrives : PoseNed → Time → Perceived
      detections_arrive : List Detection → Time → Perceived
      trigger : ℤ → Readings → Perceived

    unfoldable pub perceive :
        Coordinator → Perceived → Result CaptureError (Coordinator × Option CaptureRecord)
    perceive c (image_arrives i now) = ok (record c { frames = update c.frames (some i) now }, none)
    perceive c (pose_arrives p now) = ok (record c { poses = update c.poses (some p) now }, none)
    perceive c (detections_arrive ds now) =
        ok (record c { detections = update c.detections (some ds) now }, none)
    perceive c (trigger token r) = on_trigger c r token
