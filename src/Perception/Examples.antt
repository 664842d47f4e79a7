-- ===== src/Perception/Examples.antt =====
-- Tests of the perception package's definitions, and its theorems at concrete inputs: a tag that is
-- in view at two visits, with images and encoded images that are numbers.
use patrol_drone.Mission.Frames.{enu_quaternion_from_ned_heading, ned_yaw_to_enu}
use patrol_drone.Prelude.{
  pos, suc, ok, ◌∷◌, Result, ℕ, List, some, Option, Permits, ℤ, none, [], String, err,
  if◌then◌else◌, refl, ltb, ◌≡◌, Ensures,
}
use patrol_drone.Perception.Coordinator.{
  on_trigger, perceive, Perceived, image_arrives, pose_arrives, detections_arrive, trigger,
  Coordinator, first_detection, sample_world, capture, persist, Readings, CaptureError,
  CaptureRecord, Settings, is_fresh, build_message,
}
use patrol_drone.Perception.Returns.{on_trigger-returns}
use patrol_drone.Perception.Latch.{Answer}
use patrol_drone.Perception.Visits.{watch, NoRepeat, watch-NoRepeat}
use patrol_drone.Float.Fixed.{Fixed, fixed_float, fin}
use patrol_drone.Perception.Samplers.{empty_buffer, latest_at, PoseNed, Time, update, sample}
use patrol_drone.Perception.Resolver.{Detection, resolve}

abbrev pub encode : ℕ → Option ℕ
encode image = some image

abbrev write : ℕ → CaptureRecord → ℕ → Result CaptureError (ℕ × Option String)
write w rec bytes = ok (suc w, if ltb w 1 then some "000_cp_a.png" else none)

abbrev zero_f : Fixed
zero_f = fin (pos 0)

abbrev pub settings : Settings
settings = record {
  detection_s = fin (pos 1000);
  frame_s = fin (pos 500);
  pose_s = fin (pos 1000);
  mission_id = "run";
  world_frame = "patrol_world";
  origin = (zero_f, zero_f, zero_f);
  entries =
      (
        pos 7,
        record {
          checkpoint_id = "cp_a";
          tag_id = pos 7;
          tag_family = "tag36h11";
          position = (zero_f, zero_f, zero_f);
        },
      )
      ∷ [];
}

abbrev idle_coordinator : Coordinator ℕ ℕ ℕ encode write
idle_coordinator = record {
  settings = settings;
  frames = empty_buffer;
  poses = empty_buffer;
  detections = empty_buffer;
  latched_token = none;
  writer = some 0;
}

abbrev pub at : ℕ → Time
at s = (pos s, pos 0)

abbrev pub readings : ℕ → Readings
readings s = record {
  at_detection = at s;
  at_frame = at s;
  at_pose = at s;
  at_emit = at s;
  at_clear = at s;
}

abbrev pub tag : Detection
tag = record { id = pos 7; family = "36h11"; decision_margin = none; hamming = some (pos 0) }

abbrev pub pose : PoseNed
pose = record { x = zero_f; y = zero_f; z = zero_f; heading = zero_f }

-- a capture, a repeated trigger, a trigger with no tag in view, and a second capture
abbrev callbacks : List (Perceived ℕ ℕ ℕ encode write)
callbacks =
    image_arrives 5 (at 1)
    ∷ pose_arrives pose (at 1)
    ∷ detections_arrive (tag ∷ []) (at 1)
    ∷ trigger (pos 0) (readings 1)
    ∷ trigger (pos 0) (readings 1)
    ∷ trigger (pos 1) (readings 1)
    ∷ detections_arrive (tag ∷ []) (at 1)
    ∷ trigger (pos 1) (readings 1)
    ∷ []

abbrev visits_of : Result CaptureError (Coordinator ℕ ℕ ℕ encode write × List ℤ) → Option (List ℤ)
visits_of r = elim r [ ok x ↦ some x.1 | err e ↦ none ]

callbacks_test :
    visits_of (watch ℕ ℕ ℕ encode write idle_coordinator [] callbacks) ≡ some (pos 1 ∷ pos 0 ∷ [])
unfolding watch perceive on_trigger first_detection latest_at update is_fresh sample_world sample
    resolve capture persist build_message enu_quaternion_from_ned_heading ned_yaw_to_enu
callbacks_test = refl

watch-NoRepeat_example :
    Permits
      (λ x. NoRepeat ℕ ℕ ℕ encode write x.1)
      (watch ℕ ℕ ℕ encode write idle_coordinator [] callbacks)
watch-NoRepeat_example = watch-NoRepeat ℕ ℕ ℕ encode write idle_coordinator callbacks refl

abbrev looking : Coordinator ℕ ℕ ℕ encode write
looking = record idle_coordinator {
  frames = record { value = some 5; received_at = some (at 1) };
  poses = record { value = some pose; received_at = some (at 1) };
  detections = record { value = some (tag ∷ []); received_at = some (at 1) };
}

on_trigger-returns_example :
    Ensures
      (Answer ℕ ℕ ℕ encode write looking (readings 1) (pos 0))
      (on_trigger ℕ ℕ ℕ encode write looking (readings 1) (pos 0))
on_trigger-returns_example =
    on_trigger-returns ℕ ℕ ℕ encode write looking (readings 1) (pos 0) (λ i. (i, refl)) refl
      (λ w rec b. tt) (refl, tt)
