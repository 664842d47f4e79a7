-- ===== src/Perception/Samplers.antt =====
-- samplers.py: the latest values of the streams, with the times at which they came in.
use patrol_drone.Prelude.{Result, ok, ◌>>=◌, String, none, Option, ℤ, some}
use patrol_drone.Float.{Float}
use patrol_drone.Mission.Frames.{
  FrameError, Point, Quaternion, to_enu_from_ned, enu_quaternion_from_ned_heading,
}

-- (seconds, nanoseconds)
abbrev pub Time : Type 0
Time = ℤ × ℤ

pub record LatestBuffer (A : Type 0) : Type 0 where
  pub value : Option A
  pub received_at : Option Time

abbrev pub empty_buffer : {A : Type 0} → LatestBuffer A
empty_buffer = record { value = none; received_at = none }

unfoldable pub update : {A : Type 0} → LatestBuffer A → Option A → Time → LatestBuffer A
update b v now = record { value = v; received_at = some now }

abbrev both_present : {A : Type 0} → Option A → Option Time → Option (A × Time)
both_present (some a) (some t) = some (a, t)
both_present _ _ = none

unfoldable pub latest_at : {A : Type 0} → LatestBuffer A → Option (A × Time)
latest_at b = both_present b.value b.received_at

module _ ⦃fl : Float⦄ where
  open fl use {F}

  -- the fields of VehicleLocalPosition that the sampler reads
  pub record PoseNed : Type 0 where
    pub x : F
    pub y : F
    pub z : F
    pub heading : F

  pub record PoseSample : Type 0 where
    pub position : Point
    pub orientation : Quaternion
    pub frame_id : String

  abbrev pub to_sample : String → Point → PoseNed → Result FrameError PoseSample
  to_sample world_frame origin pose = do
    orientation ← enu_quaternion_from_ned_heading pose.heading
    ok (record {
      position = to_enu_from_ned (pose.x, pose.y, pose.z) origin;
      orientation = orientation;
      frame_id = world_frame;
    })

  abbrev pub sample_latest :
      String → Point → Option (PoseNed × Time) → Result FrameError (Option (PoseSample × Time))
  sample_latest world_frame origin none = ok none
  sample_latest world_frame origin (some (pose, received_at)) = do
    pose_sample ← to_sample world_frame origin pose
    ok (some (pose_sample, received_at))

  -- `PoseSampler.sample`, which raises on an infinite heading
  unfoldable pub sample :
      String → Point → LatestBuffer PoseNed → Result FrameError (Option (PoseSample × Time))
  sample world_frame origin b = sample_latest world_frame origin (latest_at b)
