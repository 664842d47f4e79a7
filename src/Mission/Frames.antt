-- ===== src/Mission/Frames.antt =====
-- ros2_ws/src/patrol_mission/patrol_mission/frames.py: the conversions between world ENU and NED.
use text.Mathlib.Text.{◌==◌}
use patrol_drone.Prelude.{Bool, not, ◌&&◌, ◌>>=◌, String, Result, ok, err, if◌then◌else◌}
use patrol_drone.Float.{Float}

pub data FrameError : Type 0 where
  unknown_frame : FrameError
  -- `math.remainder` of an infinite angle
  infinite_angle : FrameError

module _ ⦃fl : Float⦄ where
  open fl use {F, milli, pi, add, sub, neg, mul, half, sin, cos, remainder, eq, is_finite}

  abbrev pub Point : Type 0
  Point = F × F × F

  -- (x, y, z, w)
  abbrev pub Quaternion : Type 0
  Quaternion = F × F × F × F

  unfoldable pub to_ned_from_origin : Point → String → Point → Result FrameError Point
  to_ned_from_origin (x, y, z) frame (ox, oy, oz) =
      if frame == "ned"
      then ok (add x ox, add y oy, add z oz)
      else if frame == "enu"
      then ok (add y ox, add x oy, add (neg z) oz)
      else err unknown_frame

  unfoldable pub to_enu_from_ned : Point → Point → Point
  to_enu_from_ned (n, e, d) (ox, oy, oz) = (sub e oy, sub n ox, neg (sub d oz))

  unfoldable pub takeoff_target_ned : Point → F → Point
  takeoff_target_ned (hx, hy, hz) takeoff_alt_m = (hx, hy, sub hz takeoff_alt_m)

  -- `math.isinf`: neither finite nor, as a number that is not one, different from itself
  abbrev pub is_infinite : F → Bool
  is_infinite x = not (is_finite x) && eq x x

  -- of an angle that is not infinite
  wrap_to_pi : F → F
  wrap_to_pi angle =
      let wrapped = remainder angle (mul (milli 2000) pi) in
      if eq wrapped (neg pi) then pi else wrapped

  -- of a yaw that `atan2` gives, which is never infinite
  unfoldable pub enu_yaw_to_ned : F → F
  unfolding wrap_to_pi
  enu_yaw_to_ned yaw_enu = wrap_to_pi (sub (half pi) yaw_enu)

  unfoldable pub ned_yaw_to_enu : F → Result FrameError F
  unfolding wrap_to_pi
  ned_yaw_to_enu yaw_ned =
      let angle = sub (half pi) yaw_ned in
      if is_infinite angle then err infinite_angle else ok (wrap_to_pi angle)

  abbrev pub about_z : F → Quaternion
  about_z yaw = (milli 0, milli 0, sin (half yaw), cos (half yaw))

  unfoldable pub enu_quaternion_from_ned_heading : F → Result FrameError Quaternion
  enu_quaternion_from_ned_heading heading_ned = do
    yaw ← ned_yaw_to_enu heading_ned
    ok (about_z yaw)
