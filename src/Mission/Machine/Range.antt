-- ===== src/Mission/Machine/Range.antt =====
-- state_machine.py: the route lists are aligned and the waypoint index stays inside them, so no
-- subscript of the handlers is out of range.
use patrol_drone.Prelude.{
  ℕ, some, ◌+◌, ◌<◌, ◌≡◌, refl, Bool, true, false, Option, List, ok, Ensures, or_raise, arith,
  length, get_elem?-some, get_elem?,
}
use patrol_drone.Float.{Float}
use patrol_drone.Mission.Frames.{Point}
use patrol_drone.Mission.Config.{MissionConfig}
use patrol_drone.Mission.States.{
  MissionState, idle, arming, takeoff, hover, waypoint, dwell, rth, landing, abort, done, Telemetry,
}
use patrol_drone.Mission.Machine.{
  Machine, init, tick, dispatch, enter_if_new, route_at, fly_waypoint, begin_route, hold_dwell,
  advance_from_dwell, within_tolerance_for_hold, on_idle, on_arming, on_takeoff, on_hover,
  on_waypoint, on_dwell, on_rth, on_landing, on_abort, on_done, tick_cases, reset_timing,
}

abbrev pub on_route : MissionState → Bool
on_route waypoint = true
on_route dwell = true
on_route _ = false

module _ ⦃fl : Float⦄ where
  open fl use {F}

  pub record InRange (s : MissionState) (m : Machine) : Type 0 where
    pub aligned_wps : length m.wps ≡ length m.cfg.waypoints
    pub aligned_yaws : length m.yaws ≡ length m.wps
    pub index_ok : on_route s ≡ true → m.p.waypoint_index < length m.wps

  pub route_at_total :
      (s : MissionState) (m : Machine) (i : ℕ)
      → InRange s m
      → i < length m.wps
      → (a : Point × F) × (route_at m i ≡ ok a)
        × (get_elem? m.wps i ≡ some a.0)
        × (get_elem? m.yaws i ≡ some a.1)
  unfolding route_at
  route_at_total s m i v h =
      let (p, ep) = get_elem?-some m.wps i h in
      let (y, ey) = get_elem?-some m.yaws i (omega arith) in
      ((p, y), rw (ep, or_raise) (rw (ey, or_raise) refl), ep, ey)

  fly_waypoint-InRange :
      (s : MissionState) (m : Machine) (i : ℕ)
      → InRange s m
      → i < length m.wps
      → Ensures (λ r. InRange r.0 r.2) (fly_waypoint m i)
  unfolding fly_waypoint
  fly_waypoint-InRange s m i v h = ground (arith, route_at_total s m i v h)

  dispatch-InRange :
      (s : MissionState) (m : Machine) (t : Telemetry)
      → InRange s m
      → Ensures (λ r. InRange r.0 r.2) (dispatch s m t)
  unfolding dispatch
  dispatch-InRange idle m t v = unfold on_idle in ground arith
  dispatch-InRange arming m t v = unfold on_arming in ground arith
  dispatch-InRange takeoff m t v = unfold on_takeoff within_tolerance_for_hold in ground arith
  dispatch-InRange hover m t v =
      unfold on_hover begin_route in ground (arith, fly_waypoint-InRange hover m 0 v)
  dispatch-InRange waypoint m t v =
      unfold on_waypoint within_tolerance_for_hold in
      ground (arith, route_at_total waypoint m m.p.waypoint_index v)
  dispatch-InRange dwell m t v =
      unfold on_dwell advance_from_dwell hold_dwell in
      ground (
        arith,
        get_elem?-some m.cfg.waypoints m.p.waypoint_index,
        route_at_total dwell m m.p.waypoint_index v,
        fly_waypoint-InRange dwell m (m.p.waypoint_index + 1) v,
      )
  dispatch-InRange rth m t v = unfold on_rth within_tolerance_for_hold in ground arith
  dispatch-InRange landing m t v = unfold on_landing in ground arith
  dispatch-InRange abort m t v = unfold on_abort in ground arith
  dispatch-InRange done m t v = unfold on_done in ground arith

  pub enter_if_new-InRange :
      (s : MissionState) (m : Machine) (t : Telemetry)
      → InRange s m
      → InRange s (enter_if_new s m t)
  unfolding enter_if_new
  enter_if_new-InRange s m t v = ground arith

  -- From a machine whose lists are aligned and whose index is in range, `tick` returns (no subscript
  -- raises), and the machine and state that it returns are so again.
  pub tick-InRange :
      (s : MissionState) (m : Machine) (t : Telemetry)
      → InRange s m
      → Ensures (λ r. InRange r.0 r.2) (tick m s t)
  tick-InRange s m t v =
      tick_cases (Ensures (λ r. InRange r.0 r.2)) m s t (λ _. unfold enter_if_new in ground arith)
        (λ _. dispatch-InRange s (enter_if_new s m t) t (enter_if_new-InRange s m t v))

  -- A machine that is built from a configuration is in range in IDLE.
  pub init-InRange :
      (c : MissionConfig) (wps : List Point) (home : Point) (yaws : Option (List F)) (m : Machine)
      → init c wps home yaws ≡ ok m
      → InRange idle m
  unfolding init
  init-InRange c wps home yaws m e = ground arith

  pub reset_timing-InRange :
      (s : MissionState) (m : Machine) → InRange s m → InRange s (reset_timing m)
  unfolding reset_timing
  reset_timing-InRange s m v = ground arith
