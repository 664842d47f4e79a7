-- ===== src/Mission/Machine/Kept.antt =====
-- state_machine.py: what a tick never changes, and what reaches the caller beside the state.
use patrol_drone.Prelude.{
  ◌+◌, ◌≡◌, ◌&&◌, Option, none, some, ℤ, pos, negsuc, Ensures, arith, get_elem?, get_elem?-some,
  List, Ensures-map, Ensures-eq,
}
use patrol_drone.Float.{Float}
use patrol_drone.Mission.Frames.{Point}
use patrol_drone.Mission.States.{
  MissionState, idle, arming, takeoff, hover, waypoint, dwell, rth, landing, abort, done, Telemetry,
  is_state,
}
use patrol_drone.Mission.Machine.{
  Machine, Step, dispatch, fly_waypoint, begin_route, hold_dwell, advance_from_dwell,
  within_tolerance_for_hold, on_idle, on_arming, on_takeoff, on_hover, on_waypoint, on_dwell,
  on_rth, on_landing, on_abort, on_done, tick, enter_if_new, tick_cases, reset_timing,
}
use patrol_drone.Mission.Machine.Range.{InRange, route_at_total, enter_if_new-InRange}
use patrol_drone.Mission.Machine.Flight.{Flight, Input, run, run-keeps}

module _ ⦃fl : Float⦄ where
  open fl use {F, milli}

  -- The mission data of a machine: all but the progress.
  pub record SameMission (m m' : Machine) : Type 0 where
    pub cfg : m'.cfg ≡ m.cfg
    pub wps : m'.wps ≡ m.wps
    pub yaws : m'.yaws ≡ m.yaws
    pub home : m'.home ≡ m.home
    pub takeoff_ned : m'.takeoff_ned ≡ m.takeoff_ned

  -- Where the drone is sent in a state; nowhere while it lands.
  abbrev pub target : MissionState → Machine → Option Point
  target arming m = some m.takeoff_ned
  target takeoff m = some m.takeoff_ned
  target hover m = some m.takeoff_ned
  target waypoint m = get_elem? m.wps m.p.waypoint_index
  target dwell m = get_elem? m.wps m.p.waypoint_index
  target rth m = some m.home
  target abort m = some m.home
  target _ m = none

  abbrev pub shown_waypoint : MissionState → Machine → ℤ
  shown_waypoint waypoint m = pos m.p.waypoint_index
  shown_waypoint dwell m = pos m.p.waypoint_index
  shown_waypoint _ m = negsuc 0

  abbrev pub shown_yaw : MissionState → Machine → Option F
  shown_yaw waypoint m = get_elem? m.yaws m.p.waypoint_index
  shown_yaw dwell m = get_elem? m.yaws m.p.waypoint_index
  shown_yaw _ m = some (milli 0)

  -- A command that agrees with the state that is returned beside it.
  pub record Fits (s : MissionState) (r : Step) : Type 0 where
    pub setpoint : r.1.setpoint_ned ≡ target r.0 r.2
    pub waypoint_shown : r.1.current_waypoint ≡ shown_waypoint r.0 r.2
    pub yaw : some r.1.yaw ≡ shown_yaw r.0 r.2
    pub land : r.1.land ≡ is_state r.0 landing
    pub arm : r.1.arm ≡ is_state r.0 arming
    pub offboard : r.1.set_offboard ≡ (is_state s arming && is_state r.0 arming)

  abbrev pub Outcome : MissionState → Machine → Step → Type 0
  Outcome s m r = SameMission m r.2 × Fits s r × (r.2.p.abort_reason ≡ m.p.abort_reason)

  pub dispatch-Outcome :
      (s : MissionState) (m : Machine) (t : Telemetry)
      → InRange s m
      → Ensures (Outcome s m) (dispatch s m t)
  unfolding dispatch
  dispatch-Outcome idle m t v = unfold on_idle in ground arith
  dispatch-Outcome arming m t v = unfold on_arming in ground arith
  dispatch-Outcome takeoff m t v = unfold on_takeoff within_tolerance_for_hold in ground arith
  dispatch-Outcome hover m t v =
      unfold on_hover begin_route fly_waypoint in ground (arith, route_at_total hover m 0 v)
  dispatch-Outcome waypoint m t v =
      unfold on_waypoint within_tolerance_for_hold in
      ground (arith, route_at_total waypoint m m.p.waypoint_index v)
  dispatch-Outcome dwell m t v =
      unfold on_dwell advance_from_dwell hold_dwell fly_waypoint in
      ground (
        arith,
        get_elem?-some m.cfg.waypoints m.p.waypoint_index,
        route_at_total dwell m m.p.waypoint_index v,
        route_at_total dwell m (m.p.waypoint_index + 1) v,
      )
  dispatch-Outcome rth m t v = unfold on_rth within_tolerance_for_hold in ground arith
  dispatch-Outcome landing m t v = unfold on_landing in ground arith
  dispatch-Outcome abort m t v = unfold on_abort in ground arith
  dispatch-Outcome done m t v = unfold on_done in ground arith

  pub enter_if_new-Outcome :
      (s : MissionState) (m : Machine) (t : Telemetry) (r : Step)
      → Outcome s (enter_if_new s m t) r
      → Outcome s m r
  unfolding enter_if_new
  enter_if_new-Outcome s m t r o = ground arith

  -- A tick in range returns the mission data unchanged, and a command that the old and the new state fix: the
  -- setpoint is the new state's target (none while landing and when done), the waypoint shown is the
  -- index in WAYPOINT and DWELL and -1 elsewhere with the yaw that belongs to it, `land` is set
  -- exactly in LANDING and `arm` exactly in ARMING, and offboard is requested exactly where the tick
  -- starts in ARMING and stays there.
  pub tick-Fits :
      (s : MissionState) (m : Machine) (t : Telemetry)
      → InRange s m
      → Ensures (λ r. SameMission m r.2 × Fits s r) (tick m s t)
  tick-Fits s m t v =
      tick_cases (Ensures (λ r. SameMission m r.2 × Fits s r)) m s t
        (λ _. unfold enter_if_new in ground arith)
        (λ _.
          Ensures-map (Outcome s (enter_if_new s m t)) (λ r. SameMission m r.2 × Fits s r)
            (dispatch s (enter_if_new s m t) t)
            (λ r _ o. let (same, fits, _) = enter_if_new-Outcome s m t r o in (same, fits))
            (dispatch-Outcome s (enter_if_new s m t) t (enter_if_new-InRange s m t v)))

  -- The mission data of a machine after any run is what it was before.
  pub run-SameMission :
      (m : Machine) (f : Flight) (is : List Input)
      → InRange f.state f.machine
      → SameMission m f.machine
      → Ensures (λ g. InRange g.state g.machine × SameMission m g.machine) (run f is)
  run-SameMission m f is v h =
      run-keeps (λ g. SameMission m g.machine)
        (λ g t r w e k.
          let o =
            Ensures-eq (λ r. SameMission g.machine r.2 × Fits g.state r) (tick g.machine g.state t)
              e (tick-Fits g.state g.machine t w) in
          ground (arith, o, k))
        (λ g k. unfold reset_timing in ground (arith, k)) f is v h
