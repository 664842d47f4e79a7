-- ===== src/Mission/Machine/Graph.antt =====
-- state_machine.py: the transition diagram of the docstring, with the abort floor on top.
use patrol_drone.Float.{Float}
use patrol_drone.Mission.States.{
  MissionState, non_abortable, idle, Telemetry, arming, takeoff, hover, waypoint, rth, dwell,
  landing, done, abort,
}
use patrol_drone.Mission.Machine.{
  Machine, dispatch, tick, on_idle, tick_cases, on_arming, on_takeoff, enter_if_new,
  within_tolerance_for_hold, on_hover, begin_route, fly_waypoint, on_waypoint, on_dwell,
  advance_from_dwell, hold_dwell, on_rth, on_landing, on_abort, on_done,
}
use patrol_drone.Prelude.{
  arith, Ensures, ◌≡◌, true, false, get_elem?-some, ◌+◌, ◌⊎◌, ◌≢◌, inr, Ensures-map, inl, refl,
}
use patrol_drone.Mission.Machine.Range.{InRange, enter_if_new-InRange, route_at_total}

infix 40 ◌⟶◌
pub data ◌⟶◌ : MissionState → MissionState → Type 0 where
  arm : idle ⟶ arming
  await_arm : arming ⟶ arming
  armed : arming ⟶ takeoff
  climb : takeoff ⟶ takeoff
  climbed : takeoff ⟶ hover
  hold : hover ⟶ hover
  set_out : hover ⟶ waypoint
  no_route : hover ⟶ rth
  approach : waypoint ⟶ waypoint
  arrive : waypoint ⟶ dwell
  capture : dwell ⟶ dwell
  go_on : dwell ⟶ waypoint
  last : dwell ⟶ rth
  fly_home : rth ⟶ rth
  home_reached : rth ⟶ landing
  descend : landing ⟶ landing
  disarmed : landing ⟶ done
  rest : done ⟶ done
  return : abort ⟶ rth

ruleset edges = (
  arm, await_arm, armed, climb, climbed, hold, set_out, no_route, approach, arrive, capture, go_on,
  last, fly_home, home_reached, descend, disarmed, rest, return,
)

pub edge-ne-abort : {s s' : MissionState} → s ⟶ s' → s' ≢ abort
edge-ne-abort arm e = cc
edge-ne-abort _ e = cc

-- On the way home: ABORT, RTH, LANDING or DONE.
abbrev pub IsHomeward : MissionState → Type 0
IsHomeward s = non_abortable s ≡ true

pub edge-IsHomeward : {s s' : MissionState} → s ⟶ s' → IsHomeward s → IsHomeward s'
edge-IsHomeward fly_home h = h
edge-IsHomeward _ h = ground arith

module _ ⦃fl : Float⦄ where
  pub dispatch-Edge :
      (s : MissionState) (m : Machine) (t : Telemetry)
      → InRange s m
      → Ensures (λ r. s ⟶ r.0) (dispatch s m t)
  unfolding dispatch
  dispatch-Edge idle m t v = unfold on_idle in arm
  dispatch-Edge arming m t v = unfold on_arming in grind (arith, edges)
  dispatch-Edge takeoff m t v = unfold on_takeoff within_tolerance_for_hold in grind (arith, edges)
  dispatch-Edge hover m t v =
      unfold on_hover begin_route fly_waypoint in grind (arith, edges, route_at_total hover m 0 v)
  dispatch-Edge waypoint m t v =
      unfold on_waypoint within_tolerance_for_hold in
      grind (arith, edges, route_at_total waypoint m m.p.waypoint_index v)
  dispatch-Edge dwell m t v =
      unfold on_dwell advance_from_dwell hold_dwell fly_waypoint in
      grind (
        arith,
        edges,
        get_elem?-some m.cfg.waypoints m.p.waypoint_index,
        route_at_total dwell m m.p.waypoint_index v,
        route_at_total dwell m (m.p.waypoint_index + 1) v,
      )
  dispatch-Edge rth m t v = unfold on_rth within_tolerance_for_hold in grind (arith, edges)
  dispatch-Edge landing m t v = unfold on_landing in grind (arith, edges)
  dispatch-Edge abort m t v = unfold on_abort in return
  dispatch-Edge done m t v = unfold on_done in rest

  -- A tick in range follows an edge of the diagram, or gives the mission up: to ABORT, and only from
  -- a state that is not ABORT, RTH, LANDING or DONE already.
  pub tick-Edge :
      (s : MissionState) (m : Machine) (t : Telemetry)
      → InRange s m
      → Ensures (λ r. (s ⟶ r.0) ⊎ ((r.0 ≡ abort) × (non_abortable s ≡ false))) (tick m s t)
  tick-Edge s m t v =
      tick_cases (Ensures (λ r. (s ⟶ r.0) ⊎ ((r.0 ≡ abort) × (non_abortable s ≡ false)))) m s t
        (λ e. inr (refl, ground (arith, e)))
        (λ _.
          Ensures-map (λ r. s ⟶ r.0) (λ r. (s ⟶ r.0) ⊎ ((r.0 ≡ abort) × (non_abortable s ≡ false)))
            (dispatch s (enter_if_new s m t) t) (λ r _ h. inl h)
            (dispatch-Edge s (enter_if_new s m t) t (enter_if_new-InRange s m t v)))
