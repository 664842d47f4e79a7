-- ===== src/Mission/Machine/Hold.antt =====
-- state_machine.py, `_within_tolerance_for_hold`: a leg is completed only on continuous evidence.
pub mod Handlers
pub mod Runs
use patrol_drone.Mission.States.{
  MissionState, is_state, Telemetry, takeoff, is_last, waypoint, rth, idle, arming, hover, dwell,
  landing, abort, done, AbortReason,
}
use patrol_drone.Mission.Machine.{
  within_tolerance_for_hold, enter_if_new, Machine, Step, since_or, dispatch, on_idle, on_abort,
  on_done, on_takeoff, on_waypoint, on_rth, on_arming, on_hover, begin_route, fly_waypoint,
  on_dwell, advance_from_dwell, hold_dwell, on_landing, tick, tick_cases, init, with_reason,
  reset_timing,
}
use patrol_drone.Float.{Float}
use patrol_drone.Mission.Frames.{Point}
use patrol_drone.Prelude.{
  Option, ◌≡◌, some, List, true, get_elem?, arith, none, ◌∷◌, ◌⊎◌, [], Bool-cases, refl, inl, inr,
  ◌∙◌, ◌≢◌, false≢true, Ensures, Ensures-map, get_elem?-some, ◌+◌, ap, subst, sym, Ensures-and, ok,
  Ensures-eq,
}
use patrol_drone.Mission.Machine.Flight.{Entry, entry, Input, run, parked, run-keeps}
use patrol_drone.Mission.Config.{MissionConfig}
use patrol_drone.Mission.Machine.Range.{InRange, route_at_total, enter_if_new-InRange, init-InRange}
use patrol_drone.Mission.Machine.Kept.{Outcome, dispatch-Outcome, SameMission}

pub is_state-eq : (s s' : MissionState) → is_state s s' ≡ true → s ≡ s'
is_state-eq s s' e = ground arith

module _ ⦃fl : Float⦄ where
  open fl use {F, le, sub, dist}

  -- The states that end on a tolerance hold, with the point that has to be held.
  abbrev pub hold_target : MissionState → Machine → Option Point
  hold_target takeoff m = some m.takeoff_ned
  hold_target waypoint m = get_elem? m.wps m.p.waypoint_index
  hold_target rth m = some m.home
  hold_target _ m = none

  -- The newest entries of the log, back to one made at time `since`, are all ticks in state `s` with
  -- the drone within `tol` of `p`.
  abbrev pub HeldSince : MissionState → Point → F → F → List Entry → Type 0
  HeldSince s p tol since [] = ⊥
  HeldSince s p tol since (e ∷ log) =
      (e.before ≡ s)
      × (le (dist e.telem.position_ned p) tol ≡ true)
      × ((e.telem.now_s ≡ since) ⊎ HeldSince s p tol since log)

  -- A running hold clock is backed by the log.
  abbrev pub Backed : MissionState → Option F → Option Point → F → List Entry → Type 0
  Backed s none target tol log = Unit
  Backed s (some since) target tol log =
      (p : Point) × (target ≡ some p) × HeldSince s p tol since log

  abbrev pub BackedIn : MissionState → Machine → List Entry → Type 0
  BackedIn s m log = Backed s m.p.inside_since_s (hold_target s m) m.cfg.completion.tolerance_m log

  abbrev pub Clocked : Machine → List Entry → Type 0
  Clocked m log = (s : MissionState) → m.p.last_state ≡ some s → BackedIn s m log

  -- What completing a leg rests on: the point was held without a break from some tick of the same
  -- state on, and the hold time has passed since that tick.
  abbrev pub Completed : MissionState → Option Point → MissionConfig → F → List Entry → Type 0
  Completed s target cfg now log =
      (p : Point) × (since : F) × (target ≡ some p)
      × HeldSince s p cfg.completion.tolerance_m since log
      × (le cfg.completion.hold_time_s (sub now since) ≡ true)

  extend_hold :
      (s : MissionState) (p : Point) (tol : F) (o : Option F) (t : Telemetry) (log : List Entry)
      (r : Step)
      → Backed s o (some p) tol log
      → le (dist t.position_ned p) tol ≡ true
      → HeldSince s p tol (since_or o t.now_s) (entry s t r ∷ log)
  extend_hold s p tol none t log r b e = (refl, e, inl refl)
  extend_hold s p tol (some since) t log r (p', same, held) e =
      let eq : p' ≡ p = cc in (refl, e, inr (rw eq at held))

  pub within-Backed :
      (s : MissionState) (p : Point) (m : Machine) (t : Telemetry) (log : List Entry) (r : Step)
      → Backed s m.p.inside_since_s (some p) m.cfg.completion.tolerance_m log
      → let w = within_tolerance_for_hold m t p in
        Backed s w.1.p.inside_since_s (some p) m.cfg.completion.tolerance_m (entry s t r ∷ log)
        × (w.0 ≡ true → Completed s (some p) m.cfg t.now_s (entry s t r ∷ log))
  unfolding within_tolerance_for_hold
  within-Backed s p m t log r b =
      elim (Bool-cases (le (dist t.position_ned p) m.cfg.completion.tolerance_m)) [
        | inl e ↦
            let held =
              extend_hold s p m.cfg.completion.tolerance_m m.p.inside_since_s t log r b e in
            let since = since_or m.p.inside_since_s t.now_s in
            rw e ((p, refl, held), λ timely. (p, since, refl, held, timely))
        | inr e ↦ rw e (tt, λ k. absurd (false≢true k))
      ]

  pub is_last-eq : (s : MissionState) (o : Option MissionState) → is_last s o ≡ true → o ≡ some s
  is_last-eq s none e = cc
  is_last-eq s (some s') e = cc (is_state-eq s s' e)

  pub enter_if_new-Backed :
      (s : MissionState) (m : Machine) (t : Telemetry) (log : List Entry)
      → Clocked m log
      → let m' = enter_if_new s m t in BackedIn s m' log × (m'.p.last_state ≡ some s)
  unfolding enter_if_new
  enter_if_new-Backed s m t log b = elim (Bool-cases (is_last s m.p.last_state)) [
    | inl e ↦ let l = is_last-eq s m.p.last_state e in rw e (b s l, l)
    | inr e ↦ rw e (tt, refl)
  ]
