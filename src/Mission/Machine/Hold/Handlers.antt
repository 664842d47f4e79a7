-- ===== src/Mission/Machine/Hold/Handlers.antt =====
-- state_machine.py: what each state's handler does to the hold clock.
use patrol_drone.Mission.States.{
  MissionState, Telemetry, takeoff, waypoint, rth, idle, arming, hover, dwell, landing, abort, done,
}
use patrol_drone.Mission.Machine.{
  within_tolerance_for_hold, enter_if_new, Machine, Step, dispatch, on_idle, on_abort, on_done,
  on_takeoff, on_waypoint, on_rth, on_arming, on_hover, begin_route, fly_waypoint, on_dwell,
  advance_from_dwell, hold_dwell, on_landing,
}
use patrol_drone.Float.{Float}
use patrol_drone.Mission.Frames.{Point}
use patrol_drone.Prelude.{
  Option, ◌≡◌, some, List, true, arith, none, ◌∷◌, Bool-cases, refl, inl, inr, ◌∙◌, ◌≢◌, Ensures,
  Ensures-map, get_elem?-some, ◌+◌, ap, subst, sym,
}
use patrol_drone.Mission.Machine.Flight.{Entry, entry}
use patrol_drone.Mission.Machine.Range.{InRange, route_at_total}
use patrol_drone.Mission.Machine.Hold.{Backed, hold_target, BackedIn, within-Backed, Completed}

module _ ⦃fl : Float⦄ where
  open fl use {F, le, sub, dist}

  -- What the handler of a hold state gives back.
  abbrev pub Handled : MissionState → Machine → Telemetry → List Entry → Step → Type 0
  Handled s m t log r =
      (r.2.p.last_state ≡ some s)
      × (hold_target s r.2 ≡ hold_target s m)
      × Backed s r.2.p.inside_since_s (hold_target s m) m.cfg.completion.tolerance_m
          (entry s t r ∷ log)
      × (r.0 ≢ s
          → hold_target s m ≢ none
          → Completed s (hold_target s m) m.cfg t.now_s (entry s t r ∷ log))

  abbrev pub SamePace : Machine → Step → Type 0
  SamePace m r = (r.2.p.last_state ≡ m.p.last_state) × (r.2.p.inside_since_s ≡ m.p.inside_since_s)

  pub no_clock :
      (s : MissionState) (o : Option F) (tol : F) (log log' : List Entry)
      → Backed s o none tol log
      → Backed s o none tol log'
  no_clock s none tol log log' b = tt
  no_clock s (some x) tol log log' (p, e, _) = cc

  unclocked :
      (s : MissionState) (m : Machine) (t : Telemetry) (log : List Entry) (r : Step)
      → hold_target s m ≡ none
      → hold_target s r.2 ≡ none
      → m.p.last_state ≡ some s
      → BackedIn s m log
      → SamePace m r
      → Handled s m t log r
  unclocked s m t log r h h' l b (same_last, same_inside) =
      let tol = m.cfg.completion.tolerance_m in
      let log' = entry s t r ∷ log in
      let b' : Backed s m.p.inside_since_s none tol log = rw h at b in
      (
        same_last ∙ l,
        h' ∙ sym h,
        subst (λ T. Backed s r.2.p.inside_since_s T tol log') (sym h)
            (subst (λ o. Backed s o none tol log') (sym same_inside)
              (no_clock s m.p.inside_since_s tol log log' b')),
        λ _ k. absurd (k h),
      )

  within_last :
      (m : Machine) (t : Telemetry) (p : Point)
      → (within_tolerance_for_hold m t p).1.p.last_state ≡ m.p.last_state
  unfolding within_tolerance_for_hold
  within_last m t p = ground arith

  hold_target-within :
      (s : MissionState) (m : Machine) (t : Telemetry) (p : Point)
      → hold_target s (within_tolerance_for_hold m t p).1 ≡ hold_target s m
  unfolding within_tolerance_for_hold
  hold_target-within takeoff m t p = ground arith
  hold_target-within waypoint m t p = ground arith
  hold_target-within rth m t p = ground arith
  hold_target-within _ m t p = refl

  pub hold_target-enter :
      (s : MissionState) (m : Machine) (t : Telemetry)
      → hold_target s (enter_if_new s m t) ≡ hold_target s m
  unfolding enter_if_new
  hold_target-enter takeoff m t = ground arith
  hold_target-enter waypoint m t = ground arith
  hold_target-enter rth m t = ground arith
  hold_target-enter _ m t = refl

  pub cfg-enter :
      (s : MissionState) (m : Machine) (t : Telemetry) → (enter_if_new s m t).cfg ≡ m.cfg
  unfolding enter_if_new
  cfg-enter s m t = ground arith

  -- A handler that ends its state when the hold is complete, and stays otherwise.
  within-Handled :
      (s : MissionState) (p : Point) (m : Machine) (t : Telemetry) (log : List Entry) (r : Step)
      → m.p.last_state ≡ some s
      → BackedIn s m log
      → hold_target s m ≡ some p
      → r.2 ≡ (within_tolerance_for_hold m t p).1
      → (r.0 ≢ s → (within_tolerance_for_hold m t p).0 ≡ true)
      → Handled s m t log r
  within-Handled s p m t log r l b h em leaves =
      let tol = m.cfg.completion.tolerance_m in
      let log' = entry s t r ∷ log in
      let b' : Backed s m.p.inside_since_s (some p) tol log = rw h at b in
      let w = within-Backed s p m t log r b' in
      (
        ap (λ x. x.p.last_state) em ∙ within_last m t p ∙ l,
        ap (hold_target s) em ∙ hold_target-within s m t p,
        subst (λ T. Backed s r.2.p.inside_since_s T tol log') (sym h)
            (subst (λ x. Backed s x.p.inside_since_s (some p) tol log') (sym em) w.0),
        λ ne _. subst (λ T. Completed s T m.cfg t.now_s log') (sym h) (w.1 (leaves ne)),
      )

  hover-SamePace :
      (m : Machine) (t : Telemetry) → InRange hover m → Ensures (SamePace m) (on_hover m t)
  unfolding on_hover begin_route fly_waypoint
  hover-SamePace m t v = ground (arith, route_at_total hover m 0 v)

  dwell-SamePace :
      (m : Machine) (t : Telemetry) → InRange dwell m → Ensures (SamePace m) (on_dwell m t)
  unfolding on_dwell advance_from_dwell hold_dwell fly_waypoint
  dwell-SamePace m t v = ground (
    arith,
    get_elem?-some m.cfg.waypoints m.p.waypoint_index,
    route_at_total dwell m m.p.waypoint_index v,
    route_at_total dwell m (m.p.waypoint_index + 1) v,
  )

  pub dispatch-Handled :
      (s : MissionState) (m : Machine) (t : Telemetry) (log : List Entry)
      → InRange s m
      → m.p.last_state ≡ some s
      → BackedIn s m log
      → Ensures (Handled s m t log) (dispatch s m t)
  unfolding dispatch
  dispatch-Handled takeoff m t log v l b =
      unfold on_takeoff in
      elim (Bool-cases (within_tolerance_for_hold m t m.takeoff_ned).0) [
        | inl e ↦
            rw e (within-Handled takeoff m.takeoff_ned m t log (hover, _, _) l b refl refl (λ _. e))
        | inr e ↦ rw e (
            within-Handled takeoff m.takeoff_ned m t log (takeoff, _, _) l b refl refl
              (λ k. absurd (k refl)))
      ]
  dispatch-Handled waypoint m t log v l b =
      unfold on_waypoint in
      let (a, found, at, _) = route_at_total waypoint m m.p.waypoint_index v (v.index_ok refl) in
      rw found (elim (Bool-cases (within_tolerance_for_hold m t a.0).0) [
        | inl e ↦ rw e (within-Handled waypoint a.0 m t log (dwell, _, _) l b at refl (λ _. e))
        | inr e ↦ rw e (
            within-Handled waypoint a.0 m t log (waypoint, _, _) l b at refl (λ k. absurd (k refl)))
      ])
  dispatch-Handled rth m t log v l b =
      unfold on_rth in
      elim (Bool-cases (within_tolerance_for_hold m t m.home).0) [
        | inl e ↦ rw e (within-Handled rth m.home m t log (landing, _, _) l b refl refl (λ _. e))
        | inr e ↦
            rw e
              (within-Handled rth m.home m t log (rth, _, _) l b refl refl (λ k. absurd (k refl)))
      ]
  dispatch-Handled idle m t log v l b =
      Ensures-map (SamePace m) (Handled idle m t log) (on_idle m t)
        (λ r _. unclocked idle m t log r refl refl l b) (unfold on_idle in ground arith)
  dispatch-Handled arming m t log v l b =
      Ensures-map (SamePace m) (Handled arming m t log) (on_arming m t)
        (λ r _. unclocked arming m t log r refl refl l b) (unfold on_arming in ground arith)
  dispatch-Handled hover m t log v l b =
      Ensures-map (SamePace m) (Handled hover m t log) (on_hover m t)
        (λ r _. unclocked hover m t log r refl refl l b) (hover-SamePace m t v)
  dispatch-Handled dwell m t log v l b =
      Ensures-map (SamePace m) (Handled dwell m t log) (on_dwell m t)
        (λ r _. unclocked dwell m t log r refl refl l b) (dwell-SamePace m t v)
  dispatch-Handled landing m t log v l b =
      Ensures-map (SamePace m) (Handled landing m t log) (on_landing m t)
        (λ r _. unclocked landing m t log r refl refl l b) (unfold on_landing in ground arith)
  dispatch-Handled abort m t log v l b =
      Ensures-map (SamePace m) (Handled abort m t log) (on_abort m t)
        (λ r _. unclocked abort m t log r refl refl l b) (unfold on_abort in ground arith)
  dispatch-Handled done m t log v l b =
      Ensures-map (SamePace m) (Handled done m t log) (on_done m t)
        (λ r _. unclocked done m t log r refl refl l b) (unfold on_done in ground arith)
