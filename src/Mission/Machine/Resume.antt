-- ===== src/Mission/Machine/Resume.antt =====
-- state_machine.py, `reset_timing`: restarting the clocks can only delay a transition.
use patrol_drone.Float.{Float, FloatLaws}
use patrol_drone.Mission.States.{
  Telemetry, MissionState, idle, arming, takeoff, hover, waypoint, dwell, rth, landing, abort, done,
  is_last, is_raised, non_abortable,
}
use patrol_drone.Mission.Machine.{
  dispatch, Machine, since_or, Step, on_idle, on_arming, on_takeoff, within_tolerance_for_hold,
  on_rth, on_landing, on_abort, on_done, on_dwell, tick, enter_if_new, on_hover, abort_reason,
  reset_timing, elapsed_since_entry, begin_route, advance_from_dwell, aborts, fly_waypoint,
  hold_dwell, route_at, on_waypoint, tick_latched, tick_normal,
}
use patrol_drone.Prelude.{
  not, ◌&&◌, ◌≡◌, some, none, ok, true, ◌⊎◌, arith, Bool-cases, inl, refl, inr, Option-cases,
  get_elem?, ap, ◌∙◌, sym,
}
use patrol_drone.Mission.Machine.Hold.{is_last-eq}

module _ ⦃fl : Float⦄ (laws : FloatLaws) where
  open fl use {F, sub, le, is_finite}
  open laws use {le_trans, sub_mono}

  -- A clock that runs was started at a finite time, not later than the finite time of the tick.
  pub record IsPast (since : F) (t : Telemetry) : Type 0 where
    pub finite_now : is_finite t.now_s ≡ true
    pub finite : is_finite since ≡ true
    pub past : le since t.now_s ≡ true

  longer :
      (t : Telemetry) (since d : F)
      → IsPast since t
      → le d (sub t.now_s t.now_s) ≡ true
      → le d (sub t.now_s since) ≡ true
  longer t since d h e =
      le_trans d (sub t.now_s t.now_s) (sub t.now_s since) e
        (sub_mono t.now_s since t.now_s h.finite_now h.finite h.finite_now h.past)

  -- the clocks of a machine, as `enter_if_new` sets them
  abbrev restarted : MissionState → Machine → Telemetry → Machine
  restarted s m t = record m {
    p = record m.p { last_state = some s; state_entered_s = t.now_s; inside_since_s = none };
  }

  abbrev pub Paced : Machine → Telemetry → Type 0
  Paced m t = IsPast m.p.state_entered_s t × IsPast (since_or m.p.inside_since_s t.now_s) t

  dwell_restarted :
      (m : Machine) (t : Telemetry) {r r' : Step}
      → Paced m t
      → on_dwell m t ≡ ok r
      → on_dwell (restarted dwell m t) t ≡ ok r'
      → (r'.0 ≡ r.0) ⊎ (r'.0 ≡ dwell)
  unfolding on_dwell elapsed_since_entry advance_from_dwell hold_dwell fly_waypoint route_at
  dwell_restarted m t h e e' = elim (Option-cases (get_elem? m.cfg.waypoints m.p.waypoint_index)) [
    | inl n ↦ ground arith
    | inr (w, n) ↦ ground (arith, longer t m.p.state_entered_s w.dwell_s h.0)
  ]

  dispatch-restarted :
      (s : MissionState) (m : Machine) (t : Telemetry) {r r' : Step}
      → Paced m t
      → dispatch s m t ≡ ok r
      → dispatch s (restarted s m t) t ≡ ok r'
      → (r'.0 ≡ r.0) ⊎ (r'.0 ≡ s)
  unfolding dispatch
  dispatch-restarted idle m t h e e' = unfold on_idle in ground arith
  dispatch-restarted arming m t h e e' = unfold on_arming in ground arith
  dispatch-restarted takeoff m t h e e' =
      unfold on_takeoff within_tolerance_for_hold in
      ground
        (arith, longer t (since_or m.p.inside_since_s t.now_s) m.cfg.completion.hold_time_s h.1)
  dispatch-restarted hover m t h e e' =
      unfold on_hover elapsed_since_entry begin_route fly_waypoint route_at in
      ground (arith, longer t m.p.state_entered_s m.cfg.hover_time_s h.0)
  dispatch-restarted waypoint m t h e e' =
      unfold on_waypoint within_tolerance_for_hold route_at in
      ground
        (arith, longer t (since_or m.p.inside_since_s t.now_s) m.cfg.completion.hold_time_s h.1)
  dispatch-restarted dwell m t h e e' = dwell_restarted m t h e e'
  dispatch-restarted rth m t h e e' =
      unfold on_rth within_tolerance_for_hold in
      ground
        (arith, longer t (since_or m.p.inside_since_s t.now_s) m.cfg.completion.hold_time_s h.1)
  dispatch-restarted landing m t h e e' = unfold on_landing in ground arith
  dispatch-restarted abort m t h e e' = unfold on_abort in ground arith
  dispatch-restarted done m t h e e' = unfold on_done in ground arith

  enter_restarted :
      (s : MissionState) (m : Machine) (t : Telemetry)
      → enter_if_new s (reset_timing m) t ≡ restarted s m t
  unfolding enter_if_new reset_timing
  enter_restarted s m t = refl

  enter_cases :
      (s : MissionState) (m : Machine) (t : Telemetry)
      → ((m.p.last_state ≡ some s) × (enter_if_new s m t ≡ m))
        ⊎ (enter_if_new s m t ≡ restarted s m t)
  unfolding enter_if_new
  enter_cases s m t = elim (Bool-cases (is_last s m.p.last_state)) [
    | inl e ↦ inl (is_last-eq s m.p.last_state e, rw e)
    | inr e ↦ inr (rw e)
  ]

  abort_reason-reset :
      (m : Machine) (t : Telemetry) → abort_reason (reset_timing m) t ≡ abort_reason m t
  unfolding abort_reason reset_timing
  abort_reason-reset m t = refl

  normal_restarted :
      (s : MissionState) (m : Machine) (t : Telemetry) {r r' : Step}
      → (m.p.last_state ≡ some s → Paced m t)
      → dispatch s (enter_if_new s m t) t ≡ ok r
      → dispatch s (restarted s m t) t ≡ ok r'
      → (r'.0 ≡ r.0) ⊎ (r'.0 ≡ s)
  normal_restarted s m t h e e' = elim (enter_cases s m t) [
    | inl (l, same) ↦ dispatch-restarted s m t (h l) (rw same at e) e'
    | inr new ↦ inl (cc (rw new at e))
  ]

  -- `reset_timing` can only delay a transition. Where the clocks that the state uses were started at
  -- finite times up to now, a tick after `reset_timing` goes to the state that the tick without it
  -- goes to, or stays in the present state; it never goes elsewhere, and never leaves a state that
  -- the tick without it would not leave.
  pub reset_timing-delays :
      (s : MissionState) (m : Machine) (t : Telemetry) {r r' : Step}
      → (m.p.last_state ≡ some s → Paced m t)
      → tick m s t ≡ ok r
      → tick (reset_timing m) s t ≡ ok r'
      → (r'.0 ≡ r.0) ⊎ (r'.0 ≡ s)
  reset_timing-delays s m t {r} {r'} h e e' = elim (Bool-cases (aborts m s t)) [
    | inl a ↦ inl (cc (tick_latched m s t a, tick_latched (reset_timing m) s t (same_alarm ∙ a)))
    | inr n ↦ normal_restarted s m t {r = r} {r' = r'} h (sym (tick_normal m s t n) ∙ e) (
        ap (λ x. dispatch s x t) (sym (enter_restarted s m t))
        ∙ sym (tick_normal (reset_timing m) s t (same_alarm ∙ n))
        ∙ e')
  ]
    where
      same_alarm : aborts (reset_timing m) s t ≡ aborts m s t
      same_alarm = ap (λ x. is_raised x && not (non_abortable s)) (abort_reason-reset m t)
