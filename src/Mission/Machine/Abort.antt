-- ===== src/Mission/Machine/Abort.antt =====
-- state_machine.py, `_abort_reason` and the guard of `tick`: when a mission is given up, and that it
-- then goes home for good.
use patrol_drone.Mission.States.{
  battery_low, MissionState, Telemetry, non_abortable, AbortReason, abort, fly_to,
}
use patrol_drone.Mission.Machine.{
  Machine, aborts, tick, tick_cases, reset_timing, dispatch, enter_if_new, Step, abort_reason,
}
use patrol_drone.Float.{Float}
use patrol_drone.Mission.Machine.Route.{dwells}
use patrol_drone.Prelude.{
  ◌≡◌, Ensures, List, true, false, ℕ, ◌⊎◌, arith, ◌↔◌, Ensures-map, refl, Ensures-and, ok,
  Ensures-eq, ◌∙◌,
}
use patrol_drone.Mission.Machine.Flight.{Flight, Input, run, run-keeps, logged}
use patrol_drone.Mission.Machine.Range.{InRange, enter_if_new-InRange}
use patrol_drone.Mission.Machine.Graph.{
  IsHomeward, ◌⟶◌, edge-ne-abort, dispatch-Edge, edge-IsHomeward,
}
use patrol_drone.Mission.Machine.Kept.{Outcome, enter_if_new-Outcome, dispatch-Outcome}

module _ ⦃fl : Float⦄ where
  open fl use {milli, lt, is_finite}

  -- A battery reading that counts, below the threshold.
  abbrev pub IsLow : Machine → Telemetry → Type 0
  IsLow m t =
      (is_finite t.battery_remaining ≡ true)
      × (lt t.battery_remaining (milli 0) ≡ false)
      × (lt t.battery_remaining m.cfg.abort.low_battery_threshold ≡ true)

  abbrev pub Alarm : Machine → Telemetry → Type 0
  Alarm m t =
      (t.abort_requested ≡ true) ⊎ (IsLow m t) ⊎ (t.manual_takeover ≡ true) ⊎ (t.timed_out ≡ true)

  aborts-Alarm :
      (m : Machine) (s : MissionState) (t : Telemetry)
      → aborts m s t ≡ true
      → Alarm m t × (non_abortable s ≡ false)
  unfolding abort_reason battery_low
  aborts-Alarm m s t e = ground arith

  Alarm-aborts :
      (m : Machine) (s : MissionState) (t : Telemetry)
      → Alarm m t
      → non_abortable s ≡ false
      → aborts m s t ≡ true
  unfolding abort_reason battery_low
  Alarm-aborts m s t a n = ground arith

  -- A tick in range goes to ABORT exactly when there is an alarm (an external request, a valid
  -- battery reading below the threshold, a manual takeover or a timeout) and the state is not ABORT,
  -- RTH, LANDING or DONE already; the command is then to fly home and nothing else.
  pub tick-abort_iff :
      (s : MissionState) (m : Machine) (t : Telemetry)
      → InRange s m
      → Ensures
          (λ r.
            ((r.0 ≡ abort) ↔ (Alarm m t × (non_abortable s ≡ false)))
            × (r.0 ≡ abort → r.1 ≡ fly_to m.home))
          (tick m s t)
  tick-abort_iff s m t v =
      tick_cases
        (Ensures (λ r.
          ((r.0 ≡ abort) ↔ (Alarm m t × (non_abortable s ≡ false)))
          × (r.0 ≡ abort → r.1 ≡ fly_to m.home)))
        m s t (λ e. ((λ _. aborts-Alarm m s t e, λ _. refl), λ _. refl))
        (λ e.
          Ensures-map (λ r. s ⟶ r.0)
            (λ r.
              ((r.0 ≡ abort) ↔ (Alarm m t × (non_abortable s ≡ false)))
              × (r.0 ≡ abort → r.1 ≡ fly_to m.home))
            (dispatch s (enter_if_new s m t) t)
            (λ r _ h. (
              (λ a. absurd (edge-ne-abort h a), λ al. cc (e, Alarm-aborts m s t al.0 al.1)),
              λ a. absurd (edge-ne-abort h a),
            ))
            (dispatch-Edge s (enter_if_new s m t) t (enter_if_new-InRange s m t v)))

  -- what a flight that is going home keeps: the way home, the recorded reason, and the dwells begun
  pub record GoesHome (r : AbortReason) (ds : List ℕ) (f : Flight) : Type 0 where
    pub homeward : IsHomeward f.state
    pub reason : f.machine.p.abort_reason ≡ r
    pub dwelled : dwells f.log ≡ ds

  step-IsHomeward :
      (s : MissionState) (m : Machine) (t : Telemetry)
      → InRange s m
      → IsHomeward s
      → Ensures (λ y. IsHomeward y.0 × (y.2.p.abort_reason ≡ m.p.abort_reason)) (tick m s t)
  step-IsHomeward s m t v h =
      tick_cases (Ensures (λ y. IsHomeward y.0 × (y.2.p.abort_reason ≡ m.p.abort_reason))) m s t
        (λ e. absurd (ground (arith, e, h)))
        (λ _.
          let m' = enter_if_new s m t in
          let w = enter_if_new-InRange s m t v in
          Ensures-and (λ r. s ⟶ r.0) (Outcome s m') (dispatch s m' t)
            (λ y edge o. (edge-IsHomeward edge h, (enter_if_new-Outcome s m t y o).2))
            (dispatch-Edge s m' t w) (dispatch-Outcome s m' t w))

  tick-GoesHome :
      (r : AbortReason) (ds : List ℕ) (f : Flight) (t : Telemetry) (x : Step)
      → InRange f.state f.machine
      → tick f.machine f.state t ≡ ok x
      → GoesHome r ds f
      → GoesHome r ds (logged f t x)
  unfolding dwells
  tick-GoesHome r ds f t x v e g =
      let next =
        Ensures-eq (λ y. IsHomeward y.0 × (y.2.p.abort_reason ≡ f.machine.p.abort_reason))
          (tick f.machine f.state t) e (step-IsHomeward f.state f.machine t v g.homeward) in
      record {
        homeward = next.0;
        reason = next.1 ∙ g.reason;
        dwelled = ground (arith, next.0, g.dwelled);
      }

  -- Once the drone is going home (ABORT, RTH, LANDING or DONE), no input brings it back: whatever
  -- follows, every run returns, stays in those states, keeps the recorded abort reason, and begins
  -- no further dwell.
  pub run-GoesHome :
      (f : Flight) (is : List Input)
      → InRange f.state f.machine
      → IsHomeward f.state
      → Ensures (GoesHome f.machine.p.abort_reason (dwells f.log)) (run f is)
  run-GoesHome f is v h =
      Ensures-map _ _ (run f is) (λ g _ k. k.1)
        (run-keeps (GoesHome f.machine.p.abort_reason (dwells f.log))
          (λ g t x. tick-GoesHome f.machine.p.abort_reason (dwells f.log) g t x)
          (λ g k.
            unfold reset_timing in
            record { homeward = k.homeward; reason = k.reason; dwelled = k.dwelled })
          f is v (record { homeward = h; reason = refl; dwelled = refl }))
