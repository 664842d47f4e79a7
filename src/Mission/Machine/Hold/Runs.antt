-- ===== src/Mission/Machine/Hold/Runs.antt =====
-- state_machine.py: the hold clocks of a whole run.
use patrol_drone.Mission.States.{MissionState, Telemetry, is_last, abort, AbortReason}
use patrol_drone.Mission.Machine.{
  enter_if_new, Machine, Step, dispatch, tick, tick_cases, init, with_reason, reset_timing,
  abort_reason,
}
use patrol_drone.Float.{Float}
use patrol_drone.Mission.Frames.{Point}
use patrol_drone.Prelude.{
  Option, ◌≡◌, List, arith, none, ◌∷◌, [], Bool-cases, refl, inl, inr, ◌∙◌, ◌≢◌, Ensures,
  Ensures-map, subst, sym, Ensures-and, ok, Ensures-eq,
}
use patrol_drone.Mission.Machine.Flight.{Entry, entry, Input, run, parked, run-keeps}
use patrol_drone.Mission.Config.{MissionConfig}
use patrol_drone.Mission.Machine.Range.{InRange, enter_if_new-InRange, init-InRange}
use patrol_drone.Mission.Machine.Kept.{Outcome, dispatch-Outcome, SameMission}
use patrol_drone.Mission.Machine.Hold.{
  hold_target, Clocked, enter_if_new-Backed, Completed, is_last-eq, BackedIn, Backed,
}
use patrol_drone.Mission.Machine.Hold.Handlers.{
  Handled, cfg-enter, no_clock, hold_target-enter, dispatch-Handled,
}

module _ ⦃fl : Float⦄ where
  open fl use {F, le, sub, dist}

  abbrev pub Evidence : MissionState → Machine → Telemetry → List Entry → Step → Type 0
  Evidence s m t log r =
      r.0 ≢ s
      → r.0 ≢ abort
      → hold_target s m ≢ none
      → Completed s (hold_target s m) m.cfg t.now_s (entry s t r ∷ log)

  -- Latching an abort leaves no running hold clock.
  latched-Clocked :
      (m : Machine) (r : AbortReason) (t : Telemetry) (log log' : List Entry)
      → Clocked m log
      → Clocked (enter_if_new abort (with_reason m r) t) log'
  unfolding enter_if_new
  latched-Clocked m r t log log' b = elim (Bool-cases (is_last abort m.p.last_state)) [
    | inl e ↦
        let l = is_last-eq abort m.p.last_state e in
        rw e (λ s' e'.
          let same : abort ≡ s' = cc (l, e') in
          subst (λ x. BackedIn x (with_reason m r) log') same
            (no_clock abort m.p.inside_since_s m.cfg.completion.tolerance_m log log' (b abort l)))
    | inr e ↦ rw e (λ s' e'. tt)
  ]

  Handled-Clocked :
      (s : MissionState) (m m' : Machine) (t : Telemetry) (log : List Entry) (r : Step)
      → m'.cfg ≡ m.cfg
      → hold_target s m' ≡ hold_target s m
      → SameMission m' r.2
      → Handled s m' t log r
      → Clocked r.2 (entry s t r ∷ log) × Evidence s m t log r
  Handled-Clocked s m m' t log r c h same (l, kept, b, held) =
      let log' = entry s t r ∷ log in
      (
        λ s' e'.
            let eq : s ≡ s' = cc (l, e') in
            subst (λ x. BackedIn x r.2 log') eq
              (subst (λ T. Backed s r.2.p.inside_since_s T r.2.cfg.completion.tolerance_m log')
                (sym kept)
                (subst
                  (λ k.
                    Backed s r.2.p.inside_since_s (hold_target s m') k.completion.tolerance_m log')
                  (sym same.cfg) b)),
        λ ne _ some_target.
            subst (λ T. Completed s T m.cfg t.now_s log') h
              (subst (λ k. Completed s (hold_target s m') k t.now_s log') c
                (held ne (λ n. some_target (sym h ∙ n)))),
      )

  -- A tick in range keeps every running hold clock backed by the log; and if it ends a state that
  -- waits for a tolerance hold (not by an abort), the log shows the evidence.
  tick-Clocked :
      (s : MissionState) (m : Machine) (t : Telemetry) (log : List Entry)
      → InRange s m
      → Clocked m log
      → Ensures (λ r. Clocked r.2 (entry s t r ∷ log) × Evidence s m t log r) (tick m s t)
  tick-Clocked s m t log v b =
      tick_cases (Ensures (λ r. Clocked r.2 (entry s t r ∷ log) × Evidence s m t log r)) m s t
        (λ _. (latched-Clocked m (abort_reason m t) t log _ b, λ _ k. absurd (k refl)))
        (λ _.
          let m' = enter_if_new s m t in
          let (b', l) = enter_if_new-Backed s m t log b in
          let w = enter_if_new-InRange s m t v in
          Ensures-and (Outcome s m') (Handled s m' t log) (dispatch s m' t)
            (λ r o. Handled-Clocked s m m' t log r (cfg-enter s m t) (hold_target-enter s m t) o.0)
            (dispatch-Outcome s m' t w) (dispatch-Handled s m' t log w l b'))

  init-last :
      (c : MissionConfig) (wps : List Point) (home : Point) (yaws : Option (List F)) (m : Machine)
      → init c wps home yaws ≡ ok m
      → m.p.last_state ≡ none
  unfolding init
  init-last c wps home yaws m e = ground arith

  parked-Clocked :
      (c : MissionConfig) (wps : List Point) (home : Point) (yaws : Option (List F)) (m : Machine)
      → init c wps home yaws ≡ ok m
      → Clocked m []
  parked-Clocked c wps home yaws m e = λ s l. cc (init-last c wps home yaws m e)

  -- After any run of a machine built from a configuration, if the next tick leaves TAKEOFF, WAYPOINT
  -- or RTH other than by an abort, then the point of that leg was held: the newest ticks of the log,
  -- back to one at some time `since`, were all made in that state with the drone within the
  -- tolerance of the point, and at least the hold time has passed since then.
  pub run-Completed :
      (c : MissionConfig) (wps : List Point) (home : Point) (yaws : Option (List F)) (m : Machine)
      → (is : List Input) (t : Telemetry) → init c wps home yaws ≡ ok m
      → Ensures
          (λ f. Ensures (Evidence f.state f.machine t f.log) (tick f.machine f.state t))
          (run (parked m) is)
  run-Completed c wps home yaws m is t e =
      Ensures-map (λ f. InRange f.state f.machine × Clocked f.machine f.log) _ (run (parked m) is)
        (λ f _ k.
          Ensures-map
            (λ r. Clocked r.2 (entry f.state t r ∷ f.log) × Evidence f.state f.machine t f.log r)
            (Evidence f.state f.machine t f.log) (tick f.machine f.state t) (λ r _ x. x.1)
            (tick-Clocked f.state f.machine t f.log k.0 k.1))
        (run-keeps (λ f. Clocked f.machine f.log)
          (λ f t' r v eq b.
            (Ensures-eq
              (λ x.
                Clocked x.2 (entry f.state t' x ∷ f.log) × Evidence f.state f.machine t' f.log x)
              (tick f.machine f.state t') eq (tick-Clocked f.state f.machine t' f.log v b)).0)
          (λ f b. unfold reset_timing in λ s l. cc) (parked m) is (init-InRange c wps home yaws m e)
          (parked-Clocked c wps home yaws m e))
