-- ===== src/Mission/Machine/Route.antt =====
-- state_machine.py, `_begin_route` and `_advance_from_dwell`: the waypoints are dwelled at in order.
use patrol_drone.Prelude.{
  ℕ, zero, suc, ◌+◌, ◌≤◌, ◌≡◌, List, [], ◌∷◌, Bool, true, ◌&&◌, not, ok, Ensures, Ensures-eq,
  Bool-cases, inl, inr, get_elem?-some, arith, if◌then◌else◌, length, Option, ◌∙◌, refl,
  Ensures-and,
}
use patrol_drone.Float.{Float}
use patrol_drone.Mission.States.{
  MissionState, idle, arming, takeoff, hover, waypoint, dwell, rth, landing, abort, done, no_reason,
  is_state, Telemetry, non_abortable,
}
use patrol_drone.Mission.Machine.{
  Machine, Step, tick, dispatch, enter_if_new, fly_waypoint, begin_route, hold_dwell,
  advance_from_dwell, within_tolerance_for_hold, on_idle, on_arming, on_takeoff, on_hover,
  on_waypoint, on_dwell, on_rth, on_landing, on_abort, on_done, tick_cases, reset_timing, init,
}
use patrol_drone.Mission.Machine.Range.{InRange, route_at_total, enter_if_new-InRange, init-InRange}
use patrol_drone.Mission.Machine.Flight.{Entry, Flight, Input, run, logged, parked, run-keeps}
use patrol_drone.Mission.Frames.{Point}
use patrol_drone.Mission.Config.{MissionConfig}
use patrol_drone.Mission.Machine.Kept.{SameMission, run-SameMission}

-- k - 1, …, 0
abbrev pub count_down : ℕ → List ℕ
count_down zero = []
count_down (suc k) = k ∷ count_down k

module _ ⦃fl : Float⦄ where
  open fl use {F}

  -- The indices of the waypoints at which a dwell was begun, newest first.
  unfoldable pub dwells : List Entry → List ℕ
  dwells [] = []
  dwells (e ∷ log) =
      let rest = dwells log in
      if is_state e.after dwell && not (is_state e.before dwell)
      then e.machine.p.waypoint_index ∷ rest
      else rest

  -- `k` dwells have been begun by a machine in this state.
  abbrev pub Begun : ℕ → MissionState → Machine → Type 0
  Begun k idle m = k ≡ 0
  Begun k arming m = k ≡ 0
  Begun k takeoff m = k ≡ 0
  Begun k hover m = k ≡ 0
  Begun k waypoint m = k ≡ m.p.waypoint_index
  Begun k dwell m = k ≡ m.p.waypoint_index + 1
  Begun k _ m = (k ≤ length m.wps) × (m.p.abort_reason ≡ no_reason → k ≡ length m.wps)

  abbrev pub begins : MissionState → MissionState → Bool
  begins s s' = is_state s' dwell && not (is_state s dwell)

  -- One step on: `k` dwells before, and one more, the one at the index, where one begins.
  abbrev pub Counts : ℕ → MissionState → Machine → Step → Type 0
  Counts k s m (s', c, m') =
      if begins s s' then Begun (suc k) s' m' × (m'.p.waypoint_index ≡ k) else Begun k s' m'

  dispatch-Counts :
      (k : ℕ) (s : MissionState) (m : Machine) (t : Telemetry)
      → InRange s m
      → Begun k s m
      → Ensures (Counts k s m) (dispatch s m t)
  unfolding dispatch
  dispatch-Counts k idle m t v b = unfold on_idle in ground arith
  dispatch-Counts k arming m t v b = unfold on_arming in ground arith
  dispatch-Counts k takeoff m t v b = unfold on_takeoff within_tolerance_for_hold in ground arith
  dispatch-Counts k hover m t v b =
      unfold on_hover begin_route fly_waypoint in ground (arith, route_at_total hover m 0 v)
  dispatch-Counts k waypoint m t v b =
      unfold on_waypoint within_tolerance_for_hold in
      ground (arith, route_at_total waypoint m m.p.waypoint_index v)
  dispatch-Counts k dwell m t v b =
      unfold on_dwell advance_from_dwell hold_dwell fly_waypoint in
      ground (
        arith,
        get_elem?-some m.cfg.waypoints m.p.waypoint_index,
        route_at_total dwell m m.p.waypoint_index v,
        route_at_total dwell m (m.p.waypoint_index + 1) v,
      )
  dispatch-Counts k rth m t v b = unfold on_rth within_tolerance_for_hold in ground arith
  dispatch-Counts k landing m t v b = unfold on_landing in ground arith
  dispatch-Counts k abort m t v b = unfold on_abort in ground arith
  dispatch-Counts k done m t v b = unfold on_done in ground arith

  enter_if_new-Begun :
      (k : ℕ) (s : MissionState) (m : Machine) (t : Telemetry)
      → Begun k s m
      → Begun k s (enter_if_new s m t)
  unfolding enter_if_new
  enter_if_new-Begun k idle m t b = ground arith
  enter_if_new-Begun k _ m t b = ground arith

  Begun-le : (k : ℕ) (s : MissionState) (m : Machine) → InRange s m → Begun k s m → k ≤ length m.wps
  Begun-le k idle m v b = omega arith
  Begun-le k waypoint m v b = ground arith
  Begun-le k dwell m v b = ground arith
  Begun-le k _ m v b = omega arith

  pub tick-Counts :
      (k : ℕ) (s : MissionState) (m : Machine) (t : Telemetry)
      → InRange s m
      → Begun k s m
      → Ensures (Counts k s m) (tick m s t)
  tick-Counts k s m t v b =
      tick_cases (Ensures (Counts k s m)) m s t
        (λ e. unfold enter_if_new in ground (arith, Begun-le k s m v b))
        (λ _.
          dispatch-Counts k s (enter_if_new s m t) t (enter_if_new-InRange s m t v)
            (enter_if_new-Begun k s m t b))

  -- what the log and the machine agree on
  pub record Accounted (f : Flight) : Type 0 where
    pub count : ℕ
    pub begun : Begun count f.state f.machine
    pub visited : dwells f.log ≡ count_down count

  logged-Accounted :
      (f : Flight) (t : Telemetry) (r : Step)
      → InRange f.state f.machine
      → tick f.machine f.state t ≡ ok r
      → Accounted f
      → Accounted (logged f t r)
  unfolding dwells
  logged-Accounted f t r v e a =
      let next : Counts a.count f.state f.machine r =
        Ensures-eq (Counts a.count f.state f.machine) (tick f.machine f.state t) e
          (tick-Counts a.count f.state f.machine t v a.begun) in
      elim (Bool-cases (begins f.state r.0)) [
        | inl new ↦ record {
          count = suc a.count;
          begun = ground arith;
          visited = ground (arith, a.visited);
        }
        | inr old ↦ record {
          count = a.count;
          begun = ground arith;
          visited = ground (arith, a.visited);
        }
      ]

  pub reset-Begun :
      (k : ℕ) (s : MissionState) (m : Machine) → Begun k s m → Begun k s (reset_timing m)
  unfolding reset_timing
  reset-Begun k idle m b = b
  reset-Begun k _ m b = b

  reset-Accounted :
      (f : Flight) → Accounted f → Accounted (record f { machine = reset_timing f.machine })
  reset-Accounted f a = record {
    count = a.count;
    begun = reset-Begun a.count f.state f.machine a.begun;
    visited = a.visited;
  }

  init-wps :
      (c : MissionConfig) (wps : List Point) (home : Point) (yaws : Option (List F)) (m : Machine)
      → init c wps home yaws ≡ ok m
      → m.wps ≡ wps
  unfolding init
  init-wps c wps home yaws m e = ground arith

  parked-Accounted :
      (c : MissionConfig) (wps : List Point) (home : Point) (yaws : Option (List F)) (m : Machine)
      → init c wps home yaws ≡ ok m
      → Accounted (parked m)
  unfolding dwells
  parked-Accounted c wps home yaws m e = record { count = 0; begun = refl; visited = refl }

  Begun-home :
      (k : ℕ) (s : MissionState) (m : Machine)
      → Begun k s m
      → non_abortable s ≡ true
      → m.p.abort_reason ≡ no_reason
      → k ≡ length m.wps
  Begun-home k idle m b h n = cc
  Begun-home k arming m b h n = cc
  Begun-home k takeoff m b h n = cc
  Begun-home k hover m b h n = cc
  Begun-home k waypoint m b h n = cc
  Begun-home k dwell m b h n = cc
  Begun-home k _ m b h n = b.1 n

  -- The dwells begun are those of the first `k` waypoints, in order; of all, on the way home without
  -- an abort.
  abbrev pub InOrder : List Point → Flight → Type 0
  InOrder wps g =
      (k : ℕ) × (dwells g.log ≡ count_down k)
      × (k ≤ length wps)
      × (non_abortable g.state ≡ true → g.machine.p.abort_reason ≡ no_reason → k ≡ length wps)

  dwells_of_Accounted :
      (m : Machine) (wps : List Point) (g : Flight)
      → m.wps ≡ wps
      → InRange g.state g.machine
      → Accounted g
      → SameMission m g.machine
      → InOrder wps g
  dwells_of_Accounted m wps g e v a same =
      let n : length g.machine.wps ≡ length wps = cc (e, same.wps) in
      (
        a.count,
        a.visited,
        omega (arith, n, Begun-le a.count g.state g.machine v a.begun),
        λ h r. Begun-home a.count g.state g.machine a.begun h r ∙ n,
      )

  -- In any run of a machine built for `n` waypoints, aborted or not, the waypoints at which a dwell
  -- has been begun are 0, 1, …, k - 1, each once and in this order, for some k ≤ n (the log has them
  -- newest first). If the machine is in RTH, LANDING or DONE and no abort was recorded, k = n: every
  -- waypoint has had its dwell.
  pub run-dwells :
      (c : MissionConfig) (wps : List Point) (home : Point) (yaws : Option (List F)) (m : Machine)
      → (is : List Input) → init c wps home yaws ≡ ok m
      → Ensures (InOrder wps) (run (parked m) is)
  run-dwells c wps home yaws m is e =
      let v = init-InRange c wps home yaws m e in
      Ensures-and (λ g. InRange g.state g.machine × Accounted g)
        (λ g. InRange g.state g.machine × SameMission m g.machine) (run (parked m) is)
        (λ g a b. dwells_of_Accounted m wps g (init-wps c wps home yaws m e) a.0 a.1 b.1)
        (run-keeps Accounted logged-Accounted reset-Accounted (parked m) is v
          (parked-Accounted c wps home yaws m e))
        (run-SameMission m (parked m) is v
          (record { cfg = refl; wps = refl; yaws = refl; home = refl; takeoff_ned = refl }))
