-- ===== src/Mission/Machine.antt =====
-- ros2_ws/src/patrol_mission/patrol_mission/state_machine.py: the mission state machine. A method
-- takes the object and returns it changed; a `tick` that raises ends the process, so the object it
-- leaves behind is not modelled.
pub mod Range
pub mod Flight
pub mod Route
pub mod Kept
pub mod Graph
pub mod Abort
pub mod Hold
pub mod Resume
use patrol_drone.Prelude.{
  ℕ, ◌+◌, ◌≡◌, inl, inr, Bool-cases, Bool, true, false, ◌&&◌, ◌||◌, not, Option, none, some, List,
  ℤ, pos, negsuc, Result, ok, err, ◌>>=◌, ◌>>◌, raise_if, or_raise, ltb, ◌==◌, if◌then◌else◌,
  length, get_elem?, replicate,
}
use patrol_drone.Float.{Float}
use patrol_drone.Mission.Frames.{Point, takeoff_target_ned}
use patrol_drone.Mission.Config.{MissionConfig}
use patrol_drone.Mission.States.{
  AbortReason, dwell, no_reason, Command, rth, MissionState, Progress, Telemetry, waypoint, idle,
  is_raised, external_signal, hover, abort, fly_to, done, takeoff, is_last, arming, landing,
  no_command, battery_low, non_abortable, low_battery, manual_takeover, timeout,
}

pub data MachineError : Type 0 where
  -- the two ValueErrors of `__init__`
  misaligned_waypoints misaligned_yaws : MachineError
  -- IndexError from a list subscript
  index_error : MachineError

module _ ⦃fl : Float⦄ where
  open fl use {F, milli, sub, le, dist}

  pub record Machine : Type 0 where
    pub cfg : MissionConfig
    pub wps : List Point
    pub yaws : List F
    pub home : Point
    pub takeoff_ned : Point
    pub p : Progress

  abbrev yaws_or_north : Option (List F) → ℕ → List F
  yaws_or_north none n = replicate n (milli 0)
  yaws_or_north (some yaws) n = yaws

  -- `MissionStateMachine(config, waypoints_ned, home_ned, waypoint_yaws_ned)`
  unfoldable pub init :
      MissionConfig → List Point → Point → Option (List F) → Result MachineError Machine
  init config waypoints_ned home_ned waypoint_yaws_ned = do
    raise_if (not (length waypoints_ned == length config.waypoints)) misaligned_waypoints
    let yaws = yaws_or_north waypoint_yaws_ned (length waypoints_ned)
    raise_if (not (length yaws == length waypoints_ned)) misaligned_yaws
    ok (record {
      cfg = config;
      wps = waypoints_ned;
      yaws = yaws;
      home = home_ned;
      takeoff_ned = takeoff_target_ned home_ned config.takeoff_alt_m;
      p = record {
        last_state = none;
        state_entered_s = milli 0;
        inside_since_s = none;
        waypoint_index = 0;
        abort_reason = no_reason;
      };
    })

  abbrev pub Step : Type 0
  Step = MissionState × Command × Machine

  abbrev pub with_index : Machine → ℕ → Machine
  with_index m i = record m { p = record m.p { waypoint_index = i } }

  unfoldable pub reset_timing : Machine → Machine
  reset_timing m = record m { p = record m.p { last_state = none } }

  unfoldable pub abort_reason : Machine → Telemetry → AbortReason
  abort_reason m telem =
      if telem.abort_requested
      then external_signal
      else if battery_low telem.battery_remaining m.cfg.abort.low_battery_threshold
      then low_battery
      else if telem.manual_takeover
      then manual_takeover
      else if telem.timed_out
      then timeout
      else no_reason

  unfoldable pub enter_if_new : MissionState → Machine → Telemetry → Machine
  enter_if_new state m telem = if is_last state m.p.last_state then m else record m {
    p = record m.p {
      last_state = some state;
      state_entered_s = telem.now_s;
      inside_since_s = none;
    };
  }

  -- `self._p.inside_since_s`, set to now where it was None
  abbrev pub since_or : Option F → F → F
  since_or none now = now
  since_or (some t) now = t

  abbrev pub with_inside : Machine → Option F → Machine
  with_inside m since = record m { p = record m.p { inside_since_s = since } }

  unfoldable pub within_tolerance_for_hold : Machine → Telemetry → Point → Bool × Machine
  within_tolerance_for_hold m telem target =
      let since = since_or m.p.inside_since_s telem.now_s in
      if le (dist telem.position_ned target) m.cfg.completion.tolerance_m
      then (le m.cfg.completion.hold_time_s (sub telem.now_s since), with_inside m (some since))
      else (false, with_inside m none)

  unfoldable pub elapsed_since_entry : Machine → Telemetry → F → Bool
  elapsed_since_entry m telem duration_s = le duration_s (sub telem.now_s m.p.state_entered_s)

  -- the command that flies to, or holds, waypoint `i`
  abbrev pub route_command : Point → F → ℕ → Command
  route_command p yaw i = record no_command {
    setpoint_ned = some p;
    yaw = yaw;
    current_waypoint = pos i;
  }

  unfoldable pub on_idle : Machine → Telemetry → Result MachineError Step
  on_idle m telem = ok (arming, record (fly_to m.takeoff_ned) { arm = true }, m)

  unfoldable pub on_arming : Machine → Telemetry → Result MachineError Step
  on_arming m telem =
      if telem.armed && telem.offboard_active
      then ok (takeoff, fly_to m.takeoff_ned, m)
      else ok (arming, record (fly_to m.takeoff_ned) { arm = true; set_offboard = true }, m)

  unfoldable pub on_takeoff : Machine → Telemetry → Result MachineError Step
  on_takeoff m telem =
      let (held, m') = within_tolerance_for_hold m telem m.takeoff_ned in
      if held
      then ok (hover, fly_to m'.takeoff_ned, m')
      else ok (takeoff, fly_to m'.takeoff_ned, m')

  -- a subscript of `_wps` and `_yaws`
  unfoldable pub route_at : Machine → ℕ → Result MachineError (Point × F)
  route_at m i = do
    target ← or_raise (get_elem? m.wps i) index_error
    yaw ← or_raise (get_elem? m.yaws i) index_error
    ok (target, yaw)

  -- fly waypoint `i`, with the index stored
  unfoldable pub fly_waypoint : Machine → ℕ → Result MachineError Step
  fly_waypoint m i = do
    (target, yaw) ← route_at m i
    ok (waypoint, route_command target yaw i, with_index m i)

  unfoldable pub begin_route : Machine → Result MachineError Step
  begin_route m = if ltb 0 (length m.wps) then fly_waypoint m 0 else ok (rth, fly_to m.home, m)

  unfoldable pub on_hover : Machine → Telemetry → Result MachineError Step
  on_hover m telem =
      if elapsed_since_entry m telem m.cfg.hover_time_s
      then begin_route m
      else ok (hover, fly_to m.takeoff_ned, m)

  unfoldable pub on_waypoint : Machine → Telemetry → Result MachineError Step
  on_waypoint m telem = do
    (target, yaw) ← route_at m m.p.waypoint_index
    let held = within_tolerance_for_hold m telem target
    ok (if held.0 then dwell else waypoint, route_command target yaw m.p.waypoint_index, held.1)

  unfoldable pub advance_from_dwell : Machine → ℕ → Result MachineError Step
  advance_from_dwell m i =
      if ltb (i + 1) (length m.wps) then fly_waypoint m (i + 1) else ok (rth, fly_to m.home, m)

  unfoldable pub hold_dwell : Machine → ℕ → Result MachineError Step
  hold_dwell m i = do (target, yaw) ← route_at m i; ok (dwell, route_command target yaw i, m)

  unfoldable pub on_dwell : Machine → Telemetry → Result MachineError Step
  on_dwell m telem = do
    wp ← or_raise (get_elem? m.cfg.waypoints m.p.waypoint_index) index_error
    if elapsed_since_entry m telem wp.dwell_s
        then advance_from_dwell m m.p.waypoint_index
        else hold_dwell m m.p.waypoint_index

  unfoldable pub on_rth : Machine → Telemetry → Result MachineError Step
  on_rth m telem =
      let (held, m') = within_tolerance_for_hold m telem m.home in
      if held
      then ok (landing, record no_command { land = true }, m')
      else ok (rth, fly_to m'.home, m')

  unfoldable pub on_abort : Machine → Telemetry → Result MachineError Step
  on_abort m telem = ok (rth, fly_to m.home, m)

  unfoldable pub on_landing : Machine → Telemetry → Result MachineError Step
  on_landing m telem =
      if not telem.armed
      then ok (done, no_command, m)
      else ok (landing, record no_command { land = true }, m)

  unfoldable pub on_done : Machine → Telemetry → Result MachineError Step
  on_done m telem = ok (done, no_command, m)

  -- the table `_dispatch`
  unfoldable pub dispatch : MissionState → Machine → Telemetry → Result MachineError Step
  dispatch idle = on_idle
  dispatch arming = on_arming
  dispatch takeoff = on_takeoff
  dispatch hover = on_hover
  dispatch waypoint = on_waypoint
  dispatch dwell = on_dwell
  dispatch rth = on_rth
  dispatch landing = on_landing
  dispatch abort = on_abort
  dispatch done = on_done

  abbrev pub with_reason : Machine → AbortReason → Machine
  with_reason m r = record m { p = record m.p { abort_reason = r } }

  -- The branch of `tick` that latches an abort.
  abbrev pub aborted : Machine → Telemetry → AbortReason → Step
  aborted m telem r = (abort, fly_to m.home, enter_if_new abort (with_reason m r) telem)

  unfoldable pub tick : Machine → MissionState → Telemetry → Result MachineError Step
  tick m state telem =
      let reason = abort_reason m telem in
      if is_raised reason && not (non_abortable state)
      then ok (aborted m telem reason)
      else dispatch state (enter_if_new state m telem) telem

  -- whether `tick` latches an abort
  abbrev pub aborts : Machine → MissionState → Telemetry → Bool
  aborts m state telem = is_raised (abort_reason m telem) && not (non_abortable state)

  -- `tick` either latches an abort or runs the state's handler.
  pub tick_cases {ℓ} :
      (P : Result MachineError Step → Type ℓ) (m : Machine) (s : MissionState) (t : Telemetry)
      → (aborts m s t ≡ true → P (ok (aborted m t (abort_reason m t))))
      → (aborts m s t ≡ false → P (dispatch s (enter_if_new s m t) t))
      → P (tick m s t)
  unfolding tick
  tick_cases P m s t latched normal = elim (Bool-cases (aborts m s t)) [
    | inl e ↦ rw e (latched e)
    | inr e ↦ rw e (normal e)
  ]

  pub tick_latched :
      (m : Machine) (s : MissionState) (t : Telemetry)
      → aborts m s t ≡ true
      → tick m s t ≡ ok (aborted m t (abort_reason m t))
  unfolding tick
  tick_latched m s t e = rw e

  pub tick_normal :
      (m : Machine) (s : MissionState) (t : Telemetry)
      → aborts m s t ≡ false
      → tick m s t ≡ dispatch s (enter_if_new s m t) t
  unfolding tick
  tick_normal m s t e = rw e
