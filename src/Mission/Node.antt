-- ===== src/Mission/Node.antt =====
-- ros2_ws/src/patrol_mission/patrol_mission/node.py: the node around the machine. A callback takes
-- the node and the clock's reading in seconds, and returns the node changed, with what it published.
-- The `timestamp` fields of the messages and the logger's lines are left out.
pub mod Gate
pub mod Contents
pub mod Effects
pub mod Drive
pub mod Arming
pub mod Marks
pub mod Response
use patrol_drone.Prelude.{
  ℕ, ◌+◌, Bool, true, false, not, Option, none, some, List, [], ◌∷◌, ◌++◌, map, Result, ok, err,
  ◌>>=◌, ltb, leb, ◌==◌, ◌||◌, if◌then◌else◌,
}
use patrol_drone.Float.{Float}
use patrol_drone.Mission.Frames.{Point, FrameError, to_ned_from_origin, enu_yaw_to_ned}
use patrol_drone.Mission.Config.{MissionConfig, Waypoint}
use patrol_drone.Mission.States.{
  MissionState, idle, dwell, is_state, Telemetry, Command, local_position_usable, telemetry_fresh,
}
use patrol_drone.Mission.Machine.{Machine, MachineError, tick, reset_timing}
use patrol_drone.Mission.Machine
use patrol_drone.Mission.Commands.{
  Px4CommandKind, do_set_offboard, Px4Command, build_vehicle_commands,
}
use patrol_drone.Mission.Messages.{
  offboard_stream_warmup_ticks, ekf_origin_ned, battery_timeout_s, VehicleStatus, BatteryStatus,
  Message, telemetry_timeout_s, dwell_settle_s, VehicleLocalPosition, vehicle_command,
  trajectory_setpoint, keepalive, dwell_event, arming_state_armed, mission_state, vehicle_cmd_id,
  current_waypoint, navigation_state_offboard,
}

pub data NodeError : Type 0 where
  bad_frame : FrameError → NodeError
  bad_machine : MachineError → NodeError

module _ ⦃fl : Float⦄ where
  open fl use {F, milli, neg, sub, le}

  pub record Node : Type 0 where
    pub sm : Machine
    pub pos : Option VehicleLocalPosition
    pub status : Option VehicleStatus
    pub pos_rx_s : Option F
    pub status_rx_s : Option F
    pub battery_rx_s : Option F
    pub battery_remaining : F
    pub abort_requested : Bool
    pub state : MissionState
    pub warmup : ℕ
    pub dwell_entered_s : Option F
    pub dwell_fired : Bool
    pub offboard_requested : Bool
    pub progression_paused : Bool

  abbrev pub waypoint_yaw_ned : Waypoint → F
  waypoint_yaw_ned wp = elim wp.yaw_enu [ none ↦ milli 0 | some yaw ↦ enu_yaw_to_ned yaw ]

  abbrev pub lift_frame : {A : Type 0} → Result FrameError A → Result NodeError A
  lift_frame (ok a) = ok a
  lift_frame (err e) = err (bad_frame e)

  abbrev pub lift_machine : {A : Type 0} → Result MachineError A → Result NodeError A
  lift_machine (ok a) = ok a
  lift_machine (err e) = err (bad_machine e)

  unfoldable pub waypoints_to_ned : List Waypoint → Result FrameError (List Point)
  waypoints_to_ned [] = ok []
  waypoints_to_ned (w ∷ ws) = do
    p ← to_ned_from_origin w.position w.frame ekf_origin_ned
    ps ← waypoints_to_ned ws
    ok (p ∷ ps)

  abbrev pub new_node : Machine → Node
  new_node sm = record {
    sm = sm;
    pos = none;
    status = none;
    pos_rx_s = none;
    status_rx_s = none;
    battery_rx_s = none;
    battery_remaining = milli 1000;
    abort_requested = false;
    state = idle;
    warmup = 0;
    dwell_entered_s = none;
    dwell_fired = false;
    offboard_requested = false;
    progression_paused = true;
  }

  -- `__init__`, from the loaded configuration on
  unfoldable pub init_node : MissionConfig → Result NodeError Node
  init_node cfg = do
    home_ned ← lift_frame (to_ned_from_origin cfg.home_position cfg.home_frame ekf_origin_ned)
    waypoints_ned ← lift_frame (waypoints_to_ned cfg.waypoints)
    let yaws = map waypoint_yaw_ned cfg.waypoints
    sm ← lift_machine (Machine.init cfg waypoints_ned home_ned (some yaws))
    ok (new_node sm)

  unfoldable pub on_pos : Node → VehicleLocalPosition → F → Node
  on_pos n msg now_s = record n { pos = some msg; pos_rx_s = some now_s }

  unfoldable pub on_status : Node → VehicleStatus → F → Node
  on_status n msg now_s = record n { status = some msg; status_rx_s = some now_s }

  unfoldable pub on_battery : Node → BatteryStatus → F → Node
  on_battery n msg now_s = record n {
    battery_remaining = if msg.connected then msg.remaining else neg (milli 1000);
    battery_rx_s = some now_s;
  }

  unfoldable pub on_abort : Node → Bool → Node
  on_abort n requested = record n { abort_requested = requested }

  -- one turn of the loop of `_telemetry_stale`
  abbrev pub is_stale : Option F → F → Bool
  is_stale none now_s = true
  is_stale (some rx_s) now_s = not (telemetry_fresh (sub now_s rx_s) telemetry_timeout_s)

  unfoldable pub telemetry_stale : Node → F → Bool
  telemetry_stale n now_s = is_stale n.pos_rx_s now_s || is_stale n.status_rx_s now_s

  unfoldable pub fresh_battery : Node → F → F
  fresh_battery n now_s = elim n.battery_rx_s [
    | none ↦ n.battery_remaining
    | some rx_s ↦
        if not (telemetry_fresh (sub now_s rx_s) battery_timeout_s)
        then neg (milli 1000)
        else n.battery_remaining
  ]

  unfoldable pub build_telemetry : Node → VehicleLocalPosition → VehicleStatus → F → Telemetry
  build_telemetry n pos status now_s = record {
    now_s = now_s;
    position_ned = (pos.x, pos.y, pos.z);
    armed = status.arming_state == arming_state_armed;
    offboard_active = status.nav_state == navigation_state_offboard;
    battery_remaining = fresh_battery n now_s;
    abort_requested = n.abort_requested;
    manual_takeover = false;
    timed_out = false;
  }

  abbrev pub setpoint_messages : Option Point → F → List Message
  setpoint_messages none yaw = []
  setpoint_messages (some p) yaw = trajectory_setpoint p yaw ∷ []

  abbrev pub send_command : Px4Command → Message
  send_command pc = vehicle_command (vehicle_cmd_id pc.kind) pc.param1 pc.param2

  abbrev pub is_set_offboard : Px4CommandKind → Bool
  is_set_offboard do_set_offboard = true
  is_set_offboard _ = false

  abbrev pub any_set_offboard : List Px4Command → Bool
  any_set_offboard [] = false
  any_set_offboard (pc ∷ pcs) = is_set_offboard pc.kind || any_set_offboard pcs

  unfoldable pub issue : Node → Command → Node × List Message
  issue n cmd =
      let warmup_elapsed = leb offboard_stream_warmup_ticks n.warmup in
      let px4_cmds = build_vehicle_commands cmd warmup_elapsed n.offboard_requested in
      (
        record n { offboard_requested = n.offboard_requested || any_set_offboard px4_cmds },
        setpoint_messages cmd.setpoint_ned cmd.yaw ++ map send_command px4_cmds,
      )

  unfoldable pub publish_patrol : Node → Command → List Message
  publish_patrol n cmd = mission_state n.state ∷ current_waypoint cmd.current_waypoint ∷ []

  unfoldable pub dwell_settle_elapsed : Node → F → Bool
  dwell_settle_elapsed n now_s = if n.dwell_fired then false else elim n.dwell_entered_s [
    | none ↦ false
    | some entered ↦ le dwell_settle_s (sub now_s entered)
  ]

  -- the last step of `_publish_dwell_event`
  abbrev pub fire_dwell : Node → Command → F → Node × List Message
  fire_dwell n cmd now_s =
      if dwell_settle_elapsed n now_s
      then (record n { dwell_fired = true }, dwell_event cmd.current_waypoint ∷ [])
      else (n, [])

  unfoldable pub publish_dwell_event : Node → MissionState → Command → F → Node × List Message
  publish_dwell_event n prev_state cmd now_s =
      if not (is_state n.state dwell)
      then (record n { dwell_entered_s = none; dwell_fired = false }, [])
      else if not (is_state prev_state dwell)
      then fire_dwell (record n { dwell_entered_s = some now_s }) cmd now_s
      else fire_dwell n cmd now_s

  abbrev pub resumed : Node → Node
  resumed n =
      if n.progression_paused
      then record n { sm = reset_timing n.sm; progression_paused = false }
      else n

  abbrev pub warmed : Node → Node
  warmed n =
      if ltb n.warmup offboard_stream_warmup_ticks then record n { warmup = n.warmup + 1 } else n

  -- `_on_tick` from the return of `tick` on
  unfoldable pub after_tick : Node → F → MissionState × Command × Machine → Node × List Message
  after_tick n now_s (state, cmd, sm) =
      let (n', issued) = issue (record n { state = state; sm = sm }) cmd in
      let (n'', fired) = publish_dwell_event n' n.state cmd now_s in
      (warmed n'', issued ++ (publish_patrol n' cmd ++ fired))

  -- `_on_tick` behind its gates, without the heartbeat
  unfoldable pub progress :
      Node → VehicleLocalPosition → VehicleStatus → F → Result MachineError (Node × List Message)
  progress n pos status now_s = do
    r ← tick n.sm n.state (build_telemetry n pos status now_s)
    ok (after_tick n now_s r)

  abbrev pub paused : Node → Node
  paused n = record n { progression_paused = true }

  -- `_on_tick` behind the heartbeat, on the position and the status that it finds
  unfoldable pub gated :
      Node
      → Option VehicleLocalPosition
      → Option VehicleStatus
      → F
      → Result MachineError (Node × List Message)
  gated n none _ now_s = ok (paused n, [])
  gated n (some pos) none now_s = ok (paused n, [])
  gated n (some pos) (some status) now_s =
      if not (local_position_usable pos.xy_valid pos.z_valid)
      then ok (paused n, [])
      else if telemetry_stale n now_s
      then ok (paused n, [])
      else progress (resumed n) pos status now_s

  unfoldable pub on_tick : Node → F → Result MachineError (Node × List Message)
  on_tick n now_s = do
    (n', published) ← gated n n.pos n.status now_s
    ok (n', keepalive ∷ published)

  pub data Event : Type 0 where
    position_arrives : VehicleLocalPosition → Event
    status_arrives : VehicleStatus → Event
    battery_arrives : BatteryStatus → Event
    abort_arrives : Bool → Event
    timer : Event

  -- One callback of the executor, at a reading of the clock.
  unfoldable pub handle : Node → F → Event → Result MachineError (Node × List Message)
  handle n now_s (position_arrives msg) = ok (on_pos n msg now_s, [])
  handle n now_s (status_arrives msg) = ok (on_status n msg now_s, [])
  handle n now_s (battery_arrives msg) = ok (on_battery n msg now_s, [])
  handle n now_s (abort_arrives requested) = ok (on_abort n requested, [])
  handle n now_s timer = on_tick n now_s
