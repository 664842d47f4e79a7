-- ===== src/Mission/Examples.antt =====
-- Tests of the mission's definitions, and the theorems at concrete inputs: a mission with two
-- waypoints, on numbers in thousandths.
use patrol_drone.Prelude.{
  pos, pos, Ensures, ℕ, Result, Option, List, ◌≡◌, true, ◌∷◌, negsuc, none, some, false≢true, [],
  false, ok, ◌⊎◌, ◌↔◌, err, refl,
}
use patrol_drone.Mission.Machine
use patrol_drone.Float.Fixed.{Fixed, fixed_float, fixed_laws, fin}
use patrol_drone.Mission.Node.{
  Node, init_node, waypoints_to_ned, Event, new_node, timer, position_arrives, status_arrives,
  abort_arrives,
}
use patrol_drone.Mission.Machine.{
  tick, Step, Machine, MachineError, dispatch, route_command, abort_reason, enter_if_new, on_idle,
  on_hover, on_arming, elapsed_since_entry, on_takeoff, begin_route, within_tolerance_for_hold,
  fly_waypoint, route_at, reset_timing, on_waypoint, on_dwell, advance_from_dwell, hold_dwell,
}
use patrol_drone.Mission.States.{
  Telemetry, waypoint, hover, idle, rth, fly_to, MissionState, abort, no_reason, battery_low,
  non_abortable,
}
use patrol_drone.Mission.Frames.{Point, to_ned_from_origin, takeoff_target_ned, enu_yaw_to_ned}
use patrol_drone.Mission.Machine.Range.{InRange}
use patrol_drone.Mission.Machine.Flight.{run, Flight, Input, fly, ticks, parked, resumes}
use patrol_drone.Mission.Messages.{VehicleLocalPosition, VehicleStatus}
use patrol_drone.Mission.Config.{MissionConfig, Waypoint}
use patrol_drone.Mission.Machine.Kept.{SameMission, Fits, tick-Fits}
use patrol_drone.Mission.Machine.Route.{InOrder, dwells, run-dwells}
use patrol_drone.Mission.Node.Response.{Response}
use patrol_drone.Mission.Node.Marks.{Descends, marked, drive-marks}
use patrol_drone.Mission.Machine.Hold.Runs.{Evidence, run-Completed}
use patrol_drone.Mission.Machine.Abort.{GoesHome, run-GoesHome, Alarm, tick-abort_iff}
use patrol_drone.Mission.Node.Arming.{Ordered, drive-Ordered}
use patrol_drone.Mission.Node.Drive.{drive, fresh}
use patrol_drone.Mission.Machine.Graph.{◌⟶◌, tick-Edge}
use patrol_drone.Mission.Machine.Resume.{reset_timing-delays}

abbrev n : ℕ → Fixed
n k = fin (pos k)

abbrev first : Waypoint
first = record {
  position = (n 1000, n 0, n 2500);
  frame = "enu";
  dwell_s = n 2000;
  checkpoint_id = some "cp_a";
  yaw_enu = some (n 0);
}

abbrev second : Waypoint
second = record {
  position = (n 2000, n 0, n 2500);
  frame = "enu";
  dwell_s = n 2000;
  checkpoint_id = none;
  yaw_enu = none;
}

abbrev mission : MissionConfig
mission = record {
  takeoff_alt_m = n 2500;
  hover_time_s = n 1000;
  completion = record { tolerance_m = n 300; hold_time_s = n 1000 };
  abort = record { low_battery_threshold = n 200 };
  home_position = (n 0, n 0, n 0);
  home_frame = "enu";
  waypoints = first ∷ second ∷ [];
  approach = record { standoff_m = n 3000; camera_pitch_rad = n 500 };
}

abbrev down : Fixed
down = fin (negsuc 2499)

abbrev home : Point
home = (n 0, n 0, n 0)

abbrev point_a : Point
point_a = (n 0, n 1000, down)

abbrev point_b : Point
point_b = (n 0, n 2000, down)

abbrev route : List Point
route = point_a ∷ point_b ∷ []

abbrev headings : Option (List Fixed)
headings = some (n 1571 ∷ n 0 ∷ [])

abbrev machine : Machine
machine = record {
  cfg = mission;
  wps = route;
  yaws = n 1571 ∷ n 0 ∷ [];
  home = home;
  takeoff_ned = (n 0, n 0, down);
  p = record {
    last_state = none;
    state_entered_s = n 0;
    inside_since_s = none;
    waypoint_index = 0;
    abort_reason = no_reason;
  };
}

machine_built : Machine.init mission route home headings ≡ ok machine
unfolding Machine.init takeoff_target_ned
machine_built = refl

machine-InRange : InRange idle machine
machine-InRange = record {
  aligned_wps = refl;
  aligned_yaws = refl;
  index_ok = λ h. absurd (false≢true h);
}

-- a reading of an armed drone under offboard control
abbrev reading : ℕ → Point → Telemetry
reading now p = record {
  now_s = n now;
  position_ned = p;
  armed = true;
  offboard_active = true;
  battery_remaining = n 900;
  abort_requested = false;
  manual_takeover = false;
  timed_out = false;
}

abbrev at_takeoff : Point
at_takeoff = (n 0, n 0, down)

-- both waypoints, and on the way home
abbrev whole_flight : List Input
whole_flight =
    ticks (reading 0 home)
    ∷ ticks (reading 100 home)
    ∷ ticks (reading 200 at_takeoff)
    ∷ ticks (reading 1200 at_takeoff)
    ∷ ticks (reading 1300 at_takeoff)
    ∷ ticks (reading 2300 at_takeoff)
    ∷ ticks (reading 2400 point_a)
    ∷ ticks (reading 3400 point_a)
    ∷ ticks (reading 3500 point_a)
    ∷ ticks (reading 5500 point_a)
    ∷ ticks (reading 5600 point_b)
    ∷ resumes
    ∷ ticks (reading 5700 point_b)
    ∷ ticks (reading 6700 point_b)
    ∷ ticks (reading 6800 point_b)
    ∷ ticks (reading 8800 point_b)
    ∷ []

abbrev state_of : Result MachineError Flight → Option (MissionState × List ℕ)
state_of r = elim r [ ok f ↦ some (f.state, dwells f.log) | err e ↦ none ]

whole_flight_test : state_of (run (parked machine) whole_flight) ≡ some (rth, 1 ∷ 0 ∷ [])
unfolding run fly tick dispatch abort_reason battery_low enter_if_new on_idle on_arming on_takeoff
    within_tolerance_for_hold on_hover elapsed_since_entry begin_route fly_waypoint route_at
    on_waypoint on_dwell advance_from_dwell hold_dwell reset_timing dwells
whole_flight_test = refl

run-dwells_example : Ensures (InOrder route) (run (parked machine) whole_flight)
run-dwells_example = run-dwells mission route home headings machine whole_flight machine_built

run-Completed_example :
    Ensures
      (λ f.
        Ensures
          (Evidence f.state f.machine (reading 8900 point_b) f.log)
          (tick f.machine f.state (reading 8900 point_b)))
      (run (parked machine) whole_flight)
run-Completed_example =
    run-Completed mission route home headings machine whole_flight (reading 8900 point_b)
      machine_built

tick-Edge_example :
    Ensures
      (λ r. (idle ⟶ r.0) ⊎ ((r.0 ≡ abort) × (non_abortable idle ≡ false)))
      (tick machine idle (reading 0 home))
tick-Edge_example = tick-Edge idle machine (reading 0 home) machine-InRange

tick-Fits_example :
    Ensures (λ r. SameMission machine r.2 × Fits idle r) (tick machine idle (reading 0 home))
tick-Fits_example = tick-Fits idle machine (reading 0 home) machine-InRange

abbrev empty_battery : Telemetry
empty_battery = record (reading 0 home) { battery_remaining = n 100 }

tick-abort_iff_example :
    Ensures
      (λ r.
        ((r.0 ≡ abort) ↔ (Alarm machine empty_battery × (non_abortable idle ≡ false)))
        × (r.0 ≡ abort → r.1 ≡ fly_to home))
      (tick machine idle empty_battery)
tick-abort_iff_example = tick-abort_iff idle machine empty_battery machine-InRange

abbrev going_home : Flight
going_home = record { state = rth; machine = machine; log = [] }

run-GoesHome_example : Ensures (GoesHome no_reason (dwells [])) (run going_home whole_flight)
run-GoesHome_example =
    run-GoesHome going_home whole_flight
      (record { aligned_wps = refl; aligned_yaws = refl; index_ok = λ h. absurd (false≢true h) })
      refl

-- a machine that has hovered since the time 1
abbrev hovering : Machine
hovering = record machine {
  p = record machine.p { last_state = some hover; state_entered_s = n 1000 };
}

abbrev leaves : Step
leaves = (waypoint, route_command point_a (n 1571) 0, hovering)

abbrev stays : Step
stays = (
  hover,
  fly_to at_takeoff,
  record machine { p = record machine.p { last_state = some hover; state_entered_s = n 2500 } },
)

reset_timing-delays_example : (hover ≡ waypoint) ⊎ (hover ≡ hover)
unfolding tick dispatch abort_reason battery_low enter_if_new on_hover elapsed_since_entry
    begin_route fly_waypoint route_at reset_timing
reset_timing-delays_example =
    reset_timing-delays fixed_laws hover hovering (reading 2500 at_takeoff) {r = leaves}
      {r' = stays}
      (λ h. (
        record { finite_now = refl; finite = refl; past = refl },
        record { finite_now = refl; finite = refl; past = refl },
      ))
      refl refl

abbrev node : Node
node = new_node machine

node_built : init_node mission ≡ ok node
unfolding init_node waypoints_to_ned to_ned_from_origin Machine.init takeoff_target_ned
    enu_yaw_to_ned
node_built = refl

abbrev here : VehicleLocalPosition
here = record { x = n 0; y = n 0; z = n 0; xy_valid = true; z_valid = true }

abbrev flying : VehicleStatus
flying = record { arming_state = 2; nav_state = 14 }

abbrev awake : Node
awake = record node {
  pos = some here;
  status = some flying;
  pos_rx_s = some (n 100);
  status_rx_s = some (n 200);
}

abbrev callbacks : List (Fixed × Event)
callbacks =
    (n 0, timer)
    ∷ (n 100, position_arrives here)
    ∷ (n 100, status_arrives flying)
    ∷ (n 200, timer)
    ∷ (n 300, timer)
    ∷ (n 400, abort_arrives true)
    ∷ (n 500, timer)
    ∷ []

drive-Ordered_example : Ensures (λ d. Ordered d.sent) (drive (fresh node) callbacks)
drive-Ordered_example = drive-Ordered mission node callbacks node_built

drive-marks_example :
    Ensures (λ d. (k : ℕ) × Descends k (marked d.sent)) (drive (fresh node) callbacks)
drive-marks_example = drive-marks mission node callbacks node_built
