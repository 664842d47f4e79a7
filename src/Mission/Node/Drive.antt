-- ===== src/Mission/Node/Drive.antt =====
-- node.py under its executor: callbacks one after another, each at a reading of the clock, and what
-- each has published, newest first.
use patrol_drone.Prelude.{
  Result-cases, ◌>>=◌, arith, List, [], ◌≡◌, Ensures, ◌∷◌, Result, ◌⊎◌, Ensures-bind, if_cases, ok,
  false, inr, Ensures-map, inl, refl, Permits-at, Permits-bind, Option, Permits, Permits-eq, some,
  map,
}
use patrol_drone.Float.{Float}
use patrol_drone.Mission.Node.{
  on_abort, progress, handle, Node, on_pos, Event, on_status, resumed, on_battery, build_telemetry,
  paused, after_tick, position_arrives, status_arrives, battery_arrives, abort_arrives, timer,
  init_node, new_node, lift_frame, lift_machine, waypoints_to_ned, waypoint_yaw_ned,
}
use patrol_drone.Mission.Machine.Range.{InRange, reset_timing-InRange, tick-InRange, init-InRange}
use patrol_drone.Mission.Messages.{
  Message, VehicleLocalPosition, VehicleStatus, keepalive, ekf_origin_ned,
}
use patrol_drone.Mission.Machine
use patrol_drone.Mission.Machine.{MachineError, reset_timing, tick, Step, Machine}
use patrol_drone.Mission.States.{Telemetry, idle}
use patrol_drone.Mission.Node.Gate.{on_tick_cases}
use patrol_drone.Mission.Node.Effects.{Effects, after_tick-Effects}
use patrol_drone.Mission.Config.{MissionConfig}
use patrol_drone.Mission.Frames.{Point, to_ned_from_origin}

module _ ⦃fl : Float⦄ where
  open fl use {F}

  pub record Drive : Type 0 where
    pub node : Node
    pub sent : List (List Message)

  abbrev pub noted : Drive → Node × List Message → Drive
  noted d x = record { node = x.0; sent = x.1 ∷ d.sent }

  unfoldable pub drive : Drive → List (F × Event) → Result MachineError Drive
  drive d [] = ok d
  drive d ((now_s, e) ∷ es) = do x ← handle d.node now_s e; drive (noted d x) es

  abbrev pub fresh : Node → Drive
  fresh n = record { node = n; sent = [] }

  -- the machine's range, for the node
  abbrev pub Safe : Node → Type 0
  Safe n = InRange n.state n.sm

  -- the part of the node that the mission's progress rests on is the same
  pub record SameMind (n n' : Node) : Type 0 where
    pub sm : n'.sm ≡ n.sm
    pub state : n'.state ≡ n.state
    pub warmup : n'.warmup ≡ n.warmup
    pub entered : n'.dwell_entered_s ≡ n.dwell_entered_s
    pub fired : n'.dwell_fired ≡ n.dwell_fired
    pub offboard : n'.offboard_requested ≡ n.offboard_requested

  -- An invariant of a node and of what it has sent: a callback that does not progress the mission
  -- keeps it, and so do the restart of the timing and a progressed tick.
  pub record Invariant (P : Node → List (List Message) → Type 0) : Type 0 where
    pub idles :
        (n n' : Node) (log : List (List Message)) (ms : List Message)
        → SameMind n n'
        → (ms ≡ []) ⊎ (ms ≡ keepalive ∷ [])
        → P n log
        → P n' (ms ∷ log)
    pub restarts :
        (n : Node) (log : List (List Message))
        → P n log
        → P (record n { sm = reset_timing n.sm; progression_paused = false }) log
    pub progresses :
        (n : Node) (t : Telemetry) (now_s : F) (r : Step) (x : Node × List Message)
        (log : List (List Message))
        → Safe n
        → tick n.sm n.state t ≡ ok r
        → Effects n now_s r x
        → P n log
        → P x.0 ((keepalive ∷ x.1) ∷ log)

  resumed-keeps :
      (P : Node → List (List Message) → Type 0)
      → Invariant P
      → (n : Node) (log : List (List Message)) → Safe n
      → P n log
      → Safe (resumed n) × P (resumed n) log
  resumed-keeps P inv n log v h =
      if_cases (λ x. Safe x × P x log) n.progression_paused
        (record n { sm = reset_timing n.sm; progression_paused = false }) n
        (λ _. (reset_timing-InRange n.state n.sm v, inv.restarts n log h)) (λ _. (v, h))

  progress-keeps :
      (P : Node → List (List Message) → Type 0)
      → Invariant P
      → (n : Node) (pos : VehicleLocalPosition) (status : VehicleStatus) (now_s : F)
        (log : List (List Message))
      → Safe n
      → P n log
      → Ensures (λ x. Safe x.0 × P x.0 ((keepalive ∷ x.1) ∷ log)) (progress n pos status now_s)
  unfolding progress
  progress-keeps P inv n pos status now_s log v h =
      let t = build_telemetry n pos status now_s in
      Ensures-bind (λ r. (tick n.sm n.state t ≡ ok r) × InRange r.0 r.2) _ (tick n.sm n.state t)
        (λ r. ok (after_tick n now_s r))
        (Ensures-map (λ r. InRange r.0 r.2) (λ r. (tick n.sm n.state t ≡ ok r) × InRange r.0 r.2)
          (tick n.sm n.state t) (λ r e w. (e, w)) (tick-InRange n.state n.sm t v))
        (λ r (e, w).
          let f = after_tick-Effects n now_s r in
          (
            ground (arith, f.state, f.sm, w),
            inv.progresses n t now_s r (after_tick n now_s r) log v e f h,
          ))

  pub handle-keeps :
      (P : Node → List (List Message) → Type 0)
      → Invariant P
      → (n : Node) (now_s : F) (e : Event) (log : List (List Message)) → Safe n
      → P n log
      → Ensures (λ x. Safe x.0 × P x.0 (x.1 ∷ log)) (handle n now_s e)
  unfolding handle on_pos on_status on_battery on_abort
  handle-keeps P inv n now_s timer log v h =
      on_tick_cases (Ensures (λ x. Safe x.0 × P x.0 (x.1 ∷ log))) n now_s
        (λ _. (v, inv.idles n (paused n) log (keepalive ∷ []) same (inr refl) h))
        (λ r.
          let (v', h') = resumed-keeps P inv n log v h in
          Ensures-bind (λ x. Safe x.0 × P x.0 ((keepalive ∷ x.1) ∷ log))
            (λ x. Safe x.0 × P x.0 (x.1 ∷ log)) (progress (resumed n) r.position r.vehicle now_s) _
            (progress-keeps P inv (resumed n) r.position r.vehicle now_s log v' h') (λ x k. k))
    where
      same : SameMind n (paused n)
      same = record {
        sm = refl;
        state = refl;
        warmup = refl;
        entered = refl;
        fired = refl;
        offboard = refl;
      }
  handle-keeps P inv n now_s (position_arrives msg) log v h = (
    v,
    inv.idles n (on_pos n msg now_s) log []
        (record {
          sm = refl;
          state = refl;
          warmup = refl;
          entered = refl;
          fired = refl;
          offboard = refl;
        })
        (inl refl) h,
  )
  handle-keeps P inv n now_s (status_arrives msg) log v h = (
    v,
    inv.idles n (on_status n msg now_s) log []
        (record {
          sm = refl;
          state = refl;
          warmup = refl;
          entered = refl;
          fired = refl;
          offboard = refl;
        })
        (inl refl) h,
  )
  handle-keeps P inv n now_s (battery_arrives msg) log v h = (
    v,
    inv.idles n (on_battery n msg now_s) log []
        (record {
          sm = refl;
          state = refl;
          warmup = refl;
          entered = refl;
          fired = refl;
          offboard = refl;
        })
        (inl refl) h,
  )
  handle-keeps P inv n now_s (abort_arrives msg) log v h = (
    v,
    inv.idles n (on_abort n msg) log []
        (record {
          sm = refl;
          state = refl;
          warmup = refl;
          entered = refl;
          fired = refl;
          offboard = refl;
        })
        (inl refl) h,
  )

  pub drive-keeps :
      (P : Node → List (List Message) → Type 0)
      → Invariant P
      → (d : Drive) (es : List (F × Event)) → Safe d.node
      → P d.node d.sent
      → Ensures (λ d'. Safe d'.node × P d'.node d'.sent) (drive d es)
  unfolding drive
  drive-keeps P inv d [] v h = (v, h)
  drive-keeps P inv d ((now_s, e) ∷ es) v h =
      Ensures-bind (λ x. Safe x.0 × P x.0 (x.1 ∷ d.sent)) (λ d'. Safe d'.node × P d'.node d'.sent)
        (handle d.node now_s e) (λ x. drive (noted d x) es)
        (handle-keeps P inv d.node now_s e d.sent v h)
        (λ x k. drive-keeps P inv (noted d x) es k.0 k.1)

  abbrev IsNew : Node → Type 0
  IsNew n = (m : Machine) × (n ≡ new_node m) × InRange idle m

  lift_machine-Permits :
      (cfg : MissionConfig) (wps : List Point) (home : Point) (yaws : Option (List F))
      → Permits (InRange idle) (lift_machine (Machine.init cfg wps home yaws))
  lift_machine-Permits cfg wps home yaws = elim (Result-cases (Machine.init cfg wps home yaws)) [
    | inl (m, e) ↦ rw e (init-InRange cfg wps home yaws m e)
    | inr (x, e) ↦ rw e tt
  ]

  -- A node that `__init__` returns is new, around a machine in range.
  pub init_node-IsNew : (cfg : MissionConfig) (n : Node) → init_node cfg ≡ ok n → IsNew n
  unfolding init_node
  init_node-IsNew cfg n e = Permits-at IsNew (init_node cfg) e (
      Permits-bind (λ _. Unit) IsNew
        (lift_frame (to_ned_from_origin cfg.home_position cfg.home_frame ekf_origin_ned)) _
        (Permits-eq (λ _. Unit) _ (λ _ _. tt))
        (λ home _.
          Permits-bind (λ _. Unit) IsNew (lift_frame (waypoints_to_ned cfg.waypoints)) _
            (Permits-eq (λ _. Unit) _ (λ _ _. tt))
            (λ wps _.
              let yaws = some (map waypoint_yaw_ned cfg.waypoints) in
              Permits-bind (InRange idle) IsNew (lift_machine (Machine.init cfg wps home yaws)) _
                (lift_machine-Permits cfg wps home yaws) (λ m v. (m, refl, v)))))
