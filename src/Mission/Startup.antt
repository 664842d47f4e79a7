-- ===== src/Mission/Startup.antt =====
-- config.py and node.py together: a mission that loads is a mission whose node starts.
use patrol_drone.Prelude.{
  ◌∷◌, arith, List, length, String, All, ◌≡◌, Ensures, some, Ensures-bind, suc, [], refl, ap,
  Result, ok, err, map, length-map, ◌∙◌, Ensures-map, sym,
}
use patrol_drone.Float.{Float}
use patrol_drone.Mission.Config.Flyable.{load_mission_config-Ranges, Framed}
use patrol_drone.Mission.Config.Loader.{load_mission_config}
use patrol_drone.Mission.Machine
use patrol_drone.Mission.Config.{MissionConfig, Waypoint}
use patrol_drone.Mission.Frames.{to_ned_from_origin, Point, FrameError}
use patrol_drone.Mission.Node.{
  waypoints_to_ned, lift_frame, init_node, Node, lift_machine, Event, waypoint_yaw_ned,
}
use patrol_drone.Mission.Config.Flyable.{IsFrame}
use patrol_drone.Mission.Machine.Range.{InRange}
use patrol_drone.Mission.States.{idle}
use patrol_drone.Mission.Messages.{ekf_origin_ned}
use patrol_drone.Mission.Config.Yaml.{FileError, Yaml}
use patrol_drone.Mission.Machine.{MachineError}
use patrol_drone.Mission.Node.Drive.{Safe, drive, fresh, drive-keeps}

module _ ⦃fl : Float⦄ where
  open fl use {F}

  to_ned-returns :
      (p : Point) (frame : String) (o : Point)
      → IsFrame frame
      → Ensures (λ _. Unit) (to_ned_from_origin p frame o)
  unfolding to_ned_from_origin
  to_ned-returns (x, y, z) frame o h = ground (arith, h)

  waypoints_to_ned-length :
      (ws : List Waypoint)
      → All (λ w. IsFrame w.frame) ws
      → Ensures (λ ps. length ps ≡ length ws) (waypoints_to_ned ws)
  unfolding waypoints_to_ned
  waypoints_to_ned-length [] h = refl
  waypoints_to_ned-length (w ∷ ws) h =
      Ensures-bind (λ _. Unit) (λ ps. length ps ≡ suc (length ws))
        (to_ned_from_origin w.position w.frame ekf_origin_ned) _
        (to_ned-returns w.position w.frame ekf_origin_ned h.0)
        (λ p _.
          Ensures-bind (λ ps. length ps ≡ length ws) (λ ps. length ps ≡ suc (length ws))
            (waypoints_to_ned ws) _ (waypoints_to_ned-length ws h.1) (λ ps e. ap suc e))

  lift_frame-Ensures :
      {A : Type 0} (P : A → Type 0) (r : Result FrameError A)
      → Ensures P r
      → Ensures P (lift_frame r)
  lift_frame-Ensures P (ok a) h = h
  lift_frame-Ensures P (err e) h = elim h [ ]

  lift_machine-Ensures :
      {A : Type 0} (P : A → Type 0) (r : Result MachineError A)
      → Ensures P r
      → Ensures P (lift_machine r)
  lift_machine-Ensures P (ok a) h = h
  lift_machine-Ensures P (err e) h = elim h [ ]

  init-returns :
      (cfg : MissionConfig) (wps : List Point) (home : Point) (yaws : List F)
      → length wps ≡ length cfg.waypoints
      → length yaws ≡ length wps
      → Ensures (InRange idle) (Machine.init cfg wps home (some yaws))
  unfolding Machine.init
  init-returns cfg wps home yaws e e' = ground (arith, e, e')

  init_node-InRange :
      (cfg : MissionConfig) → Framed cfg → Ensures (λ n. InRange n.state n.sm) (init_node cfg)
  unfolding init_node
  init_node-InRange cfg (home, route) =
      let Q = λ (n : Node). InRange n.state n.sm in
      let yaws = map waypoint_yaw_ned cfg.waypoints in
      Ensures-bind (λ _. Unit) Q
        (lift_frame (to_ned_from_origin cfg.home_position cfg.home_frame ekf_origin_ned)) _
        (lift_frame-Ensures (λ _. Unit)
          (to_ned_from_origin cfg.home_position cfg.home_frame ekf_origin_ned)
          (to_ned-returns cfg.home_position cfg.home_frame ekf_origin_ned home))
        (λ h _.
          Ensures-bind (λ ps. length ps ≡ length cfg.waypoints) Q
            (lift_frame (waypoints_to_ned cfg.waypoints)) _
            (lift_frame-Ensures (λ ps. length ps ≡ length cfg.waypoints)
              (waypoints_to_ned cfg.waypoints) (waypoints_to_ned-length cfg.waypoints route))
            (λ ps e.
              Ensures-bind (InRange idle) Q (lift_machine (Machine.init cfg ps h (some yaws))) _
                (lift_machine-Ensures (InRange idle) (Machine.init cfg ps h (some yaws)) (
                  init-returns cfg ps h yaws e (length-map waypoint_yaw_ned cfg.waypoints ∙ sym e)))
                (λ m v. v)))

  -- Whatever the files hold, a mission that the loader accepts is one that the node starts on: its
  -- constructor returns, neither for an unknown frame nor for lists that do not align, and from then
  -- on no callback, at any reading of the clock, raises.
  pub load-starts :
      (read_yaml : String → Result FileError Yaml) (path checkpoints : String) (cfg : MissionConfig)
      (es : List (F × Event))
      → load_mission_config read_yaml path checkpoints ≡ ok cfg
      → Ensures (λ n. Ensures (λ d. Safe d.node) (drive (fresh n) es)) (init_node cfg)
  load-starts read_yaml path checkpoints cfg es e =
      Ensures-map (λ n. InRange n.state n.sm) (λ n. Ensures (λ d. Safe d.node) (drive (fresh n) es))
        (init_node cfg)
        (λ n _ v.
          Ensures-map (λ d. Safe d.node × Unit) (λ d. Safe d.node) (drive (fresh n) es)
            (λ d _ k. k.0)
            (drive-keeps (λ _ _. Unit)
              (record {
                idles = λ _ _ _ _ _ _ _. tt;
                restarts = λ _ _ _. tt;
                progresses = λ _ _ _ _ _ _ _ _ _ _. tt;
              })
              (fresh n) es v tt))
        (init_node-InRange cfg (load_mission_config-Ranges read_yaml path checkpoints cfg e).1)
