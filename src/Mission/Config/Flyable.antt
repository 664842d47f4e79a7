-- ===== src/Mission/Config/Flyable.antt =====
-- config.py: what a mission that the loader accepts satisfies.
use patrol_drone.Prelude.{
  arith, ◌≡◌, String, Permits, List, true, Result, All, Permits-bind, false, ◌∷◌, if_cases,
  Permits-map, Permits-after, [], ok, Permits-at, or_raise, refl,
}
use patrol_drone.Float.{Float}
use patrol_drone.Mission.Config.Waypoints.{
  from_checkpoint, inline, parse_shaped, waypoint_shape, check_waypoint_keys,
  checkpoint_waypoint_keys, inline_waypoint_keys,
}
use patrol_drone.Mission.Config.Sections.{
  half_turn_down, validate_semantics, positive, unit_interval, non_negative, validate_dwells,
  reject_unknown_top_level_keys, approach_section, completion_section, abort_section,
}
use patrol_drone.Mission.Config.Waypoints.{
  parse_waypoints, inline_waypoint, parse_waypoint, checkpoint_waypoint, WaypointShape,
}
use patrol_drone.Mission.Config.Yaml.{
  validate_frame, Fields, contains, Yaml, finite, str, FileError, subscript, refuse, point,
  unknown_frame, require, number, require_mapping, value_error, unknown_checkpoint,
}
use patrol_drone.Mission.Config.{MissionConfig, Waypoint, Approach}
use patrol_drone.Mission.Config.Checkpoints.{
  resolve_checkpoints, Positions, checkpoint_id, position_of,
}
use patrol_drone.Mission.Config.Loader.{
  load_mission_config, build_config, read_mission, waypoint_entries,
}

abbrev pub IsFrame : String → Type 0
IsFrame frame = contains ("enu" ∷ "ned" ∷ []) frame ≡ true

module _ ⦃fl : Float⦄ where
  open fl use {F, milli, pi, half, le, lt, is_finite}

  -- above zero, and not below zero: finite, and where the comparison of the code puts it
  abbrev pub Above : F → Type 0
  Above x = (is_finite x ≡ true) × (le x (milli 0) ≡ false)

  abbrev pub NotBelow : F → Type 0
  NotBelow x = (is_finite x ≡ true) × (lt x (milli 0) ≡ false)

  pub record Ranges (cfg : MissionConfig) : Type 0 where
    pub takeoff : Above cfg.takeoff_alt_m
    pub hover : NotBelow cfg.hover_time_s
    pub tolerance : Above cfg.completion.tolerance_m
    pub hold : NotBelow cfg.completion.hold_time_s
    pub threshold :
        (le (milli 0) cfg.abort.low_battery_threshold ≡ true)
        × (le cfg.abort.low_battery_threshold (milli 1000) ≡ true)
    pub standoff : Above cfg.approach.standoff_m
    pub pitch :
        (le (milli 0) cfg.approach.camera_pitch_rad ≡ true)
        × (lt cfg.approach.camera_pitch_rad (half pi) ≡ true)
    pub dwells : All (λ w. NotBelow w.dwell_s) cfg.waypoints

  abbrev pub Framed : MissionConfig → Type 0
  Framed cfg = IsFrame cfg.home_frame × All (λ w. IsFrame w.frame) cfg.waypoints

  positive-Above : (x : F) → Permits (λ _. Above x) (positive x)
  unfolding positive finite
  positive-Above x = ground arith

  non_negative-NotBelow : (x : F) → Permits (λ _. NotBelow x) (non_negative x)
  unfolding non_negative finite
  non_negative-NotBelow x = ground arith

  unit_interval_lem :
      (x : F)
      → Permits (λ _. (le (milli 0) x ≡ true) × (le x (milli 1000) ≡ true)) (unit_interval x)
  unfolding unit_interval finite
  unit_interval_lem x = ground arith

  half_turn_down_lem :
      (x : F) → Permits (λ _. (le (milli 0) x ≡ true) × (lt x (half pi) ≡ true)) (half_turn_down x)
  unfolding half_turn_down finite
  half_turn_down_lem x = ground arith

  validate_dwells-NotBelow :
      (ws : List Waypoint) → Permits (λ _. All (λ w. NotBelow w.dwell_s) ws) (validate_dwells ws)
  unfolding validate_dwells
  validate_dwells-NotBelow [] = tt
  validate_dwells-NotBelow (w ∷ ws) =
      Permits-bind (λ _. NotBelow w.dwell_s) (λ _. All (λ w. NotBelow w.dwell_s) (w ∷ ws))
        (non_negative w.dwell_s) (λ _. validate_dwells ws) (non_negative-NotBelow w.dwell_s)
        (λ _ h.
          Permits-map (λ _. All (λ w. NotBelow w.dwell_s) ws) _ (validate_dwells ws) (λ _ k. (h, k))
            (validate_dwells-NotBelow ws))

  validate_semantics-Ranges :
      (cfg : MissionConfig) → Permits (λ _. Ranges cfg) (validate_semantics cfg)
  unfolding validate_semantics
  validate_semantics-Ranges cfg =
      let R = λ (_ : Unit {0}). Ranges cfg in
      Permits-bind _ R (positive cfg.takeoff_alt_m) _ (positive-Above cfg.takeoff_alt_m) (λ _ a.
        Permits-bind _ R (non_negative cfg.hover_time_s) _ (non_negative-NotBelow cfg.hover_time_s)
          (λ _ b.
            Permits-bind _ R (positive cfg.completion.tolerance_m) _
              (positive-Above cfg.completion.tolerance_m)
              (λ _ c.
                Permits-bind _ R (non_negative cfg.completion.hold_time_s) _
                  (non_negative-NotBelow cfg.completion.hold_time_s)
                  (λ _ d.
                    Permits-bind _ R (unit_interval cfg.abort.low_battery_threshold) _
                      (unit_interval_lem cfg.abort.low_battery_threshold)
                      (λ _ e.
                        Permits-bind _ R (positive cfg.approach.standoff_m) _
                          (positive-Above cfg.approach.standoff_m)
                          (λ _ f.
                            Permits-bind _ R (half_turn_down cfg.approach.camera_pitch_rad) _
                              (half_turn_down_lem cfg.approach.camera_pitch_rad)
                              (λ _ g.
                                Permits-map (λ _. All (λ w. NotBelow w.dwell_s) cfg.waypoints) R
                                  (validate_dwells cfg.waypoints)
                                  (λ _ h. record {
                                    takeoff = a;
                                    hover = b;
                                    tolerance = c;
                                    hold = d;
                                    threshold = e;
                                    standoff = f;
                                    pitch = g;
                                    dwells = h;
                                  })
                                  (validate_dwells-NotBelow cfg.waypoints))))))))

  validate_frame-IsFrame : (v : Yaml) → Permits IsFrame (validate_frame v)
  unfolding validate_frame
  validate_frame-IsFrame (str s) =
      if_cases (Permits IsFrame) (contains ("enu" ∷ "ned" ∷ []) s) (ok s) (refuse unknown_frame)
        (λ e. e) (λ _. tt)
  validate_frame-IsFrame _ = tt

  enu-IsFrame : IsFrame "enu"
  enu-IsFrame = refl

  checkpoint_waypoint-IsFrame :
      (w : Fields) (ps : Positions) (a : Approach)
      → Permits (λ wp. IsFrame wp.frame) (checkpoint_waypoint w ps a)
  unfolding checkpoint_waypoint
  checkpoint_waypoint-IsFrame w ps a =
      let Q = λ (wp : Waypoint). IsFrame wp.frame in
      Permits-after Q (subscript w "checkpoint_id") _ (λ id.
        Permits-after Q (checkpoint_id id) _ (λ cid.
          Permits-after Q (or_raise (position_of ps cid) (value_error unknown_checkpoint)) _ (λ tag.
            Permits-after Q (subscript w "dwell_s") _
              (λ d. Permits-after Q (number d) _ (λ _. enu-IsFrame)))))

  inline_waypoint-IsFrame : (w : Fields) → Permits (λ wp. IsFrame wp.frame) (inline_waypoint w)
  unfolding inline_waypoint
  inline_waypoint-IsFrame w =
      let Q = λ (wp : Waypoint). IsFrame wp.frame in
      Permits-after Q (subscript w "frame") _ (λ f.
        Permits-bind IsFrame Q (validate_frame f) _ (validate_frame-IsFrame f) (λ frame h.
          Permits-after Q (subscript w "position") _ (λ pl. Permits-after Q (point pl) _ (λ p.
            Permits-after Q (subscript w "dwell_s") _
              (λ d. Permits-after Q (number d) _ (λ _. h))))))

  parse_shaped-IsFrame :
      (s : WaypointShape) (w : Fields) (ps : Positions) (a : Approach)
      → Permits (λ wp. IsFrame wp.frame) (parse_shaped s w ps a)
  parse_shaped-IsFrame from_checkpoint w ps a =
      Permits-after (λ wp. IsFrame wp.frame) (check_waypoint_keys w checkpoint_waypoint_keys) _
        (λ _. checkpoint_waypoint-IsFrame w ps a)
  parse_shaped-IsFrame inline w ps a =
      Permits-after (λ wp. IsFrame wp.frame) (check_waypoint_keys w inline_waypoint_keys) _
        (λ _. inline_waypoint-IsFrame w)

  parse_waypoint-IsFrame :
      (w : Fields) (ps : Positions) (a : Approach)
      → Permits (λ wp. IsFrame wp.frame) (parse_waypoint w ps a)
  unfolding parse_waypoint
  parse_waypoint-IsFrame w ps a =
      Permits-after (λ wp. IsFrame wp.frame) (waypoint_shape w) _
        (λ s. parse_shaped-IsFrame s w ps a)

  parse_waypoints-IsFrame :
      (ws : List Fields) (ps : Positions) (a : Approach)
      → Permits (All (λ wp. IsFrame wp.frame)) (parse_waypoints ws ps a)
  unfolding parse_waypoints
  parse_waypoints-IsFrame [] ps a = tt
  parse_waypoints-IsFrame (w ∷ ws) ps a =
      Permits-bind (λ wp. IsFrame wp.frame) (All (λ wp. IsFrame wp.frame)) (parse_waypoint w ps a) _
        (parse_waypoint-IsFrame w ps a)
        (λ wp h.
          Permits-bind (All (λ wp. IsFrame wp.frame)) (All (λ wp. IsFrame wp.frame))
            (parse_waypoints ws ps a) _ (parse_waypoints-IsFrame ws ps a) (λ wps k. (h, k)))

  module _ (read_yaml : String → Result FileError Yaml) where
    build_config-Framed :
        (raw : Fields) (path : String) → Permits Framed (build_config read_yaml raw path)
    unfolding build_config
    build_config-Framed raw path = Permits-after Framed (reject_unknown_top_level_keys raw) _ (λ _.
        Permits-after Framed (approach_section raw) _ (λ approach.
          Permits-after Framed (require raw "home") _ (λ hv.
            Permits-after Framed (require_mapping hv) _ (λ home.
              Permits-after Framed (waypoint_entries read_yaml raw) _ (λ rw'.
                Permits-after Framed (resolve_checkpoints read_yaml rw' path) _ (λ cps.
                  Permits-bind (All (λ wp. IsFrame wp.frame)) Framed
                    (parse_waypoints rw' cps approach) _ (parse_waypoints-IsFrame rw' cps approach)
                    (λ wps h. Permits-after Framed (require raw "takeoff_alt_m") _ (λ tv.
                      Permits-after Framed (number tv) _ (λ t.
                        Permits-after Framed (require raw "hover_time_s") _ (λ hv'.
                          Permits-after Framed (number hv') _ (λ ht.
                            Permits-after Framed (completion_section raw) _ (λ c.
                              Permits-after Framed (abort_section raw) _ (λ a.
                                Permits-after Framed (require home "position") _ (λ pl.
                                  Permits-after Framed (point pl) _ (λ hp.
                                    Permits-after Framed (require home "frame") _ (λ fr.
                                      Permits-bind IsFrame Framed (validate_frame fr) _
                                        (validate_frame-IsFrame fr) (λ f k. (k, h))))))))))))))))))

    -- A configuration that the loader returns can be flown: the take-off altitude, the tolerance and
    -- the stand-off are finite and above zero, the times finite and not below zero (the dwell of every
    -- waypoint among them), the battery threshold in [0, 1], the camera pitch in [0, pi/2), and home
    -- and every waypoint are given in a known frame.
    pub load_mission_config-Ranges :
        (path checkpoints : String) (cfg : MissionConfig)
        → load_mission_config read_yaml path checkpoints ≡ ok cfg
        → Ranges cfg × Framed cfg
    unfolding load_mission_config
    load_mission_config-Ranges path checkpoints cfg e =
        let Q = λ (c : MissionConfig). Ranges c × Framed c in
        Permits-at Q (load_mission_config read_yaml path checkpoints) e (
          Permits-after Q (read_mission read_yaml path) _ (λ doc.
            Permits-after Q (require_mapping doc) _ (λ raw.
              Permits-bind Framed Q (build_config read_yaml raw checkpoints) _
                (build_config-Framed raw checkpoints)
                (λ c f.
                  Permits-bind (λ _. Ranges c) Q (validate_semantics c) _
                    (validate_semantics-Ranges c) (λ _ r. (r, f))))))
