-- ===== src/Mission/Node/Gate.antt =====
-- node.py, `_on_tick`: the gates in front of the machine.
use patrol_drone.Prelude.{
  ◌||◌, ◌&&◌, ◌>>=◌, arith, Option, some, ◌≡◌, Result, false, true, none, List, ok, ◌∷◌, [], inl,
  inr, Bool-cases, ◌&&◌, not, if_cases, refl,
}
use patrol_drone.Float.{Float}
use patrol_drone.Mission.Node.{
  on_tick, Node, is_stale, telemetry_stale, paused, progress, resumed, gated,
}
use patrol_drone.Mission.States.{telemetry_fresh, local_position_usable}
use patrol_drone.Mission.Messages.{
  VehicleLocalPosition, telemetry_timeout_s, VehicleStatus, Message, keepalive,
}
use patrol_drone.Mission.Machine.{MachineError}

module _ ⦃fl : Float⦄ where
  open fl use {F, sub, le}

  -- a reading that has come in, and lately enough
  abbrev pub Recent : Option F → F → Type 0
  Recent none now_s = ⊥
  Recent (some rx_s) now_s = le (sub now_s rx_s) telemetry_timeout_s ≡ true

  -- What the mission needs to progress.
  pub record Ready (n : Node) (now_s : F) : Type 0 where
    pub position : VehicleLocalPosition
    pub position_known : n.pos ≡ some position
    pub vehicle : VehicleStatus
    pub vehicle_known : n.status ≡ some vehicle
    pub xy_usable : position.xy_valid ≡ true
    pub z_usable : position.z_valid ≡ true
    pub position_recent : Recent n.pos_rx_s now_s
    pub status_recent : Recent n.status_rx_s now_s

  not_stale-Recent : (o : Option F) (now_s : F) → is_stale o now_s ≡ false → Recent o now_s
  unfolding telemetry_fresh
  not_stale-Recent none now_s e = cc
  not_stale-Recent (some rx_s) now_s e = ground (arith, e)

  stale-Recent : (o : Option F) (now_s : F) → is_stale o now_s ≡ true → Recent o now_s → ⊥
  unfolding telemetry_fresh
  stale-Recent none now_s e r = r
  stale-Recent (some rx_s) now_s e r = ground (arith, e, r)

  stale-Ready :
      (n : Node) (now_s : F)
      → Ready n now_s
      → (is_stale n.pos_rx_s now_s || is_stale n.status_rx_s now_s) ≡ true
      → ⊥
  stale-Ready n now_s r h = elim (Bool-cases (is_stale n.pos_rx_s now_s)) [
    | inl e ↦ stale-Recent n.pos_rx_s now_s e r.position_recent
    | inr e ↦ stale-Recent n.status_rx_s now_s (ground (arith, e, h)) r.status_recent
  ]

  invalid :
      (pos : VehicleLocalPosition) {n : Node} {now_s : F} (r : Ready n now_s)
      → not (pos.xy_valid && pos.z_valid) ≡ true
      → r.position ≡ pos
      → ⊥
  invalid pos r h e = ground (arith, r.xy_usable, r.z_usable, h, e)

  gated_cases {ℓ} :
      (P : Result MachineError (Node × List Message) → Type ℓ) (n : Node)
      (pos : Option VehicleLocalPosition) (status : Option VehicleStatus) (now_s : F)
      → n.pos ≡ pos
      → n.status ≡ status
      → ((Ready n now_s → ⊥) → P (ok (paused n, [])))
      → ((r : Ready n now_s) → P (progress (resumed n) r.position r.vehicle now_s))
      → P (gated n pos status now_s)
  unfolding gated local_position_usable telemetry_stale
  gated_cases P n none status now_s e e' closed opened = closed (λ r. cc (r.position_known, e))
  gated_cases P n (some pos) none now_s e e' closed opened = closed (λ r. cc (r.vehicle_known, e'))
  gated_cases P n (some pos) (some status) now_s e e' closed opened =
      if_cases P (not (pos.xy_valid && pos.z_valid)) _ _
        (λ bad. closed (λ r. invalid pos r bad (cc (r.position_known, e))))
        (λ good.
          if_cases P (is_stale n.pos_rx_s now_s || is_stale n.status_rx_s now_s) _ _
            (λ stale. closed (λ r. stale-Ready n now_s r stale))
            (λ fresh. opened (record {
              position = pos;
              position_known = e;
              vehicle = status;
              vehicle_known = e';
              xy_usable = ground (arith, good);
              z_usable = ground (arith, good);
              position_recent = not_stale-Recent n.pos_rx_s now_s (ground (arith, fresh));
              status_recent = not_stale-Recent n.status_rx_s now_s (ground (arith, fresh));
            })))

  pub on_tick_cases {ℓ} :
      (P : Result MachineError (Node × List Message) → Type ℓ) (n : Node) (now_s : F)
      → ((Ready n now_s → ⊥) → P (ok (paused n, keepalive ∷ [])))
      → ((r : Ready n now_s)
          → P (progress (resumed n) r.position r.vehicle now_s >>= λ x. ok (x.0, keepalive ∷ x.1)))
      → P (on_tick n now_s)
  unfolding on_tick
  on_tick_cases P n now_s closed opened =
      gated_cases (λ x. P (x >>= λ y. ok (y.0, keepalive ∷ y.1))) n n.pos n.status now_s refl refl
        closed opened
