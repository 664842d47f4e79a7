-- ===== src/Mission/Node/Contents.antt =====
-- node.py, `_on_tick`: what the messages of one tick say, kind by kind.
use patrol_drone.Prelude.{
  arith, Option, ℕ, List, ℤ, ◌≡◌, some, none, ◌∷◌, [], ◌++◌, refl, map, ◌∙◌, ap, Option-cases, inl,
  inr,
}
use patrol_drone.Float.{Float}
use patrol_drone.Mission.Node.{
  Node, setpoint_messages, send_command, publish_dwell_event, publish_patrol,
}
use patrol_drone.Mission.States.{MissionState, Command}
use patrol_drone.Mission.Messages.{
  Message, dwell_event, vehicle_command, mission_state, current_waypoint, trajectory_setpoint,
  vehicle_cmd_id,
}
use patrol_drone.Mission.Commands.{Px4Command}
use patrol_drone.Mission.Frames.{Point}

append_nil {ℓ} : {A : Type ℓ} (xs : List A) → xs ++ [] ≡ xs
append_nil [] = refl
append_nil (x ∷ xs) = ap (λ ys. x ∷ ys) (append_nil xs)

module _ ⦃fl : Float⦄ where
  open fl use {F}

  -- the contents of the messages of one kind, in order
  abbrev pub contents {ℓ} : {A : Type ℓ} → (Message → Option A) → List Message → List A
  contents read [] = []
  contents read (m ∷ ms) =
      let rest = contents read ms in elim (read m) [ none ↦ rest | some a ↦ a ∷ rest ]

  abbrev pub as_setpoint : Message → Option (Point × F)
  as_setpoint (trajectory_setpoint p yaw) = some (p, yaw)
  as_setpoint _ = none

  abbrev pub as_state : Message → Option MissionState
  as_state (mission_state s) = some s
  as_state _ = none

  abbrev pub as_waypoint : Message → Option ℤ
  as_waypoint (current_waypoint i) = some i
  as_waypoint _ = none

  -- The setpoint of a command is published with its yaw; there may be none.
  abbrev pub setpoint_of : Command → List (Point × F)
  setpoint_of cmd = elim cmd.setpoint_ned [ none ↦ [] | some p ↦ (p, cmd.yaw) ∷ [] ]

  contents-++ {ℓ} :
      {A : Type ℓ} (read : Message → Option A) (a b : List Message)
      → contents read (a ++ b) ≡ contents read a ++ contents read b
  contents-++ read [] b = refl
  contents-++ read (m ∷ a) b = ground (arith, contents-++ read a b)

  pub commands-contents {ℓ} :
      {A : Type ℓ} (read : Message → Option A) (cs : List Px4Command)
      → ((id : ℕ) (x y : F) → read (vehicle_command id x y) ≡ none)
      → contents read (map send_command cs) ≡ []
  commands-contents read [] h = refl
  commands-contents read (c ∷ cs) h =
      rw (h (vehicle_cmd_id c.kind) c.param1 c.param2) (commands-contents read cs h)

  pub fired-contents {ℓ} :
      {A : Type ℓ} (read : Message → Option A) (n : Node) (prev : MissionState) (cmd : Command)
      (now_s : F)
      → ((i : ℤ) → read (dwell_event i) ≡ none)
      → contents read (publish_dwell_event n prev cmd now_s).1 ≡ []
  unfolding publish_dwell_event
  fired-contents read n prev cmd now_s h = ground (arith, h cmd.current_waypoint)

  -- all that is published, from the parts
  pub contents_all {ℓ} :
      {A : Type ℓ} (read : Message → Option A) (a c p f : List Message)
      → contents read c ≡ []
      → contents read f ≡ []
      → contents read ((a ++ c) ++ (p ++ f)) ≡ contents read a ++ contents read p
  contents_all read a c p f hc hf =
      contents-++ read (a ++ c) (p ++ f)
      ∙ ap (λ x. x ++ contents read (p ++ f))
          (contents-++ read a c ∙ ap (λ x. contents read a ++ x) hc)
      ∙ ap (λ x. x ++ contents read (p ++ f)) (append_nil (contents read a))
      ∙ ap (λ x. contents read a ++ x)
          (contents-++ read p f ∙ ap (λ x. contents read p ++ x) hf ∙ append_nil (contents read p))

  pub setpoint-contents :
      (cmd : Command) (n : Node)
      → (contents as_setpoint (setpoint_messages cmd.setpoint_ned cmd.yaw)
            ++ contents as_setpoint (publish_patrol n cmd)
          ≡ setpoint_of cmd)
        × (contents as_state (setpoint_messages cmd.setpoint_ned cmd.yaw)
              ++ contents as_state (publish_patrol n cmd)
            ≡ n.state ∷ [])
        × (contents as_waypoint (setpoint_messages cmd.setpoint_ned cmd.yaw)
              ++ contents as_waypoint (publish_patrol n cmd)
            ≡ cmd.current_waypoint ∷ [])
  unfolding publish_patrol
  setpoint-contents cmd n = elim (Option-cases cmd.setpoint_ned) [
    | inl e ↦ rw e (refl, refl, refl)
    | inr (p, e) ↦ rw e (refl, refl, refl)
  ]
