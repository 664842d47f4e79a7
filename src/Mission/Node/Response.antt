-- ===== src/Mission/Node/Response.antt =====
-- node.py, `_on_tick` as a whole: what one turn of the timer does, on each side of its gates.
use patrol_drone.Prelude.{◌&&◌, List, ◌≡◌, if◌then◌else◌, ◌⊎◌, false, ◌∷◌, ok, []}
use patrol_drone.Float.{Float}
use patrol_drone.Mission.Node.{Node, build_telemetry, paused}
use patrol_drone.Mission.Machine.{Machine, reset_timing, Step, tick}
use patrol_drone.Mission.Messages.{Message, keepalive}
use patrol_drone.Mission.Node.Gate.{Ready}
use patrol_drone.Mission.Node.Effects.{sends, asks_offboard, warm, dwell_marks, fires_at}
use patrol_drone.Mission.Node.Contents.{contents, as_setpoint, as_state, as_waypoint, setpoint_of}
use patrol_drone.Mission.States.{MissionState, Command}

module _ ⦃fl : Float⦄ where
  open fl use {F, milli, neg, sub, le, lt}

  -- the machine that the tick runs on: its timing restarts after a pause
  abbrev pub restarted : Node → Machine
  restarted n = if n.progression_paused then reset_timing n.sm else n.sm

  -- A turn that the gates let through: the heartbeat, and the effects of one `tick` of the machine.
  pub record Progressed (n : Node) (now_s : F) (x : Node × List Message) : Type 0 where
    pub ready : Ready n now_s
    pub step : Step
    pub ticked :
        tick (restarted n) n.state (build_telemetry n ready.position ready.vehicle now_s) ≡ ok step
    pub messages : List Message
    pub published : x.1 ≡ keepalive ∷ messages
    pub state : x.0.state ≡ step.0
    pub sm : x.0.sm ≡ step.2
    -- what is published beside the heartbeat
    pub setpoints : contents as_setpoint messages ≡ setpoint_of step.1
    pub states : contents as_state messages ≡ step.0 ∷ []
    pub waypoints : contents as_waypoint messages ≡ step.1.current_waypoint ∷ []
    pub sends_offboard : sends 176 messages ≡ asks_offboard n step.1
    pub sends_arm : sends 400 messages ≡ (warm n && (step.1.arm && n.offboard_requested))
    pub sends_land : sends 21 messages ≡ step.1.land
    pub marks :
        dwell_marks messages
        ≡ (if fires_at n n.state step.0 now_s then step.1.current_waypoint ∷ [] else [])
    pub running : x.0.progression_paused ≡ false

  abbrev pub Response : Node → F → Node × List Message → Type 0
  Response n now_s x =
      Progressed n now_s x ⊎ ((Ready n now_s → ⊥) × (x ≡ (paused n, keepalive ∷ [])))

  -- what the node publishes does not depend on the machine and the mark of a pause
  abbrev SameRest : Node → Node → F → Type 0
  SameRest n m now_s =
      ((cmd : Command) → asks_offboard m cmd ≡ asks_offboard n cmd)
      × ((cmd : Command)
          → (warm m && (cmd.arm && m.offboard_requested))
            ≡ (warm n && (cmd.arm && n.offboard_requested)))
      × ((s : MissionState) (cmd : Command)
          → (if fires_at m m.state s now_s then cmd.current_waypoint ∷ [] else [])
            ≡ (if fires_at n n.state s now_s then cmd.current_waypoint ∷ [] else []))
