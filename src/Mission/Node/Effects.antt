-- ===== src/Mission/Node/Effects.antt =====
-- node.py, `_on_tick` from the return of `tick` on: what one progressed tick does to the node and
-- what it publishes, in the terms that the other proofs use.
use patrol_drone.Prelude.{
  ◌==◌, ◌||◌, ◌&&◌, arith, Option, ℕ, List, if◌then◌else◌, Bool, not, ℤ, ◌&&◌, false, ◌≡◌, leb,
  some, ltb, none, ◌+◌, ◌∷◌, [], true, ◌++◌, refl, map, ◌∙◌,
}
use patrol_drone.Float.{Float}
use patrol_drone.Mission.Node.{
  Node, setpoint_messages, send_command, any_set_offboard, publish_dwell_event, publish_patrol,
  after_tick, dwell_settle_elapsed, issue,
}
use patrol_drone.Mission.States.{MissionState, Command, is_state, dwell}
use patrol_drone.Mission.Messages.{
  Message, offboard_stream_warmup_ticks, dwell_settle_s, dwell_event, vehicle_command,
  mission_state,
}
use patrol_drone.Mission.Machine.{Step}
use patrol_drone.Mission.Commands.{build_vehicle_commands, Px4Command}
use patrol_drone.Mission.Frames.{Point}
use patrol_drone.Mission.Node.Contents.{
  contents, as_setpoint, as_state, as_waypoint, setpoint_of, commands-contents, fired-contents,
  contents_all, setpoint-contents,
}

module _ ⦃fl : Float⦄ where
  open fl use {F, sub, le}

  -- a vehicle command of this id is among the messages
  unfoldable pub sends : ℕ → List Message → Bool
  sends k [] = false
  sends k (vehicle_command id a b ∷ ms) = k == id || sends k ms
  sends k (_ ∷ ms) = sends k ms

  -- the waypoints of the dwell events among the messages
  unfoldable pub dwell_marks : List Message → List ℤ
  dwell_marks [] = []
  dwell_marks (dwell_event i ∷ ms) = i ∷ dwell_marks ms
  dwell_marks (_ ∷ ms) = dwell_marks ms

  -- the mission state is among the messages
  unfoldable pub shows_state : MissionState → List Message → Bool
  shows_state s [] = false
  shows_state s (mission_state s' ∷ ms) = is_state s s' || shows_state s ms
  shows_state s (_ ∷ ms) = shows_state s ms

  abbrev pub warm : Node → Bool
  warm n = leb offboard_stream_warmup_ticks n.warmup

  abbrev pub asks_offboard : Node → Command → Bool
  asks_offboard n cmd = warm n && cmd.set_offboard

  -- the time at which the present dwell was entered, after a tick from `prev` to `s`
  abbrev pub entered_at : Node → MissionState → MissionState → F → Option F
  entered_at n prev s now_s =
      if not (is_state s dwell)
      then none
      else if not (is_state prev dwell)
      then some now_s
      else n.dwell_entered_s

  abbrev pub settled : Option F → F → Bool
  settled none now_s = false
  settled (some entered) now_s = le dwell_settle_s (sub now_s entered)

  -- whether that tick publishes a dwell event
  abbrev pub fires_at : Node → MissionState → MissionState → F → Bool
  fires_at n prev s now_s =
      is_state s dwell && (not n.dwell_fired && settled (entered_at n prev s now_s) now_s)

  pub record Effects (n : Node) (now_s : F) (r : Step) (x : Node × List Message) : Type 0 where
    pub state : x.0.state ≡ r.0
    pub sm : x.0.sm ≡ r.2
    pub warmup :
        x.0.warmup ≡ (if ltb n.warmup offboard_stream_warmup_ticks then n.warmup + 1 else n.warmup)
    pub offboard : x.0.offboard_requested ≡ n.offboard_requested || asks_offboard n r.1
    pub fired :
        x.0.dwell_fired ≡ (is_state r.0 dwell && (n.dwell_fired || fires_at n n.state r.0 now_s))
    pub entered : x.0.dwell_entered_s ≡ entered_at n n.state r.0 now_s
    pub paused : x.0.progression_paused ≡ n.progression_paused
    pub sends_offboard : sends 176 x.1 ≡ asks_offboard n r.1
    pub sends_arm : sends 400 x.1 ≡ (warm n && (r.1.arm && n.offboard_requested))
    pub sends_land : sends 21 x.1 ≡ r.1.land
    pub marks :
        dwell_marks x.1 ≡ (if fires_at n n.state r.0 now_s then r.1.current_waypoint ∷ [] else [])
    pub shown : shows_state r.0 x.1 ≡ true
    pub setpoints : contents as_setpoint x.1 ≡ setpoint_of r.1
    pub states : contents as_state x.1 ≡ r.0 ∷ []
    pub waypoints : contents as_waypoint x.1 ≡ r.1.current_waypoint ∷ []

  sends-++ : (k : ℕ) (a b : List Message) → sends k (a ++ b) ≡ sends k a || sends k b
  unfolding sends
  sends-++ k [] b = refl
  sends-++ k (vehicle_command id x y ∷ a) b = ground (arith, sends-++ k a b)
  sends-++ k (_ ∷ a) b = sends-++ k a b

  dwell_marks-++ : (a b : List Message) → dwell_marks a ≡ [] → dwell_marks (a ++ b) ≡ dwell_marks b
  unfolding dwell_marks
  dwell_marks-++ [] b e = refl
  dwell_marks-++ (dwell_event i ∷ a) b e = cc
  dwell_marks-++ (_ ∷ a) b e = dwell_marks-++ a b e

  shows_state-++ :
      (s : MissionState) (a b : List Message)
      → shows_state s b ≡ true
      → shows_state s (a ++ b) ≡ true
  unfolding shows_state
  shows_state-++ s [] b e = e
  shows_state-++ s (mission_state s' ∷ a) b e = ground (arith, shows_state-++ s a b e)
  shows_state-++ s (_ ∷ a) b e = shows_state-++ s a b e

  setpoint_sends :
      (k : ℕ) (p : Option Point) (yaw : F) (ms : List Message)
      → sends k (setpoint_messages p yaw ++ ms) ≡ sends k ms
  unfolding sends
  setpoint_sends k none yaw ms = refl
  setpoint_sends k (some p) yaw ms = refl

  setpoint_marks : (p : Option Point) (yaw : F) → dwell_marks (setpoint_messages p yaw) ≡ []
  unfolding dwell_marks
  setpoint_marks none yaw = refl
  setpoint_marks (some p) yaw = refl

  commands_marks : (cs : List Px4Command) → dwell_marks (map send_command cs) ≡ []
  unfolding dwell_marks
  commands_marks [] = refl
  commands_marks (c ∷ cs) = commands_marks cs

  -- what is sent for the list of commands
  record Sent (cmd : Command) (w o : Bool) (cs : List Px4Command) : Type 0 where
    offboard : sends 176 (map send_command cs) ≡ w && cmd.set_offboard
    arm : sends 400 (map send_command cs) ≡ w && (cmd.arm && o)
    land : sends 21 (map send_command cs) ≡ cmd.land
    latched : any_set_offboard cs ≡ w && cmd.set_offboard

  built : (cmd : Command) (w o : Bool) → Sent cmd w o (build_vehicle_commands cmd w o)
  unfolding build_vehicle_commands sends
  built cmd w o = record {
    offboard = ground arith;
    arm = ground arith;
    land = ground arith;
    latched = ground arith;
  }

  -- what `_publish_dwell_event` does to a node whose state is new already
  record Fired (n : Node) (prev : MissionState) (cmd : Command) (now_s : F)
      (y : Node × List Message) : Type 0 where
    quiet : (k : ℕ) → sends k y.1 ≡ false
    state : y.0.state ≡ n.state
    sm : y.0.sm ≡ n.sm
    warmup : y.0.warmup ≡ n.warmup
    offboard : y.0.offboard_requested ≡ n.offboard_requested
    paused : y.0.progression_paused ≡ n.progression_paused
    entered : y.0.dwell_entered_s ≡ entered_at n prev n.state now_s
    fired :
        y.0.dwell_fired
        ≡ (is_state n.state dwell && (n.dwell_fired || fires_at n prev n.state now_s))
    marks :
        dwell_marks y.1 ≡ (if fires_at n prev n.state now_s then cmd.current_waypoint ∷ [] else [])

  publish-Fired :
      (n : Node) (prev : MissionState) (cmd : Command) (now_s : F)
      → Fired n prev cmd now_s (publish_dwell_event n prev cmd now_s)
  unfolding publish_dwell_event dwell_settle_elapsed sends dwell_marks
  publish-Fired n prev cmd now_s = record {
    quiet = λ k. ground arith;
    state = ground arith;
    sm = ground arith;
    warmup = ground arith;
    offboard = ground arith;
    paused = ground arith;
    entered = ground arith;
    fired = ground arith;
    marks = ground arith;
  }

  patrol_quiet :
      (k : ℕ) (n : Node) (cmd : Command) (ms : List Message)
      → sends k (publish_patrol n cmd ++ ms) ≡ sends k ms
  unfolding publish_patrol sends
  patrol_quiet k n cmd ms = refl

  patrol_marks :
      (n : Node) (cmd : Command) (ms : List Message)
      → dwell_marks (publish_patrol n cmd ++ ms) ≡ dwell_marks ms
  unfolding publish_patrol dwell_marks
  patrol_marks n cmd ms = refl

  patrol_shows :
      (n : Node) (cmd : Command) (ms : List Message)
      → shows_state n.state (publish_patrol n cmd ++ ms) ≡ true
  unfolding publish_patrol shows_state
  patrol_shows n cmd ms = ground arith

  -- all that is published, from the parts
  sent_all :
      (k : ℕ) (p : Option Point) (yaw : F) (cs : List Px4Command) (n : Node) (cmd : Command)
      (ms : List Message)
      → sends k ms ≡ false
      → sends k ((setpoint_messages p yaw ++ map send_command cs) ++ (publish_patrol n cmd ++ ms))
        ≡ sends k (map send_command cs)
  sent_all k p yaw cs n cmd ms q = ground (
    arith,
    q,
    sends-++ k (setpoint_messages p yaw ++ map send_command cs) (publish_patrol n cmd ++ ms),
    setpoint_sends k p yaw (map send_command cs),
    patrol_quiet k n cmd ms,
  )

  marks_all :
      (p : Option Point) (yaw : F) (cs : List Px4Command) (n : Node) (cmd : Command)
      (ms : List Message)
      → dwell_marks
          ((setpoint_messages p yaw ++ map send_command cs) ++ (publish_patrol n cmd ++ ms))
        ≡ dwell_marks ms
  marks_all p yaw cs n cmd ms =
      dwell_marks-++ (setpoint_messages p yaw ++ map send_command cs) _
        (dwell_marks-++ (setpoint_messages p yaw) _ (setpoint_marks p yaw) ∙ commands_marks cs)
      ∙ patrol_marks n cmd ms

  pub after_tick-Effects :
      (n : Node) (now_s : F) (r : Step) → Effects n now_s r (after_tick n now_s r)
  unfolding after_tick issue
  after_tick-Effects n now_s (s, c, m) =
      let cs = build_vehicle_commands c (warm n) n.offboard_requested in
      let b = built c (warm n) n.offboard_requested in
      let n' = (issue (record n { state = s; sm = m }) c).0 in
      let f = publish-Fired n' n.state c now_s in
      let ms = (publish_dwell_event n' n.state c now_s).1 in
      let shown_by =
        λ (A : Type 0) (read : Message → Option A) (h : (i : ℤ) → read (dwell_event i) ≡ none)
            (k : (id : ℕ) (x y : F) → read (vehicle_command id x y) ≡ none).
          contents_all read (setpoint_messages c.setpoint_ned c.yaw) (map send_command cs)
            (publish_patrol n' c) ms (commands-contents read cs k)
            (fired-contents read n' n.state c now_s h) in
      let parts = setpoint-contents c n' in
      record {
        setpoints = shown_by (Point × F) as_setpoint (λ i. refl) (λ id x y. refl) ∙ parts.0;
        states = shown_by MissionState as_state (λ i. refl) (λ id x y. refl) ∙ parts.1;
        waypoints = shown_by ℤ as_waypoint (λ i. refl) (λ id x y. refl) ∙ parts.2;
        state = ground (arith, f.state);
        sm = ground (arith, f.sm);
        warmup = ground (arith, f.warmup);
        offboard = ground (arith, f.offboard, b.latched);
        fired = ground (arith, f.fired);
        entered = ground (arith, f.entered);
        paused = ground (arith, f.paused);
        sends_offboard = sent_all 176 c.setpoint_ned c.yaw cs n' c ms (f.quiet 176) ∙ b.offboard;
        sends_arm = sent_all 400 c.setpoint_ned c.yaw cs n' c ms (f.quiet 400) ∙ b.arm;
        sends_land = sent_all 21 c.setpoint_ned c.yaw cs n' c ms (f.quiet 21) ∙ b.land;
        marks = marks_all c.setpoint_ned c.yaw cs n' c ms ∙ f.marks;
        shown =
            shows_state-++ s (setpoint_messages c.setpoint_ned c.yaw ++ map send_command cs) _
              (patrol_shows n' c ms);
      }
