-- ===== src/Mission/Node/Arming.antt =====
-- node.py, `_issue` and `_on_tick`, with commands.py: the order in which the vehicle is commanded.
use patrol_drone.Prelude.{
  ◌||◌, arith, List, ℕ, ◌≤◌, Bool, ◌≡◌, false, ◌∷◌, [], true, if◌then◌else◌, Ensures, refl, ◌⊎◌,
  ◌+◌, inl, inr, Ensures-map, ok,
}
use patrol_drone.Float.{Float}
use patrol_drone.Mission.Node.{Node, Event, init_node}
use patrol_drone.Mission.Node.Effects.{sends, shows_state}
use patrol_drone.Mission.Node.Drive.{Invariant, drive, fresh, drive-keeps, init_node-IsNew, Safe}
use patrol_drone.Mission.States.{MissionState}
use patrol_drone.Mission.Messages.{Message, keepalive, offboard_stream_warmup_ticks, mission_state}
use patrol_drone.Mission.Config.{MissionConfig}

module _ ⦃fl : Float⦄ where
  open fl use {F}

  abbrev has_state : List Message → Bool
  has_state [] = false
  has_state (mission_state s ∷ ms) = true
  has_state (_ ∷ ms) = has_state ms

  -- how many callbacks have published a mission state: the progressed ticks
  unfoldable pub progressed_ticks : List (List Message) → ℕ
  progressed_ticks [] = 0
  progressed_ticks (ms ∷ log) =
      let rest = progressed_ticks log in if has_state ms then rest + 1 else rest

  -- SET_OFFBOARD has been sent
  unfoldable pub asked_offboard : List (List Message) → Bool
  asked_offboard [] = false
  asked_offboard (ms ∷ log) = sends 176 ms || asked_offboard log

  -- Every SET_OFFBOARD and every ARM in the log has enough progressed ticks before it, and every ARM
  -- has a SET_OFFBOARD before it, of an earlier callback.
  abbrev pub Ordered : List (List Message) → Type 0
  Ordered [] = Unit
  Ordered (ms ∷ log) =
      (sends 176 ms ≡ true → offboard_stream_warmup_ticks ≤ progressed_ticks log)
      × (sends 400 ms ≡ true
          → (offboard_stream_warmup_ticks ≤ progressed_ticks log) × (asked_offboard log ≡ true))
      × Ordered log

  record Armed (n : Node) (log : List (List Message)) : Type 0 where
    counted : n.warmup ≤ progressed_ticks log
    latched : n.offboard_requested ≡ true → asked_offboard log ≡ true
    ordered : Ordered log

  shows-has : (s : MissionState) (ms : List Message) → shows_state s ms ≡ true → has_state ms ≡ true
  unfolding shows_state
  shows-has s [] e = e
  shows-has s (mission_state s' ∷ ms) e = refl
  shows-has s (_ ∷ ms) e = shows-has s ms e

  keepalive_sends : (k : ℕ) (ms : List Message) → sends k (keepalive ∷ ms) ≡ sends k ms
  unfolding sends
  keepalive_sends k ms = refl

  idle_sends :
      (k : ℕ) (ms : List Message)
      → (ms ≡ []) ⊎ (ms ≡ keepalive ∷ [])
      → (sends k ms ≡ false) × (has_state ms ≡ false)
  unfolding sends
  idle_sends k ms h = elim h [ inl e ↦ rw e (refl, refl) | inr e ↦ rw e (refl, refl) ]

  Armed-Invariant : Invariant Armed
  unfolding progressed_ticks asked_offboard
  Armed-Invariant = record {
    idles = λ n n' log ms same e a. record {
      counted = ground (arith, a.counted, same.warmup, idle_sends 400 ms e);
      latched = ground (arith, a.latched, same.offboard, idle_sends 176 ms e);
      ordered = (
        λ h. ground (arith, h, idle_sends 176 ms e),
        λ h. absurd (ground (arith, h, idle_sends 400 ms e)),
        a.ordered,
      );
    };
    restarts = λ n log a. record { counted = a.counted; latched = a.latched; ordered = a.ordered };
    progresses = λ n t now_s r x log v e f a. record {
      counted = ground (arith, a.counted, f.warmup, shows-has r.0 x.1 f.shown);
      latched = ground (arith, a.latched, f.offboard, f.sends_offboard, keepalive_sends 176 x.1);
      ordered = (
        λ h. ground (arith, h, a.counted, f.sends_offboard, keepalive_sends 176 x.1),
        λ h. ground (arith, h, a.counted, a.latched, f.sends_arm, keepalive_sends 400 x.1),
        a.ordered,
      );
    };
  }

  -- However the callbacks of a newly built node interleave, and whatever they carry, none raises; and
  -- among what they publish, a SET_OFFBOARD or an ARM comes only after ten ticks that progressed the
  -- mission, and an ARM only after a SET_OFFBOARD that an earlier callback sent.
  pub drive-Ordered :
      (cfg : MissionConfig) (n : Node) (es : List (F × Event))
      → init_node cfg ≡ ok n
      → Ensures (λ d. Ordered d.sent) (drive (fresh n) es)
  unfolding progressed_ticks asked_offboard
  drive-Ordered cfg n es e =
      let (m, new, v) = init_node-IsNew cfg n e in
      Ensures-map (λ d. Safe d.node × Armed d.node d.sent) (λ d. Ordered d.sent)
        (drive (fresh n) es) (λ d _ k. k.1.ordered)
        (drive-keeps Armed Armed-Invariant (fresh n) es (ground (arith, new, v)) (record {
          counted = ground (arith, new);
          latched = λ h. ground (arith, new, h);
          ordered = tt;
        }))
