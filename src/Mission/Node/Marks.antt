-- ===== src/Mission/Node/Marks.antt =====
-- node.py, `_publish_dwell_event`: the dwell events, which trigger the captures.
use patrol_drone.Prelude.{
  pos, arith, List, ℕ, ℤ, ◌≡◌, ◌≤◌, [], ◌⊎◌, ◌∷◌, inl, if◌then◌else◌, ◌++◌, true, false, inr,
  negsuc, ◌<◌, refl, subst, Bool, ap, sym, ◌∙◌, if_cases, ok, ◌+◌, Ensures-eq, Bool-cases, suc,
  Ensures, Ensures-map,
}
use patrol_drone.Float.{Float}
use patrol_drone.Mission.Node.Effects.{dwell_marks, Effects, fires_at}
use patrol_drone.Mission.Node.{Node, Event, init_node}
use patrol_drone.Mission.Node.Drive.{Invariant, Safe, drive, fresh, init_node-IsNew, drive-keeps}
use patrol_drone.Mission.Machine.{Step, reset_timing, Machine, tick}
use patrol_drone.Mission.Messages.{Message, keepalive}
use patrol_drone.Mission.Machine.Route.{reset-Begun, Begun, Counts, tick-Counts, begins}
use patrol_drone.Mission.States.{is_state, dwell, Telemetry, MissionState}
use patrol_drone.Mission.Machine.Kept.{Fits, shown_waypoint, SameMission, tick-Fits}
use patrol_drone.Mission.Machine.Hold.{is_state-eq}
use patrol_drone.Mission.Config.{MissionConfig}

module _ ⦃fl : Float⦄ where
  open fl use {F}

  -- the waypoints of the dwell events that were sent, newest first
  unfoldable pub marked : List (List Message) → List ℤ
  marked [] = []
  marked (ms ∷ log) = dwell_marks ms ++ marked log

  -- A list of indices below `k`, each above the next.
  abbrev pub Descends : ℕ → List ℤ → Type 0
  Descends k [] = Unit
  Descends k (pos i ∷ is) = (i < k) × Descends i is
  Descends k (negsuc i ∷ is) = ⊥

  record Marked (n : Node) (log : List (List Message)) : Type 0 where
    count : ℕ
    begun : Begun count n.state n.sm
    descends : Descends count (marked log)
    -- a dwell that has not fired has its own index free
    due :
        is_state n.state dwell ≡ true
        → n.dwell_fired ≡ false
        → Descends n.sm.p.waypoint_index (marked log)
    reset : is_state n.state dwell ≡ false → n.dwell_fired ≡ false

  Descends-more : (k k' : ℕ) (is : List ℤ) → k ≤ k' → Descends k is → Descends k' is
  Descends-more k k' [] h d = tt
  Descends-more k k' (pos i ∷ is) h d = (omega (arith, h, d.0), d.1)
  Descends-more k k' (negsuc i ∷ is) h d = d

  idle_marks :
      (ms : List Message) (log : List (List Message))
      → (ms ≡ []) ⊎ (ms ≡ keepalive ∷ [])
      → marked (ms ∷ log) ≡ marked log
  unfolding marked dwell_marks
  idle_marks ms log h = elim h [ inl e ↦ rw e refl | inr e ↦ rw e refl ]

  if_append :
      (b : Bool) (i : ℤ) (is : List ℤ)
      → (if b then i ∷ [] else []) ++ is ≡ (if b then i ∷ is else is)
  if_append true i is = refl
  if_append false i is = refl

  -- the marks of a progressed tick
  step_marks :
      (n : Node) (now_s : F) (r : Step) (x : Node × List Message) (log : List (List Message))
      → Effects n now_s r x
      → marked ((keepalive ∷ x.1) ∷ log)
        ≡ (if fires_at n n.state r.0 now_s then r.1.current_waypoint ∷ marked log else marked log)
  unfolding marked dwell_marks
  step_marks n now_s r x log f =
      ap (λ ms. ms ++ marked log) f.marks
      ∙ if_append (fires_at n n.state r.0 now_s) r.1.current_waypoint (marked log)

  Begun-same :
      (k : ℕ) {s s' : MissionState} {m m' : Machine} → s' ≡ s → m' ≡ m → Begun k s m → Begun k s' m'
  Begun-same k {s} {s'} {m} {m'} e e' b =
      subst (λ z. Begun k z m') (sym e) (subst (λ z. Begun k s z) (sym e') b)

  Begun-dwell :
      (k : ℕ) (s : MissionState) (m : Machine)
      → is_state s dwell ≡ true
      → Begun k s m
      → k ≡ m.p.waypoint_index + 1
  Begun-dwell k s m e b = subst (λ z. Begun k z m) (is_state-eq s dwell e) b

  shown_dwell :
      (s : MissionState) (r : Step)
      → is_state r.0 dwell ≡ true
      → Fits s r
      → r.1.current_waypoint ≡ pos r.2.p.waypoint_index
  shown_dwell s r e f = f.waypoint_shown ∙ ap (λ z. shown_waypoint z r.2) (is_state-eq r.0 dwell e)

  Descends-if :
      (b : Bool) (k : ℕ) (i : ℤ) (is : List ℤ)
      → (b ≡ true → Descends k (i ∷ is))
      → (b ≡ false → Descends k is)
      → Descends k (if b then i ∷ is else is)
  Descends-if b k i is = if_cases (Descends k) b (i ∷ is) is

  Descends-pos :
      (k i : ℕ) (z : ℤ) (is : List ℤ) → z ≡ pos i → i < k → Descends i is → Descends k (z ∷ is)
  Descends-pos k i z is e h d = subst (λ y. Descends k (y ∷ is)) (sym e) (h, d)

  -- What the node has after a progressed tick, from the count that the machine then has.
  next :
      (k : ℕ) (n : Node) (now_s : F) (r : Step) (x : Node × List Message)
      (log : List (List Message))
      → Effects n now_s r x
      → Fits n.state r
      → Begun k r.0 r.2
      → Descends k (marked log)
      → (is_state r.0 dwell ≡ true
          → n.dwell_fired ≡ false
          → Descends r.2.p.waypoint_index (marked log))
      → Marked x.0 ((keepalive ∷ x.1) ∷ log)
  next k n now_s r x log f fits b d due =
      let fires = fires_at n n.state r.0 now_s in
      let L = step_marks n now_s r x log f in
      record {
        count = k;
        begun = Begun-same k f.state f.sm b;
        descends = subst (Descends k) (sym L) (
            Descends-if fires k r.1.current_waypoint (marked log)
              (λ h.
                let in_dwell : is_state r.0 dwell ≡ true = ground (arith, h) in
                let i = Begun-dwell k r.0 r.2 in_dwell b in
                Descends-pos k r.2.p.waypoint_index r.1.current_waypoint (marked log)
                  (shown_dwell n.state r in_dwell fits) (omega (arith, i))
                  (due in_dwell (ground (arith, h))))
              (λ _. d));
        due = λ h q. subst (Descends x.0.sm.p.waypoint_index) (sym L) (
            Descends-if fires _ r.1.current_waypoint (marked log)
              (λ fire. absurd (ground (arith, fire, f.fired, q)))
              (λ _.
                subst (λ m. Descends m.p.waypoint_index (marked log)) (sym f.sm)
                  (due (ground (arith, h, f.state)) (ground (arith, h, q, f.fired, f.state)))));
        reset = λ h. ground (arith, h, f.fired, f.state);
      }

  -- A progressed tick, in three cases: it begins a dwell, stays in one, or ends outside DWELL.
  next-Marked :
      (n : Node) (t : Telemetry) (now_s : F) (r : Step) (x : Node × List Message)
      (log : List (List Message))
      → Safe n
      → tick n.sm n.state t ≡ ok r
      → Effects n now_s r x
      → Marked n log
      → Marked x.0 ((keepalive ∷ x.1) ∷ log)
  next-Marked n t now_s r x log v e f a =
      let c : Counts a.count n.state n.sm r =
        Ensures-eq (Counts a.count n.state n.sm) (tick n.sm n.state t) e
          (tick-Counts a.count n.state n.sm t v a.begun) in
      let fits =
        (Ensures-eq (λ r. SameMission n.sm r.2 × Fits n.state r) (tick n.sm n.state t) e
          (tick-Fits n.state n.sm t v)).1 in
      elim (Bool-cases (begins n.state r.0)) [
        | inl new ↦
            let c' : Begun (suc a.count) r.0 r.2 × (r.2.p.waypoint_index ≡ a.count) =
              (rw new at c) in
            next (suc a.count) n now_s r x log f fits c'.0
              (Descends-more a.count (suc a.count) (marked log) (omega arith) a.descends)
              (λ _ _. subst (λ i. Descends i (marked log)) (sym c'.1) a.descends)
        | inr old ↦
            let c' : Begun a.count r.0 r.2 = (rw old at c) in
            next a.count n now_s r x log f fits c' a.descends (λ h q.
              let h' : is_state n.state dwell ≡ true = ground (arith, h, old) in
              let i = Begun-dwell a.count n.state n.sm h' a.begun in
              let i' = Begun-dwell a.count r.0 r.2 h c' in
              subst (λ i. Descends i (marked log)) (omega (arith, i, i')) (a.due h' q))
      ]

  Marked-Invariant : Invariant Marked
  Marked-Invariant = record {
    idles = λ n n' log ms same e a. record {
      count = a.count;
      begun = Begun-same a.count same.state same.sm a.begun;
      descends = subst (Descends a.count) (sym (idle_marks ms log e)) a.descends;
      due = λ h k. subst (Descends n'.sm.p.waypoint_index) (sym (idle_marks ms log e)) (
          subst (λ i. Descends i (marked log)) (ap (λ m. m.p.waypoint_index) (sym same.sm))
            (a.due (cc (same.state, h)) (cc (same.fired, k))));
      reset = ground (arith, a.reset, same.fired, same.state);
    };
    restarts = λ n log a. record {
      count = a.count;
      begun = reset-Begun a.count n.state n.sm a.begun;
      descends = a.descends;
      due = unfold reset_timing in a.due;
      reset = a.reset;
    };
    progresses = next-Marked;
  }

  -- However the callbacks of a newly built node interleave, none raises, and the dwell events that
  -- they publish carry strictly increasing waypoint indices (newest first, a list in which each is
  -- above the next): a waypoint has at most one.
  pub drive-marks :
      (cfg : MissionConfig) (n : Node) (es : List (F × Event))
      → init_node cfg ≡ ok n
      → Ensures (λ d. (k : ℕ) × Descends k (marked d.sent)) (drive (fresh n) es)
  unfolding marked
  drive-marks cfg n es e =
      let (m, new, v) = init_node-IsNew cfg n e in
      Ensures-map (λ d. Safe d.node × Marked d.node d.sent)
        (λ d. (k : ℕ) × Descends k (marked d.sent)) (drive (fresh n) es)
        (λ d _ k. (k.1.count, k.1.descends))
        (drive-keeps Marked Marked-Invariant (fresh n) es (ground (arith, new, v)) (
          subst (λ z. Marked z []) (sym new)
            (record {
              count = 0;
              begun = refl;
              descends = tt;
              due = λ h. absurd (ground (arith, h));
              reset = λ _. refl;
            })))
