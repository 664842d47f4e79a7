-- ===== src/Perception/Latch.antt =====
-- coordinator.py, `on_trigger`: what a published capture rests on, and that a visit has one.
use patrol_drone.Prelude.{
  ok, err, Result, arith, Option, String, List, ℤ, ◌≡◌, false, some, ◌∷◌, none, ◌≢◌, true,
  Bool-cases, inl, ok, inr, [], Option-cases, Permits, refl, Permits-step, if_cases, Permits-after,
  Permits-bind, ap, ◌∙◌,
}
use text.Mathlib.Text.{◌==◌}
use patrol_drone.Float.{Float}
use patrol_drone.Perception.Coordinator.{
  CaptureError, on_trigger, written, record_of, visit_metadata, on_resolved, on_sample, on_view,
  sample_world, on_trigger, first_detection, persist, capture, CaptureRecord, Coordinator, Readings,
  Settings, fresh_head, is_fresh, build_message, is_latched,
}
use patrol_drone.Perception.Samplers.{Time, latest_at, update, PoseSample}
use patrol_drone.Perception.Resolver.{
  Detection, CheckpointEntry, entry_of, families_match, resolve, Metadata, ResolverError,
}

module _ ⦃fl : Float⦄ (Image Bytes W : Type 0) (encode : Image → Option Bytes)
    (write : W → CaptureRecord → Bytes → Result CaptureError (W × Option String)) where
  abbrev C : Type 0
  C = Coordinator Image Bytes W encode write

  -- the tag in view: the first detection of a buffer that is fresh
  abbrev pub InView : C → Time → Detection → Type 0
  InView c now d =
      (ds : List Detection) × (t : Time) × (c.detections.value ≡ some (d ∷ ds))
      × (c.detections.received_at ≡ some t)
      × (is_fresh now t c.settings.detection_s ≡ true)

  -- the checkpoint that the configuration has for the tag
  abbrev pub Resolved : C → Detection → String → Type 0
  Resolved c d cid =
      (e : CheckpointEntry) × (entry_of c.settings.entries d.id ≡ some e)
      × (families_match d.family e.tag_family ≡ true)
      × (cid ≡ e.checkpoint_id)

  -- What a trigger leads to: nothing, with everything as it was; or a capture that is justified.
  pub record Captured (c : C) (r : Readings) (token : ℤ) (c' : C) (msg : CaptureRecord)
      : Type 0 where
    pub tag : Detection
    pub in_view : InView c r.at_detection tag
    pub resolved : Resolved c tag msg.checkpoint_id
    pub named : (msg.checkpoint_id == "") ≡ false
    pub latched : c'.latched_token ≡ some token
    pub cleared : c'.detections.value ≡ none
    pub fresh_visit : c.latched_token ≢ some token

  abbrev pub Answer : C → Readings → ℤ → C × Option CaptureRecord → Type 0
  Answer c r token (c', none) = c' ≡ c
  Answer c r token (c', some msg) = Captured c r token c' msg

  head_lem :
      (s : Settings) (now : Time) (v : Option (List Detection)) (t : Option Time) (d : Detection)
      → fresh_head s now (latest_at (record { value = v; received_at = t })) ≡ some d
      → (ds : List Detection) × (u : Time) × (v ≡ some (d ∷ ds))
        × (t ≡ some u)
        × (is_fresh now u s.detection_s ≡ true)
  unfolding latest_at
  head_lem s now none t d e = cc
  head_lem s now (some v) none d e = cc
  head_lem s now (some []) (some t) d e = cc
  head_lem s now (some (x ∷ xs)) (some t) d e = elim (Bool-cases (is_fresh now t s.detection_s)) [
    | inl f ↦ (xs, t, cc (rw f at e), refl, f)
    | inr f ↦ cc (rw f at e)
  ]

  pub first_detection-InView :
      (c : C) (now : Time) (d : Detection)
      → first_detection Image Bytes W encode write c now ≡ some d
      → InView c now d
  unfolding first_detection
  first_detection-InView c now d e =
      head_lem c.settings now c.detections.value c.detections.received_at d e

  pub resolve-Resolved :
      (c : C) (d : Detection) (cid : String) (ms : Metadata)
      → resolve c.settings.entries d ≡ ok (cid, ms)
      → Resolved c d cid
  unfolding resolve
  resolve-Resolved c d cid ms h = elim (Option-cases (entry_of c.settings.entries d.id)) [
    | inl n ↦ ground (arith, n, h)
    | inr (x, n) ↦ (x, n, ground (arith, n, h), ground (arith, n, h))
  ]

  not_latched : (o : Option ℤ) (token : ℤ) → is_latched o token ≡ false → o ≢ some token
  not_latched none token e h = cc
  not_latched (some t) token e h = ground (arith, e, h)

  written-checkpoint_id :
      (rec : CaptureRecord) (path : Option String)
      → (written Image Bytes W encode write rec path).checkpoint_id ≡ rec.checkpoint_id
  written-checkpoint_id rec none = refl
  written-checkpoint_id rec (some path) = refl

  -- what is stored has the checkpoint of the record
  abbrev pub SameCheckpoint : CaptureRecord → Option W × CaptureRecord → Type 0
  SameCheckpoint rec out = out.1.checkpoint_id ≡ rec.checkpoint_id

  pub persist-SameCheckpoint :
      (o : Option W) (rec : CaptureRecord) (b : Bytes)
      → Permits (SameCheckpoint rec) (persist Image Bytes W encode write o rec b)
  unfolding persist
  persist-SameCheckpoint none rec b = refl
  persist-SameCheckpoint (some w) rec b =
      Permits-after (SameCheckpoint rec) (write w rec b) _ λ out. written-checkpoint_id rec out.1

  pub build_message-same :
      (rec msg : CaptureRecord)
      → build_message rec ≡ ok msg
      → (msg ≡ rec) × ((rec.checkpoint_id == "") ≡ false)
  unfolding build_message
  build_message-same rec msg e = elim (Bool-cases (rec.checkpoint_id == "")) [
    | inl h ↦ cc (rw h at e)
    | inr h ↦ (cc (rw h at e), h)
  ]

  capture-Answer :
      (c : C) (r : Readings) (token : ℤ) (d : Detection) (cid : String) (ms : Metadata) (b : Bytes)
      (p : PoseSample)
      → InView c r.at_detection d
      → Resolved c d cid
      → c.latched_token ≢ some token
      → Permits (Answer c r token) (capture Image Bytes W encode write c r token cid ms b p)
  unfolding capture update
  capture-Answer c r token d cid ms b p v (x, e, fam, same) n =
      let rec =
        record_of Image Bytes W encode write cid
          (visit_metadata Image Bytes W encode write c.settings token ms) p r.at_emit in
      Permits-bind (SameCheckpoint rec) (Answer c r token)
        (persist Image Bytes W encode write c.writer rec b) _
        (persist-SameCheckpoint c.writer rec b)
        λ stored kept. Permits-step (Answer c r token) (build_message stored.1) _ (λ msg h.
          let (eq, full) = build_message-same stored.1 msg h in
          let named : msg.checkpoint_id ≡ cid = ap (λ z. z.checkpoint_id) eq ∙ kept in
          record {
            tag = d;
            in_view = v;
            resolved = (x, e, fam, named ∙ same);
            named = ap (λ z. z.checkpoint_id == "") eq ∙ full;
            latched = refl;
            cleared = refl;
            fresh_visit = n;
          })

  on_resolved-Answer :
      (c : C) (r : Readings) (token : ℤ) (d : Detection) (b : Bytes) (p : PoseSample)
      (q : Result ResolverError (String × Metadata))
      → resolve c.settings.entries d ≡ q
      → InView c r.at_detection d
      → c.latched_token ≢ some token
      → Permits (Answer c r token) (on_resolved Image Bytes W encode write c r token b p q)
  on_resolved-Answer c r token d b p (err x) e v n = refl
  on_resolved-Answer c r token d b p (ok (cid, ms)) e v n =
      capture-Answer c r token d cid ms b p v (resolve-Resolved c d cid ms e) n

  on_sample-Answer :
      (c : C) (r : Readings) (token : ℤ) (d : Detection) (o : Option (Bytes × PoseSample))
      → InView c r.at_detection d
      → c.latched_token ≢ some token
      → Permits (Answer c r token) (on_sample Image Bytes W encode write c r token d o)
  on_sample-Answer c r token d none v n = refl
  on_sample-Answer c r token d (some (b, p)) v n =
      on_resolved-Answer c r token d b p (resolve c.settings.entries d) refl v n

  on_view-Answer :
      (c : C) (r : Readings) (token : ℤ) (o : Option Detection)
      → first_detection Image Bytes W encode write c r.at_detection ≡ o
      → c.latched_token ≢ some token
      → Permits (Answer c r token) (on_view Image Bytes W encode write c r token o)
  on_view-Answer c r token none e n = refl
  on_view-Answer c r token (some d) e n =
      Permits-after (Answer c r token) (sample_world Image Bytes W encode write c r) _
        (λ o. on_sample-Answer c r token d o (first_detection-InView c r.at_detection d e) n)

  -- A trigger that does not raise either publishes nothing and leaves the coordinator as it was, so
  -- that the visit can be retried; or it publishes a capture, and then the visit had not been captured
  -- last, a tag was in view in a fresh buffer, the capture's checkpoint is the (non-empty) one that the
  -- configuration has for that tag in a matching family, the visit is latched and the buffer cleared.
  pub on_trigger-Answer :
      (c : C) (r : Readings) (token : ℤ)
      → Permits (Answer c r token) (on_trigger Image Bytes W encode write c r token)
  unfolding on_trigger
  on_trigger-Answer c r token =
      if_cases (Permits (Answer c r token)) (is_latched c.latched_token token) (ok (c, none))
        (on_view Image Bytes W encode write c r token
          (first_detection Image Bytes W encode write c r.at_detection))
        (λ _. refl)
        (λ e.
          on_view-Answer c r token (first_detection Image Bytes W encode write c r.at_detection)
            refl (not_latched c.latched_token token e))
