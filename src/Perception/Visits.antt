-- ===== src/Perception/Visits.antt =====
-- coordinator.py over a run of the node's callbacks: the visits that were captured.
use patrol_drone.Prelude.{
  ok, ◌>>=◌, ◌∷◌, Result, Option, String, List, ℤ, ◌≡◌, Permits, subst, ◌≢◌, some, none,
  Permits-bind, [], sym, Permits-map, ◌∙◌,
}
use patrol_drone.Float.{Float}
use patrol_drone.Perception.Coordinator.{
  on_trigger, perceive, Perceived, image_arrives, pose_arrives, detections_arrive, trigger,
  Coordinator, CaptureRecord, Readings, CaptureError,
}
use patrol_drone.Perception.Latch.{Answer, on_trigger-Answer}

module _ ⦃fl : Float⦄ (Image Bytes W : Type 0) (encode : Image → Option Bytes)
    (write : W → CaptureRecord → Bytes → Result CaptureError (W × Option String)) where
  abbrev C : Type 0
  C = Coordinator Image Bytes W encode write

  abbrev E : Type 0
  E = Perceived Image Bytes W encode write

  -- the visits captured, newest first
  abbrev pub captured : E → Option CaptureRecord → List ℤ → List ℤ
  captured (trigger token r) (some msg) visits = token ∷ visits
  captured _ _ visits = visits

  unfoldable pub watch : C → List ℤ → List E → Result CaptureError (C × List ℤ)
  watch c visits [] = ok (c, visits)
  watch c visits (e ∷ es) = do
    (c', msg) ← perceive Image Bytes W encode write c e
    watch c' (captured e msg visits) es

  abbrev pub newest : List ℤ → Option ℤ
  newest [] = none
  newest (x ∷ xs) = some x

  -- No visit is captured twice in a row.
  abbrev pub NoRepeat : List ℤ → Type 0
  NoRepeat [] = Unit
  NoRepeat (x ∷ xs) = (newest xs ≢ some x) × NoRepeat xs

  abbrev Noted : C → List ℤ → Type 0
  Noted c visits = (c.latched_token ≡ newest visits) × NoRepeat visits

  trigger-Noted :
      (c : C) (r : Readings) (token : ℤ) (visits : List ℤ) (c' : C) (o : Option CaptureRecord)
      → Noted c visits
      → Answer Image Bytes W encode write c r token (c', o)
      → Noted c' (captured (trigger token r) o visits)
  trigger-Noted c r token visits c' none n a = subst (λ x. Noted x visits) (sym a) n
  trigger-Noted c r token visits c' (some msg) n a =
      (a.latched, ((λ h. a.fresh_visit (n.0 ∙ h)), n.1))

  perceive-Noted :
      (c : C) (visits : List ℤ) (e : E)
      → Noted c visits
      → Permits (λ x. Noted x.0 (captured e x.1 visits)) (perceive Image Bytes W encode write c e)
  unfolding perceive
  perceive-Noted c visits (image_arrives i now) n = n
  perceive-Noted c visits (pose_arrives p now) n = n
  perceive-Noted c visits (detections_arrive ds now) n = n
  perceive-Noted c visits (trigger token r) n =
      Permits-map (Answer Image Bytes W encode write c r token)
        (λ x. Noted x.0 (captured (trigger token r) x.1 visits))
        (on_trigger Image Bytes W encode write c r token)
        (λ (c', o) a. trigger-Noted c r token visits c' o n a)
        (on_trigger-Answer Image Bytes W encode write c r token)

  watch-Noted :
      (c : C) (visits : List ℤ) (es : List E)
      → Noted c visits
      → Permits (λ x. Noted x.0 x.1) (watch c visits es)
  unfolding watch
  watch-Noted c visits [] n = n
  watch-Noted c visits (e ∷ es) n =
      Permits-bind (λ x. Noted x.0 (captured e x.1 visits)) (λ x. Noted x.0 x.1)
        (perceive Image Bytes W encode write c e) _ (perceive-Noted c visits e n)
        (λ (c', o) k. watch-Noted c' (captured e o visits) es k)

  -- Over any run of the callbacks of a coordinator that has captured nothing, however frames, poses,
  -- detections and triggers interleave and whatever the encoder and the writer do, no visit is
  -- captured twice in a row, for as long as no callback raises.
  pub watch-NoRepeat :
      (c : C) (es : List E) → c.latched_token ≡ none → Permits (λ x. NoRepeat x.1) (watch c [] es)
  watch-NoRepeat c es e =
      Permits-map (λ x. Noted x.0 x.1) (λ x. NoRepeat x.1) (watch c [] es) (λ x n. n.1)
        (watch-Noted c [] es (e, tt))
