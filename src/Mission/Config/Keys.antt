-- ===== src/Mission/Config/Keys.antt =====
-- config.py: the subscripts `w["…"]` stand behind the check of the waypoint's keys.
use patrol_drone.Prelude.{
  ◌&&◌, ◌||◌, ◌∷◌, ◌>>=◌, arith, List, Result, Option, Bool, String, ◌≡◌, ok, or_raise, if_cases,
  err, true, not, some, [], Bool-cases, refl, inl, false≢true, inr, subst, sym, none, false,
}
use patrol_drone.Float.{Float}
use patrol_drone.Mission.Config.Waypoints.{
  from_checkpoint, inline, check_waypoint_keys, WaypointShape, parse_waypoint, inline_waypoint,
  checkpoint_waypoint, waypoint_shape, inline_waypoint_keys, checkpoint_waypoint_keys, parse_shaped,
}
use text.Mathlib.Text.{◌==◌}
use text.Mathlib.TextEquality.{eq_iff}
use patrol_drone.Mission.Config.Yaml.{
  require, coord, require_mapping, number, point, finite, Fields, require_list, Refusal,
  validate_frame, ConfigError, Yaml, refuse_if, within, key_error, refuse, get, not_finite, str,
  value_error, mapping, integer, has, keys, contains, sequence, missing_field, subscript,
  unknown_frame, unknown_key, entry, unknown_checkpoint, real, no_fields, finite_or, overflow_error,
  not_number,
}
use patrol_drone.Mission.Config.Checkpoints.{checkpoint_id, Positions, position_of}
use patrol_drone.Mission.Config.{Approach}

abbrev pub IsKeyError : ConfigError → Type 0
IsKeyError key_error = Unit
IsKeyError _ = ⊥

-- The code does not raise a KeyError.
abbrev pub Spares : {A : Type 0} → Result ConfigError A → Type 0
Spares (ok a) = Unit
Spares (err e) = IsKeyError e → ⊥

Spares-step :
    {A B : Type 0} (m : Result ConfigError A) (f : A → Result ConfigError B)
    → Spares m
    → ((a : A) → m ≡ ok a → Spares (f a))
    → Spares (m >>= f)
Spares-step (ok a) f h k = k a refl
Spares-step (err e) f h k = h

refuse_if-Spares : (b : Bool) (r : Refusal) → Spares (refuse_if b r)
refuse_if-Spares true r = λ h. h
refuse_if-Spares false r = tt

or_raise-Spares : {A : Type 0} (o : Option A) (r : Refusal) → Spares (or_raise o (value_error r))
or_raise-Spares none r = λ h. h
or_raise-Spares (some a) r = tt

contains-within :
    (xs ys : List String) (k : String)
    → within xs ys ≡ true
    → contains xs k ≡ true
    → contains ys k ≡ true
contains-within [] ys k h e = cc
contains-within (x ∷ xs) ys k h e = elim (Bool-cases (k == x)) [
  | inl same ↦
      let eq : k ≡ x = (eq_iff k x).0 same in
      subst (λ z. contains ys z ≡ true) (sym eq) (ground (arith, h))
  | inr new ↦ contains-within xs ys k (ground (arith, h)) (ground (arith, new, e))
]

module _ ⦃fl : Float⦄ where
  open fl use {F, is_finite, of_int, of_text}

  get-contains :
      (fs : Fields) (k : String) → contains (keys fs) k ≡ true → (v : Yaml) × (get k fs ≡ some v)
  get-contains no_fields k h = absurd (false≢true h)
  get-contains (entry x v fs) k h = elim (Bool-cases (k == x)) [
    | inl same ↦ (v, rw same refl)
    | inr new ↦ let (v', e) = get-contains fs k (ground (arith, new, h)) in (v', rw new e)
  ]

  subscript-Spares :
      (w : Fields) (allowed : List String) (k : String)
      → within allowed (keys w) ≡ true
      → contains allowed k ≡ true
      → Spares (subscript w k)
  subscript-Spares w allowed k h e =
      let (v, e') = get-contains w k (contains-within allowed (keys w) k h e) in rw e' tt

  require-Spares : (fs : Fields) (k : String) → Spares (require fs k)
  unfolding require
  require-Spares fs k = or_raise-Spares (get k fs) missing_field

  require_mapping-Spares : (v : Yaml) → Spares (require_mapping v)
  unfolding require_mapping
  require_mapping-Spares (mapping fs) = tt
  require_mapping-Spares _ = λ h. h

  require_list-Spares : (v : Yaml) → Spares (require_list v)
  unfolding require_list
  require_list-Spares (sequence fs) = tt
  require_list-Spares _ = λ h. h

  finite-Spares : (x : F) → Spares (finite x)
  unfolding finite
  finite-Spares x = if_cases Spares (is_finite x) (ok x) (refuse not_finite) (λ _. tt) (λ _ h. h)

  finite_or-Spares : (o : Option F) (e : ConfigError) → (IsKeyError e → ⊥) → Spares (finite_or o e)
  unfolding finite_or
  finite_or-Spares none e h = h
  finite_or-Spares (some x) e h = finite-Spares x

  number-Spares : (v : Yaml) → Spares (number v)
  unfolding number
  number-Spares (integer n) = finite_or-Spares (of_int n) overflow_error (λ h. h)
  number-Spares (str s) = finite_or-Spares (of_text s) (value_error not_number) (λ h. h)
  number-Spares (real x) = finite-Spares x
  number-Spares _ = λ h. h

  validate_frame-Spares : (v : Yaml) → Spares (validate_frame v)
  unfolding validate_frame
  validate_frame-Spares (str s) =
      if_cases Spares (contains ("enu" ∷ "ned" ∷ []) s) (ok s) (refuse unknown_frame) (λ _. tt)
        (λ _ h. h)
  validate_frame-Spares _ = λ h. h

  coord-Spares : (p : Fields) (axis : String) → Spares (coord p axis)
  unfolding coord
  coord-Spares p axis =
      Spares-step (require p axis) number (require-Spares p axis) (λ v _. number-Spares v)

  point-Spares : (v : Yaml) → Spares (point v)
  unfolding point
  point-Spares v = Spares-step (require_mapping v) _ (require_mapping-Spares v) (λ p _.
      Spares-step (coord p "x") _ (coord-Spares p "x") (λ x _.
        Spares-step (coord p "y") _ (coord-Spares p "y")
          (λ y _. Spares-step (coord p "z") _ (coord-Spares p "z") (λ z _. tt))))

  checkpoint_id-Spares : (v : Yaml) → Spares (checkpoint_id v)
  unfolding checkpoint_id
  checkpoint_id-Spares (str s) = tt
  checkpoint_id-Spares _ = λ h. h

  waypoint_shape-Spares : (w : Fields) → Spares (waypoint_shape w)
  unfolding waypoint_shape
  waypoint_shape-Spares w =
      if_cases Spares (has w "checkpoint_id" && (has w "position" || has w "frame")) _ _ (λ _ h. h)
        (λ _.
          if_cases Spares (has w "checkpoint_id") _ _ (λ _. tt)
            (λ _. if_cases Spares (has w "position" || has w "frame") _ _ (λ _. tt) (λ _ h. h)))

  check_waypoint_keys-Spares :
      (w : Fields) (allowed : List String) → Spares (check_waypoint_keys w allowed)
  unfolding check_waypoint_keys
  check_waypoint_keys-Spares w allowed =
      Spares-step (refuse_if (not (within allowed (keys w))) missing_field) _
        (refuse_if-Spares _ missing_field)
        (λ _ _. refuse_if-Spares (not (within (keys w) allowed)) unknown_key)

  check_waypoint_keys-within :
      (w : Fields) (allowed : List String)
      → check_waypoint_keys w allowed ≡ ok tt
      → within allowed (keys w) ≡ true
  unfolding check_waypoint_keys
  check_waypoint_keys-within w allowed h = ground (arith, h)

  checkpoint_waypoint-Spares :
      (w : Fields) (ps : Positions) (a : Approach)
      → within checkpoint_waypoint_keys (keys w) ≡ true
      → Spares (checkpoint_waypoint w ps a)
  unfolding checkpoint_waypoint
  checkpoint_waypoint-Spares w ps a h =
      Spares-step (subscript w "checkpoint_id") _
        (subscript-Spares w checkpoint_waypoint_keys "checkpoint_id" h refl)
        (λ id _. Spares-step (checkpoint_id id) _ (checkpoint_id-Spares id) (λ cid _.
          Spares-step (or_raise (position_of ps cid) (value_error unknown_checkpoint)) _
            (or_raise-Spares (position_of ps cid) unknown_checkpoint)
            (λ tag _.
              Spares-step (subscript w "dwell_s") _
                (subscript-Spares w checkpoint_waypoint_keys "dwell_s" h refl)
                (λ d _. Spares-step (number d) _ (number-Spares d) (λ _ _. tt)))))

  inline_waypoint-Spares :
      (w : Fields) → within inline_waypoint_keys (keys w) ≡ true → Spares (inline_waypoint w)
  unfolding inline_waypoint
  inline_waypoint-Spares w h =
      Spares-step (subscript w "frame") _ (subscript-Spares w inline_waypoint_keys "frame" h refl)
        (λ f _. Spares-step (validate_frame f) _ (validate_frame-Spares f) (λ frame _.
          Spares-step (subscript w "position") _
            (subscript-Spares w inline_waypoint_keys "position" h refl)
            (λ p _. Spares-step (point p) _ (point-Spares p) (λ _ _.
              Spares-step (subscript w "dwell_s") _
                (subscript-Spares w inline_waypoint_keys "dwell_s" h refl)
                (λ d _. Spares-step (number d) _ (number-Spares d) (λ _ _. tt))))))

  parse_shaped-Spares :
      (s : WaypointShape) (w : Fields) (ps : Positions) (a : Approach)
      → Spares (parse_shaped s w ps a)
  parse_shaped-Spares from_checkpoint w ps a =
      Spares-step (check_waypoint_keys w checkpoint_waypoint_keys) _
        (check_waypoint_keys-Spares w checkpoint_waypoint_keys)
        (λ _ e.
          checkpoint_waypoint-Spares w ps a
            (check_waypoint_keys-within w checkpoint_waypoint_keys e))
  parse_shaped-Spares inline w ps a =
      Spares-step (check_waypoint_keys w inline_waypoint_keys) _
        (check_waypoint_keys-Spares w inline_waypoint_keys)
        (λ _ e. inline_waypoint-Spares w (check_waypoint_keys-within w inline_waypoint_keys e))

  -- Whatever a waypoint of the file holds, its parsing does not raise a KeyError: every key that is
  -- subscripted has been checked to be there.
  pub parse_waypoint-Spares :
      (w : Fields) (ps : Positions) (a : Approach) → Spares (parse_waypoint w ps a)
  unfolding parse_waypoint
  parse_waypoint-Spares w ps a =
      Spares-step (waypoint_shape w) _ (waypoint_shape-Spares w)
        (λ s _. parse_shaped-Spares s w ps a)
