-- ===== src/Bags/Recorder/Names.antt =====
-- recorder.py: an accepted run id and the name of a bag are single components of a path.
use Prim.Native.Char.{code}
use text.Mathlib.Text.{◌==◌}
use Prim.Native.String.{count}
use text.Mathlib.TextEquality.{eq_iff}
use text.Mathlib.TextLemmas.{cons-ne-nil, length-append, nil-append, cons-append}
use patrol_drone.Prelude.{
  ℕ, Bool, true, false, ◌||◌, String, [], ◌∷◌, ◌≡◌, ◌≢◌, refl, ◌∙◌, ap, ok, arith, raise_if, ◌>>◌,
  ◌>>=◌, ◌<◌, if_cases,
}
use patrol_drone.Bags.Text.{
  ◌<>◌, strip, is_empty, any_char, is_slash, split_slashes, path_parts, is_absolute,
}
use patrol_drone.Bags.Dates.{Dates, DatesLaws}
use patrol_drone.Bags.Disk.{value_error}
use patrol_drone.Bags.Disk.Lookup.{==-ne}
use patrol_drone.Bags.Recorder.{
  is_fs_safe, collapse_unsafe, sanitize_mission_id, first_failed, run_id_rejection, validate_run_id,
  is_some, bag_name, must_be_non_empty, surrounding_space, path_separator, relative_component,
}

split_slashes-none : (s : String) → any_char is_slash s ≡ false → split_slashes s ≡ s ∷ []
split_slashes-none String.[] h = refl
split_slashes-none (String.◌∷◌ c s) h =
    let ih = split_slashes-none s (ground arith) in ground (arith, ih)

is_absolute-none : (s : String) → any_char is_slash s ≡ false → is_absolute s ≡ false
unfolding is_absolute
is_absolute-none String.[] h = refl
is_absolute-none (String.◌∷◌ c s) h = ground arith

-- A text with no slash, other than the empty one and a dot, is a path of one component.
one_part :
    (s : String)
    → any_char is_slash s ≡ false
    → (s == "") ≡ false
    → (s == ".") ≡ false
    → path_parts s ≡ s ∷ []
unfolding path_parts
one_part s h e d = rw (split_slashes-none s h) (ground arith)

is_empty-eq : (s : String) → is_empty s ≡ false → (s == "") ≡ false
is_empty-eq String.[] h = cc
is_empty-eq (String.◌∷◌ c s) h = ==-ne (String.◌∷◌ c s) "" (cons-ne-nil c s)

all_passed :
    (a b c d : Bool)
    → is_some (
        first_failed (
          (a, must_be_non_empty)
          ∷ (b, surrounding_space)
          ∷ (c, path_separator)
          ∷ (d, relative_component)
          ∷ []))
      ≡ false
    → (a ≡ false) × (b ≡ false) × (c ≡ false) × (d ≡ false)
all_passed a b c d h = ground arith

accepted :
    (b : Bool) (s t : String) → (raise_if b value_error >> ok s) ≡ ok t → (b ≡ false) × (t ≡ s)
accepted true s t h = cc
accepted false s t h = (refl, cc)

or_right : (a b : Bool) → a || b ≡ false → b ≡ false
or_right a b h = ground arith

-- A run id that is accepted is returned as it is; as a path it is one component, relative and not `..`.
pub validate_run_id-IsSegment :
    (run_id t : String)
    → validate_run_id run_id ≡ ok t
    → (t ≡ run_id)
      × (path_parts run_id ≡ run_id ∷ [])
      × (is_absolute run_id ≡ false)
      × (run_id ≢ "..")
unfolding validate_run_id run_id_rejection
validate_run_id-IsSegment run_id t h =
    let passed = accepted (is_some (run_id_rejection run_id)) run_id t h in
    let (full, _, separated, plain) = all_passed _ _ _ _ passed.0 in
    let no_slash : any_char is_slash run_id ≡ false = ground (arith, separated) in
    (
      passed.1,
      one_part run_id no_slash (is_empty-eq run_id (ground (arith, full))) (ground (arith, plain)),
      is_absolute-none run_id no_slash,
      λ e. cc (or_right (run_id == ".") (run_id == "..") plain, (eq_iff run_id "..").1 e),
    )

any_char-append : (p : ℕ → Bool) (s t : String) → any_char p (s <> t) ≡ any_char p s || any_char p t
any_char-append p String.[] t = rw nil-append refl
any_char-append p (String.◌∷◌ c s) t =
    rw (cons-append c s t) (ground (arith, any_char-append p s t))

safe-not_slash : (n : ℕ) → is_fs_safe n ≡ true → is_slash n ≡ false
unfolding is_fs_safe
safe-not_slash n h = ground arith

collapse_unsafe-no_slash :
    (in_run : Bool) (s : String) → any_char is_slash (collapse_unsafe in_run s) ≡ false
unfolding collapse_unsafe
collapse_unsafe-no_slash in_run String.[] = refl
collapse_unsafe-no_slash in_run (String.◌∷◌ c s) =
    let kept = collapse_unsafe-no_slash false s in
    let run = collapse_unsafe-no_slash true s in
    if_cases (λ r. any_char is_slash r ≡ false) (is_fs_safe (code c)) _ _
      (λ e. ground (arith, kept, safe-not_slash (code c) e))
      (λ _.
        if_cases (λ r. any_char is_slash r ≡ false) in_run _ _ (λ _. run)
          (λ _. any_char-append is_slash "_" (collapse_unsafe true s) ∙ run))

module _ ⦃dates : Dates⦄ where
  open dates use {DateTime, bag_stamp}

  no_slash-bag :
      (mission stamp : String)
      → any_char is_slash mission ≡ false
      → any_char is_slash stamp ≡ false
      → any_char is_slash ("patrol_" <> (mission <> ("_" <> stamp))) ≡ false
  no_slash-bag mission stamp h k = ground (
    arith,
    any_char-append is_slash "patrol_" (mission <> ("_" <> stamp)),
    any_char-append is_slash mission ("_" <> stamp),
    any_char-append is_slash "_" stamp,
  )

  long_name : (t s : String) → count s < 7 → (("patrol_" <> t) == s) ≡ false
  long_name t s h =
      ==-ne ("patrol_" <> t) s λ e. omega (arith, ap count e, length-append "patrol_" t)

  named :
      (b : Bool) (mission rest_of name : String)
      → ((raise_if b value_error >> ok mission) >>= λ m. ok ("patrol_" <> (m <> rest_of))) ≡ ok name
      → name ≡ "patrol_" <> (mission <> rest_of)
  named true mission rest_of name h = cc
  named false mission rest_of name h = cc

  -- The name of a bag is one component of a path, whatever characters the mission id holds.
  pub bag_name-IsSegment :
      (laws : DatesLaws) (mission_id : String) (started : DateTime) (name : String)
      → bag_name mission_id started ≡ ok name
      → path_parts name ≡ name ∷ []
  unfolding bag_name sanitize_mission_id
  bag_name-IsSegment laws mission_id started name h =
      let mission = collapse_unsafe false (strip mission_id) in
      let e = named _ mission ("_" <> bag_stamp started) name h in
      let tail_of = mission <> ("_" <> bag_stamp started) in
      rw e (
        one_part ("patrol_" <> tail_of)
          (no_slash-bag mission (bag_stamp started)
            (collapse_unsafe-no_slash false (strip mission_id)) (laws.digits started))
          (long_name tail_of "" (omega arith)) (long_name tail_of "." (omega arith)))
