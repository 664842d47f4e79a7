-- ===== src/Bags/Layout/Contained.antt =====
-- bag_layout.py: a path that the metadata names stays below the directory of its bag.
use text.Mathlib.Text.{◌==◌}
use patrol_drone.Prelude.{
  Bool, true, false, not, ◌&&◌, ◌||◌, String, List, [], ◌∷◌, ◌++◌, ◌≡◌, ◌≢◌, refl, sym, ◌∙◌, ap, ok,
  arith, if◌then◌else◌, raise_if, ◌>>◌, length, length-append,
}
use text.Mathlib.TextEquality.{eq_iff}
use mathlib.Core.List.{append_assoc}
use patrol_drone.Bags.Text.{path_parts, is_absolute}
use patrol_drone.Bags.Disk.{value_error}
use patrol_drone.Bags.Layout.{contained_payload_path, is_empty_list, contains}

abbrev pub parent : List String → List String
parent [] = []
parent (p ∷ ps) = ps

-- Where the parts lead from a directory, both with the innermost name first for the directory.
abbrev pub resolve : List String → List String → List String
resolve base [] = base
resolve base (p ∷ ps) =
    let up = resolve (parent base) ps in
    let down = resolve (p ∷ base) ps in if p == ".." then up else down

not_up : (p : String) → (".." == p) ≡ false → (p == "..") ≡ false
not_up p h = ground (arith, eq_iff ".." p, eq_iff p "..")

no_up :
    (base parts : List String)
    → contains parts ".." ≡ false
    → (below : List String) × (resolve base parts ≡ below ++ base) × (length below ≡ length parts)
no_up base [] h = ([], refl, refl)
no_up base (p ∷ ps) h =
    let (below, e, n) = no_up (p ∷ base) ps (ground (arith, h)) in
    let stays = not_up p (ground (arith, h)) in
    (
      below ++ (p ∷ []),
      rw stays (e ∙ sym (append_assoc below (p ∷ []) base)),
      omega (arith, length-append below (p ∷ [])),
    )

accepted :
    (a b : Bool) (parts parts' : List String)
    → (raise_if a value_error >> (raise_if b value_error >> ok parts)) ≡ ok parts'
    → (a ≡ false) × (b ≡ false) × (parts' ≡ parts)
accepted true b parts parts' h = cc
accepted false true parts parts' h = cc
accepted false false parts parts' h = (refl, refl, cc)

nonempty :
    (parts below : List String)
    → is_empty_list parts ≡ false
    → length below ≡ length parts
    → below ≢ []
nonempty [] below h n = λ e. cc
nonempty (p ∷ ps) below h n = λ e. omega (arith, ap length e)

-- A path that is accepted leads, from any directory of a bag, strictly below it: its parts are
-- resolved without ever leaving the directory.
pub contained_payload_path-Stays :
    (relative : String) (parts base : List String)
    → contained_payload_path relative ≡ ok parts
    → (is_absolute relative ≡ false)
      × ((below : List String) × (resolve base parts ≡ below ++ base) × (below ≢ []))
unfolding contained_payload_path
contained_payload_path-Stays relative parts base h =
    let (a, b, e) = accepted _ _ (path_parts relative) parts h in
    let split = or_false (is_absolute relative) (contains (path_parts relative) "..") b in
    let full : is_empty_list (path_parts relative) ≡ false = full_of _ _ a split.0 in
    let (below, to, n) = no_up base (path_parts relative) split.1 in
    (split.0, (below, ap (resolve base) e ∙ to, nonempty (path_parts relative) below full n))
  where
    or_false : (a b : Bool) → a || b ≡ false → (a ≡ false) × (b ≡ false)
    or_false a b h = ground arith

    full_of : (a b : Bool) → a && not b ≡ false → b ≡ false → a ≡ false
    full_of a b h k = ground arith
