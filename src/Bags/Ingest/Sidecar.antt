-- ===== src/Bags/Ingest/Sidecar.antt =====
-- docker/ingest/ingest_service.py: the guards of a bag and of its sidecar.
use text.Mathlib.Text.{◌==◌}
use patrol_drone.Prelude.{
  Bool, true, false, ◌||◌, not, String, List, [], ◌∷◌, Option, none, some, Result, ok, err,
  if◌then◌else◌, raise_if, ◌>>=◌, ◌>>◌,
}
use patrol_drone.Bags.Text.{is_empty}
use patrol_drone.Bags.Disk.{
  Fault, file_not_found, value_error, type_error, key_error, integrity, other_fault, Json, null,
  boolean, number, str, array, object, Members, Entries, lookup, is_symlink, read_json, get,
}
use patrol_drone.Bags.Layout.{is_valid_bag_dir}

-- one required field of a sidecar: a text that is not empty
abbrev pub is_bad_field : Option Json → Bool
is_bad_field none = true
is_bad_field (some (str s)) = is_empty s
is_bad_field (some null) = true
is_bad_field (some (boolean b)) = true
is_bad_field (some (number t)) = true
is_bad_field (some (array vs)) = true
is_bad_field (some (object ms)) = true

abbrev pub any_bad_field : List String → Members → Bool
any_bad_field [] sidecar = false
any_bad_field (name ∷ fields) sidecar =
    is_bad_field (get name sidecar) || any_bad_field fields sidecar

abbrev pub required_sidecar_fields : List String
required_sidecar_fields = "bag_uri" ∷ "mission_id" ∷ "started_utc" ∷ []

unfoldable pub validate_sidecar_fields : Members → Result Fault Unit
validate_sidecar_fields sidecar =
    raise_if (any_bad_field required_sidecar_fields sidecar) type_error

unfoldable pub require_finalized_bag : Entries → String → Result Fault Unit
require_finalized_bag es bag = raise_if (not (is_valid_bag_dir (lookup bag es))) file_not_found

-- `v == s`
abbrev pub is_text : Option Json → String → Bool
is_text none s = false
is_text (some (str t)) s = t == s
is_text (some null) s = false
is_text (some (boolean b)) s = false
is_text (some (number t)) s = false
is_text (some (array vs)) s = false
is_text (some (object ms)) s = false

abbrev pub as_object : Json → Result Fault Members
as_object (object ms) = ok ms
as_object null = err type_error
as_object (boolean b) = err type_error
as_object (number t) = err type_error
as_object (str s) = err type_error
as_object (array vs) = err type_error

unfoldable pub load_valid_sidecar : Entries → String → String → Result Fault Members
unfolding validate_sidecar_fields
load_valid_sidecar es sidecar_path bag = do
  raise_if (is_symlink (lookup sidecar_path es)) value_error
  json ← read_json (lookup sidecar_path es)
  sidecar ← as_object json
  validate_sidecar_fields sidecar
  raise_if (not (is_text (get "bag_uri" sidecar) bag)) value_error
  ok sidecar

-- `sidecar[name]`, where it is bound to a TEXT NOT NULL column
abbrev pub column : Option Json → Result Fault String
column none = err key_error
column (some (str s)) = ok s
column (some null) = err integrity
column (some (number t)) = ok t
column (some (boolean b)) = ok (if b then "1" else "0")
column (some (array vs)) = err other_fault
column (some (object ms)) = err other_fault
