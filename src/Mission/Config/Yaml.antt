-- ===== src/Mission/Config/Yaml.antt =====
-- config.py: what `yaml.safe_load` returns, the errors of the loader, and its checks of one value.
-- The keys of a mapping are strings; the messages of the errors are left out.
use text.Mathlib.Text.{◌==◌}
use patrol_drone.Prelude.{
  ◌>>=◌, String, List, Bool, Result, Option, none, true, false, if◌then◌else◌, ok, [], raise_if,
  or_raise, err, ◌∷◌, some, ◌||◌, ◌&&◌, ℤ,
}
use patrol_drone.Float.{Float}
use patrol_drone.Mission.Frames.{Point}

-- The reasons of the loader's ValueErrors.
pub data Refusal : Type 0 where
  not_mapping not_list missing_field unknown_key null_section : Refusal
  not_number not_finite out_of_range unknown_frame : Refusal
  bad_checkpoint_id duplicate_checkpoint unknown_checkpoint bad_document missing_file : Refusal
  no_path relative_path ambiguous_waypoint shapeless_waypoint : Refusal

-- What the opening and the parsing of a file may raise.
pub data FileError : Type 0 where
  not_found unreadable : FileError

pub data ConfigError : Type 0 where
  value_error : Refusal → ConfigError
  -- `float` of an int that is too large
  overflow_error : ConfigError
  -- a missing key of a dict
  key_error : ConfigError
  file_error : FileError → ConfigError

abbrev pub refuse : {A : Type 0} → Refusal → Result ConfigError A
refuse r = err (value_error r)

-- `if bad: raise ValueError`
abbrev pub refuse_if : Bool → Refusal → Result ConfigError Unit
refuse_if bad r = raise_if bad (value_error r)

-- `x in xs` of strings
abbrev pub contains : List String → String → Bool
contains [] k = false
contains (x ∷ xs) k = k == x || contains xs k

-- a subset of the keys
abbrev pub within : List String → List String → Bool
within [] allowed = true
within (x ∷ xs) allowed = contains allowed x && within xs allowed

module _ ⦃fl : Float⦄ where
  open fl use {F, is_finite, of_int, of_text}

  mutual
    pub data Yaml : Type 0 where
      null : Yaml
      boolean : Bool → Yaml
      integer : ℤ → Yaml
      real : F → Yaml
      str : String → Yaml
      sequence : Items → Yaml
      mapping : Fields → Yaml
      -- a date or another scalar
      other : Yaml

    pub data Items : Type 0 where
      no_items : Items
      item : Yaml → Items → Items

    pub data Fields : Type 0 where
      no_fields : Fields
      entry : String → Yaml → Fields → Fields

  abbrev pub items : Items → List Yaml
  items no_items = []
  items (item v is) = v ∷ items is

  abbrev pub keys : Fields → List String
  keys no_fields = []
  keys (entry k v fs) = k ∷ keys fs

  abbrev pub get : String → Fields → Option Yaml
  get key no_fields = none
  get key (entry k v fs) = if key == k then some v else get key fs

  -- `key in raw`
  abbrev pub has : Fields → String → Bool
  has fs key = contains (keys fs) key

  unfoldable pub require : Fields → String → Result ConfigError Yaml
  require raw key = or_raise (get key raw) (value_error missing_field)

  -- `raw[key]`
  abbrev pub subscript : Fields → String → Result ConfigError Yaml
  subscript raw key = or_raise (get key raw) key_error

  unfoldable pub require_mapping : Yaml → Result ConfigError Fields
  require_mapping (mapping fs) = ok fs
  require_mapping _ = refuse not_mapping

  unfoldable pub require_list : Yaml → Result ConfigError (List Yaml)
  require_list (sequence is) = ok (items is)
  require_list _ = refuse not_list

  -- the last check of `_number`
  unfoldable pub finite : F → Result ConfigError F
  finite x = if is_finite x then ok x else refuse not_finite

  -- what `float` gives, or the error that it raises
  unfoldable pub finite_or : Option F → ConfigError → Result ConfigError F
  finite_or none e = err e
  finite_or (some x) e = finite x

  unfoldable pub number : Yaml → Result ConfigError F
  number (integer n) = finite_or (of_int n) overflow_error
  number (real x) = finite x
  number (str s) = finite_or (of_text s) (value_error not_number)
  number _ = refuse not_number

  unfoldable pub validate_frame : Yaml → Result ConfigError String
  validate_frame (str s) = if contains ("enu" ∷ "ned" ∷ []) s then ok s else refuse unknown_frame
  validate_frame _ = refuse unknown_frame

  unfoldable pub coord : Fields → String → Result ConfigError F
  coord p axis = do v ← require p axis; number v

  unfoldable pub point : Yaml → Result ConfigError Point
  point v = do
    p ← require_mapping v
    x ← coord p "x"
    y ← coord p "y"
    z ← coord p "z"
    ok (x, y, z)
