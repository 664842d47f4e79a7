-- ===== src/Perception/CheckpointConfig.antt =====
-- checkpoint_config.py: the table of the tags, read from the checkpoints file and checked row by row.
pub mod Maps
use Prim.Native.Char.{code}
use text.Mathlib.Text.{◌==◌}
use patrol_drone.Prelude.{
  ℕ, ◌||◌, ◌&&◌, ◌++◌, ◌∷◌, ◌>>◌, ◌>>=◌, String, Option, Bool, List, Result, ℤ, [], none, some, ok,
  err, true, false, not, raise_if, if◌then◌else◌, or_raise,
}
use patrol_drone.Float.{Float}
use patrol_drone.Mission.Frames.{Point}
use patrol_drone.Mission.Config.Yaml.{
  Yaml, Fields, get, items, null, boolean, integer, real, str, sequence, mapping,
}
use patrol_drone.Bags.Text.{between, is_empty}
use patrol_drone.Perception.Resolver.{CheckpointEntry, Entries, entry_of}

-- The reasons of a CheckpointConfigError.
pub data Complaint : Type 0 where
  not_mapping not_text unsafe_id not_integer not_numeric : Complaint
  duplicate_tag no_file invalid_yaml no_checkpoints : Complaint

-- `unread` is what `read_text` raises: an OSError, or a UnicodeDecodeError.
pub data LoadError : Type 0 where
  config_error : Complaint → LoadError
  overflow_error unread : LoadError

-- What `yaml.safe_load(source.read_text())` may raise.
pub data ReadFault : Type 0 where
  bad_yaml bad_read : ReadFault

abbrev pub complain : {A : Type 0} → Complaint → Result LoadError A
complain c = err (config_error c)

abbrev pub complain_if : Bool → Complaint → Result LoadError Unit
complain_if bad c = raise_if bad (config_error c)

-- A code point of `[A-Za-z0-9_.-]`.
unfoldable pub is_id_char : ℕ → Bool
is_id_char n =
    between b'A' b'Z' n
    || between b'a' b'z' n
    || between b'0' b'9' n
    || between b'_' b'_' n
    || between b'.' b'.' n
    || between b'-' b'-' n

abbrev pub all_id_chars : String → Bool
all_id_chars String.[] = true
all_id_chars (String.◌∷◌ c s) = is_id_char (code c) && all_id_chars s

-- `_SAFE_ID.fullmatch`
unfoldable pub is_safe_id : String → Bool
is_safe_id s = not (is_empty s) && all_id_chars s

module _ ⦃fl : Float⦄ where
  open fl use {F, of_int}

  abbrev null_or : Option Yaml → Yaml
  null_or none = null
  null_or (some v) = v

  -- `row.get(key)`
  abbrev pub get_or_null : Fields → String → Yaml
  get_or_null row key = null_or (get key row)

  unfoldable pub require_mapping : Yaml → Result LoadError Fields
  require_mapping (mapping fs) = ok fs
  require_mapping _ = complain not_mapping

  abbrev non_empty : Yaml → Result LoadError String
  non_empty (str s) = if is_empty s then complain not_text else ok s
  non_empty _ = complain not_text

  unfoldable pub require_str : Fields → String → Result LoadError String
  require_str row key = non_empty (get_or_null row key)

  unfoldable pub require_safe_id : Fields → String → Result LoadError String
  require_safe_id row key = do
    value ← require_str row key
    complain_if (not (is_safe_id value)) unsafe_id
    ok value

  abbrev an_integer : Yaml → Result LoadError ℤ
  an_integer (integer n) = ok n
  an_integer _ = complain not_integer

  unfoldable pub require_int : Fields → String → Result LoadError ℤ
  require_int row key = an_integer (get_or_null row key)

  -- `float` of an int raises where the int is too large.
  abbrev a_number : Yaml → Result LoadError F
  a_number (integer n) = or_raise (of_int n) overflow_error
  a_number (real x) = ok x
  a_number _ = complain not_numeric

  unfoldable pub require_number : Fields → String → Result LoadError F
  require_number place key = a_number (get_or_null place key)

  unfoldable pub parse_position : Fields → Result LoadError Point
  parse_position row = do
    pos ← require_mapping (get_or_null row "position")
    x ← require_number pos "x"
    y ← require_number pos "y"
    z ← require_number pos "z"
    ok (x, y, z)

  unfoldable pub parse_row : Yaml → Result LoadError CheckpointEntry
  parse_row row = do
    fields ← require_mapping row
    checkpoint_id ← require_safe_id fields "checkpoint_id"
    tag_id ← require_int fields "tag_id"
    tag_family ← require_str fields "tag_family"
    position ← parse_position fields
    ok (record {
      checkpoint_id = checkpoint_id;
      tag_id = tag_id;
      tag_family = tag_family;
      position = position;
    })

  abbrev pub has_tag : Entries → ℤ → Bool
  has_tag es tag = elim (entry_of es tag) [ none ↦ false | some e ↦ true ]

  -- the loop of `load`, on the dict built so far
  unfoldable pub collect : Entries → List Yaml → Result LoadError Entries
  collect es [] = ok es
  collect es (row ∷ rows) = do
    entry ← parse_row row
    complain_if (has_tag es entry.tag_id) duplicate_tag
    collect (es ++ (entry.tag_id, entry) ∷ []) rows

  abbrev listed : Yaml → Result LoadError (List Yaml)
  listed (sequence is) = elim (items is) [ [] ↦ complain no_checkpoints | v ∷ vs ↦ ok (v ∷ vs) ]
  listed _ = complain no_checkpoints

  unfoldable pub checkpoint_rows : Yaml → Result LoadError (List Yaml)
  checkpoint_rows raw = do top ← require_mapping raw; listed (get_or_null top "checkpoints")

  -- the file system, and the YAML library's reading of a file
  module _ (is_file : String → Bool) (read_yaml : String → Result ReadFault Yaml) where
    abbrev reading : Result ReadFault Yaml → Result LoadError Yaml
    reading (ok v) = ok v
    reading (err bad_yaml) = complain invalid_yaml
    reading (err bad_read) = err unread

    unfoldable pub read : String → Result LoadError Yaml
    read path = if is_file path then reading (read_yaml path) else complain no_file

    unfoldable pub load : String → Result LoadError Entries
    load path = do raw ← read path; rows ← checkpoint_rows raw; collect [] rows
