-- ===== src/Bags/Ingest/Facts.antt =====
-- docker/ingest/bag_reader.py: the facts of a bag, from its metadata.yaml, which must name files that
-- are there. PyYAML's `safe_load` is a parameter, with what it makes of a file's contents; a mapping has
-- strings for keys. So is the output of `ros2 bag info`, by which a bag without metadata is read.
pub mod Payloads
pub mod Faults
pub mod Loop
use text.Mathlib.Text.{◌==◌}
use patrol_drone.Prelude.{
  ℤ, pos, eq_ℤ, Bool, true, false, ◌&&◌, ◌||◌, not, String, List, [], ◌∷◌, Option, none, some,
  Result, ok, err, if◌then◌else◌, raise_if, or_raise, ◌>>=◌, ◌>>◌,
}
use patrol_drone.Float.{Float}
use patrol_drone.Bags.Disk.{
  Fault, value_error, type_error, overflow_error, Contents, Node, Entries, lookup, is_file,
  is_symlink, entries_of, read_text,
}
use patrol_drone.Bags.Layout.{contained_payload_path}
use patrol_drone.Mission.Config.Yaml.{
  Yaml, null, boolean, integer, real, str, sequence, mapping, other, Items, no_items, Fields,
  no_fields, entry, items, get,
}

-- `d[name] = count`: a name that is there keeps its place
abbrev pub put_count : String × ℤ → List (String × ℤ) → List (String × ℤ)
put_count (name, count) [] = (name, count) ∷ []
put_count (name, count) ((n, c) ∷ counts) =
    if name == n then (n, count) ∷ counts else (n, c) ∷ put_count (name, count) counts

abbrev pub no_counts : List (String × ℤ) → Bool
no_counts [] = true
no_counts (c ∷ cs) = false

-- the node at a path below another, links on the way followed
abbrev pub walk : Option Node → List String → Option Node
walk n [] = n
walk n (p ∷ ps) = walk (lookup p (entries_of n)) ps

unfoldable pub require_payload : Option Node → String → Result Fault Unit
require_payload bag relative = do
  payload ← contained_payload_path relative
  raise_if (is_symlink (walk bag payload) || not (is_file (walk bag payload))) value_error

unfoldable pub require_payloads : Option Node → List String → Result Fault Unit
require_payloads bag [] = ok tt
require_payloads bag (relative ∷ paths) = do
  _ ← require_payload bag relative
  require_payloads bag paths

module _ ⦃fl : Float⦄ where
  open fl use {F, milli, eq, le, truncate, of_int, of_nanos}

  pub record BagFacts : Type 0 where
    pub duration_s : F
    pub topic_counts : List (String × ℤ)

  unfoldable pub require_mapping : Yaml → Result Fault Fields
  require_mapping (mapping fs) = ok fs
  require_mapping _ = err value_error

  abbrev pub no_text : List Yaml → Bool
  no_text [] = true
  no_text (v ∷ vs) = false

  -- `not value`
  abbrev pub is_falsy : Yaml → Bool
  is_falsy null = true
  is_falsy (boolean b) = not b
  is_falsy (integer n) = eq_ℤ n (pos 0)
  is_falsy (real x) = eq x (milli 0)
  is_falsy (str s) = s == ""
  is_falsy (sequence is) = no_text (items is)
  is_falsy (mapping no_fields) = true
  is_falsy (mapping (entry k v fs)) = false
  is_falsy other = false

  -- `mapping.get(key, {})` and `mapping.get(key, [])`
  abbrev pub get_or : Yaml → String → Fields → Yaml
  get_or default key fs = default_to default (get key fs)
    where
      default_to : Yaml → Option Yaml → Yaml
      default_to d none = d
      default_to d (some v) = v

  -- `v is None`, of a value that may be missing
  abbrev pub is_none : Option Yaml → Bool
  is_none none = true
  is_none (some null) = true
  is_none (some _) = false

  -- `int(x)` of a float
  abbrev pub int_of_real : F → Option ℤ → Result Fault ℤ
  int_of_real x (some n) = ok n
  int_of_real x none = if le x x then err overflow_error else err value_error

  abbrev pub the : Option Yaml → Yaml
  the none = null
  the (some v) = v

  abbrev pub as_list_of : Yaml → Result Fault (List Yaml)
  as_list_of (sequence is) = ok (items is)
  as_list_of _ = err value_error

  -- `int_text` is `int` of a string, `str_of` is `str` of a value that is no string, and `safe_load` is
  -- PyYAML's.
  module _ (int_text : String → Option ℤ) (str_of : Yaml → String)
      (safe_load : Contents → Result Fault Yaml) where
    unfoldable pub to_int : Yaml → Result Fault ℤ
    to_int (integer n) = ok n
    to_int (boolean b) = ok (if b then pos 1 else pos 0)
    to_int (real x) = int_of_real x (truncate x)
    to_int (str s) = or_raise (int_text s) value_error
    to_int null = err type_error
    to_int (sequence is) = err type_error
    to_int (mapping fs) = err type_error
    to_int other = err type_error

    abbrev pub text_of : Yaml → String
    text_of (str s) = s
    text_of v = str_of v

    unfoldable pub require_bag_information : Contents → Result Fault Fields
    require_bag_information text = do
      loaded ← safe_load text
      root ← require_mapping (if is_falsy loaded then mapping no_fields else loaded)
      raise_if (is_none (get "rosbag2_bagfile_information" root)) value_error
      require_mapping (the (get "rosbag2_bagfile_information" root))

    unfoldable pub metadata_duration_ns : Fields → Result Fault ℤ
    metadata_duration_ns info = do
      duration ← require_mapping (get_or (mapping no_fields) "duration" info)
      raise_if (is_none (get "nanoseconds" duration)) value_error
      to_int (the (get "nanoseconds" duration))

    unfoldable pub topic_count_entry : Yaml → Result Fault (String × ℤ)
    topic_count_entry v = do
      m ← require_mapping v
      metadata ← require_mapping (get_or (mapping no_fields) "topic_metadata" m)
      raise_if (is_none (get "name" metadata) || is_none (get "message_count" m)) value_error
      count ← to_int (the (get "message_count" m))
      ok (text_of (the (get "name" metadata)), count)

    -- `dict(_topic_count_entry(entry) for entry in entries)`, onto what is there
    unfoldable pub topic_counts_from :
        List Yaml → List (String × ℤ) → Result Fault (List (String × ℤ))
    topic_counts_from [] counts = ok counts
    topic_counts_from (v ∷ vs) counts = do
      pair ← topic_count_entry v
      topic_counts_from vs (put_count pair counts)

    unfoldable pub metadata_topic_counts : Fields → Result Fault (List (String × ℤ))
    metadata_topic_counts info = do
      entries ← as_list_of (get_or (sequence no_items) "topics_with_message_count" info)
      topic_counts ← topic_counts_from entries []
      raise_if (no_counts topic_counts) value_error
      ok topic_counts

    abbrev pub texts_of : List Yaml → List String
    texts_of [] = []
    texts_of (v ∷ vs) = text_of v ∷ texts_of vs

    unfoldable pub declared_payloads : Fields → Result Fault (List String)
    declared_payloads info = do
      paths ← as_list_of (get_or (sequence no_items) "relative_file_paths" info)
      ok (texts_of paths)

    unfoldable pub require_declared_payloads : Option Node → Fields → Result Fault Unit
    require_declared_payloads bag info = do
      paths ← declared_payloads info
      require_payloads bag paths

    -- `float(duration_ns) / 1e9`
    unfoldable pub facts_from_info : Fields → Result Fault BagFacts
    facts_from_info info = do
      duration_ns ← metadata_duration_ns info
      topic_counts ← metadata_topic_counts info
      _ ← or_raise (of_int duration_ns) overflow_error
      ok (record { duration_s = of_nanos duration_ns; topic_counts = topic_counts })

    unfoldable pub parse_bag_metadata : Contents → Result Fault BagFacts
    parse_bag_metadata text = do info ← require_bag_information text; facts_from_info info

    -- `bag_info` runs `ros2 bag info` on the bag and parses what it prints.
    unfoldable pub read_bag_facts :
        (String → Result Fault BagFacts) → Entries → String → Result Fault BagFacts
    read_bag_facts bag_info es bag =
        let metadata = lookup "metadata.yaml" (entries_of (lookup bag es)) in
        if not (is_file metadata) then bag_info bag else do
          text ← read_text metadata
          info ← require_bag_information text
          _ ← require_declared_payloads (lookup bag es) info
          facts_from_info info
