-- ===== src/Bags/Recorder.antt =====
-- ros2_ws/src/patrol_logging/patrol_logging/recorder.py: the names and the arguments of a recording, and
-- the tests of a finished one.
pub mod Names
pub mod Sidecar
pub mod Staging
pub mod Finalize
use Prim.Native.Char.{code}
use Prim.Native.String
use text.Mathlib.Text.{◌==◌}
use patrol_drone.Prelude.{
  ℕ, ℤ, pos, eq_ℤ, Bool, true, false, ◌&&◌, ◌||◌, not, String, List, [], ◌∷◌, ◌++◌, Option, none,
  some, Result, ok, err, if◌then◌else◌, raise_if, or_raise, ◌>>=◌, ◌>>◌,
}
use patrol_drone.Bags.Text.{◌<>◌, ends_with, strip, is_empty, any_char, is_slash, between}
use patrol_drone.Bags.Dates.{Dates}
use patrol_drone.Bags.Disk.{
  Fault, value_error, key_error, type_error, Json, null, boolean, number, str, array, object,
  Values, no_values, value, Members, no_members, member, Contents, json_text, Node, Entries,
  no_entries, entry, lookup, is_file, is_symlink, entries_of, read_json, get, texts,
}
use patrol_drone.Bags.Layout.{contains}
use patrol_drone.Bags.Publish.{Disk, at, unlink, atomic_write_text}

-- A code point of `[A-Za-z0-9._-]`.
unfoldable pub is_fs_safe : ℕ → Bool
is_fs_safe n =
    between b'A' b'Z' n
    || between b'a' b'z' n
    || between b'0' b'9' n
    || between b'.' b'.' n
    || between b'_' b'_' n
    || between b'-' b'-' n

-- `_FS_SAFE.sub("_", s)`: each run of other characters becomes one underscore. The first argument
-- tells whether the character before was in such a run.
unfoldable pub collapse_unsafe : Bool → String → String
collapse_unsafe in_run String.[] = ""
collapse_unsafe in_run (String.◌∷◌ c s) =
    let kept = String.◌∷◌ c (collapse_unsafe false s) in
    let run = collapse_unsafe true s in
    if is_fs_safe (code c) then kept else if in_run then run else "_" <> run

unfoldable pub sanitize_mission_id : String → Result Fault String
sanitize_mission_id mission_id = do
  raise_if (is_empty mission_id || is_empty (strip mission_id)) value_error
  ok (collapse_unsafe false (strip mission_id))

-- The reasons of a rejection, in the order of the checks.
pub data Rejection : Type 0 where
  must_be_non_empty surrounding_space path_separator relative_component : Rejection

abbrev pub first_failed : List (Bool × Rejection) → Option Rejection
first_failed [] = none
first_failed ((failed, reason) ∷ checks) = if failed then some reason else first_failed checks

abbrev pub is_backslash : ℕ → Bool
is_backslash n = between b'\\' b'\\' n

unfoldable pub run_id_rejection : String → Option Rejection
run_id_rejection run_id = first_failed (
    (is_empty run_id || is_empty (strip run_id), must_be_non_empty)
    ∷ (not (run_id == strip run_id), surrounding_space)
    ∷ (any_char is_slash run_id || any_char is_backslash run_id, path_separator)
    ∷ (run_id == "." || run_id == "..", relative_component)
    ∷ [])

abbrev pub is_some : {A : Type 0} → Option A → Bool
is_some none = false
is_some (some a) = true

unfoldable pub validate_run_id : String → Result Fault String
validate_run_id run_id = do raise_if (is_some (run_id_rejection run_id)) value_error; ok run_id

abbrev pub regex_flags : List String → List String
regex_flags [] = []
regex_flags (pattern_text ∷ regexes) = "--regex" ∷ pattern_text ∷ regex_flags regexes

abbrev pub topic_flags : List String → List String
topic_flags [] = []
topic_flags (topic ∷ topics) = "--topics" ∷ topic ∷ topics

abbrev pub has_none : List String → Bool
has_none [] = true
has_none (x ∷ xs) = false

-- `output_dir` is the text of a directory other than the root.
unfoldable pub build_record_argv :
    String → String → List String → List String → Result Fault (List String)
build_record_argv output_dir bag_basename topics regexes = do
  raise_if (has_none topics && has_none regexes) value_error
  ok (
      "ros2"
      ∷ "bag"
      ∷ "record"
      ∷ "--storage"
      ∷ "mcap"
      ∷ "-o"
      ∷ (output_dir <> ("/" <> bag_basename))
      ∷ (regex_flags regexes ++ topic_flags topics))

-- The module's own tests of a file and of a bag.
unfoldable pub is_regular_file : Option Node → Bool
is_regular_file p = is_file p && not (is_symlink p)

abbrev pub any_mcap : Entries → Bool
any_mcap no_entries = false
any_mcap (entry n v es) = (ends_with ".mcap" n && is_regular_file (some v)) || any_mcap es

unfoldable pub has_mcap_payload : Option Node → Bool
has_mcap_payload bag = any_mcap (entries_of bag)

unfoldable pub is_finalized_bag_dir : Option Node → Bool
unfolding has_mcap_payload
is_finalized_bag_dir bag =
    is_regular_file (lookup "metadata.yaml" (entries_of bag)) && has_mcap_payload bag

-- `returncode` of the event; nothing where the event has none
unfoldable pub recorder_finished_cleanly : Option ℤ → Option Node → Bool
recorder_finished_cleanly none bag = is_finalized_bag_dir bag
recorder_finished_cleanly (some code) bag =
    if not (eq_ℤ code (pos 0)) then false else is_finalized_bag_dir bag

module _ ⦃dates : Dates⦄ where
  open dates use {DateTime, bag_stamp, run_stamp}

  unfoldable pub bag_name : String → DateTime → Result Fault String
  bag_name mission_id started = do
    mission ← sanitize_mission_id mission_id
    ok ("patrol_" <> (mission <> ("_" <> bag_stamp started)))

  unfoldable pub resolve_run_id : String → DateTime → Result Fault String
  resolve_run_id configured now =
      if not (is_empty configured) then validate_run_id configured else ok (run_stamp now)
