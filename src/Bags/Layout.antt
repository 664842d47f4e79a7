-- ===== src/Bags/Layout.antt =====
-- analysis/_shared/bag_layout.py: when a name in the directory is a recorded bag, and the paths that
-- its metadata may name.
pub mod Contained
use text.Mathlib.Text.{◌==◌}
use patrol_drone.Prelude.{
  Bool, true, false, ◌&&◌, ◌||◌, not, String, List, [], ◌∷◌, Option, none, some, Result, ok, err,
  if◌then◌else◌, raise_if, ◌>>=◌, ◌>>◌,
}
use patrol_drone.Bags.Text.{ends_with, path_parts, is_absolute}
use patrol_drone.Bags.Disk.{
  Fault, value_error, Node, Entries, no_entries, entry, lookup, is_file, is_dir, is_symlink,
  entries_of,
}

-- `path.is_file() and not path.is_symlink()`
unfoldable pub is_regular_file : Option Node → Bool
is_regular_file p = is_file p && not (is_symlink p)

unfoldable pub has_finalize_marker : Option Node → Bool
has_finalize_marker bag = is_regular_file (lookup "metadata.yaml" (entries_of bag))

-- a match of the pattern `*.mcap` that is a regular file
abbrev pub any_payload : Entries → Bool
any_payload no_entries = false
any_payload (entry n v es) = (ends_with ".mcap" n && is_regular_file (some v)) || any_payload es

unfoldable pub has_mcap_payload : Option Node → Bool
has_mcap_payload bag = any_payload (entries_of bag)

-- A directory of the model may be searched.
unfoldable pub is_valid_bag_dir : Option Node → Bool
unfolding has_finalize_marker has_mcap_payload
is_valid_bag_dir bag =
    if is_symlink bag || not (is_dir bag)
    then false
    else has_finalize_marker bag && has_mcap_payload bag

abbrev pub is_empty_list : List String → Bool
is_empty_list [] = true
is_empty_list (x ∷ xs) = false

-- `x in xs`
abbrev pub contains : List String → String → Bool
contains [] k = false
contains (x ∷ xs) k = k == x || contains xs k

-- The parts of the path that the metadata names, below the directory of the bag.
unfoldable pub contained_payload_path : String → Result Fault (List String)
unfolding path_parts is_absolute
contained_payload_path relative = do
  let candidate = path_parts relative
  raise_if (is_empty_list candidate && not (is_absolute relative)) value_error
  raise_if (is_absolute relative || contains candidate "..") value_error
  ok candidate
