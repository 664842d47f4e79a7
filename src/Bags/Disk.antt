-- ===== src/Bags/Disk.antt =====
-- The directory that the bag pipeline works in, and what a file in it holds. A name is looked up as
-- `pathlib` does: `is_file` and `is_dir` follow symbolic links, `is_symlink` does not.
pub mod Lookup
use text.Mathlib.Text.{◌==◌}
use patrol_drone.Prelude.{
  Bool, true, false, String, List, [], ◌∷◌, Option, none, some, Result, ok, err, if◌then◌else◌,
}

-- The exceptions of the pipeline. `other_fault` is any exception that no watch loop catches.
pub data Fault : Type 0 where
  file_exists file_not_found permission_denied os_error timeout_expired : Fault
  value_error decode_error key_error type_error yaml_error called_process overflow_error
        recursion_error :
      Fault
  locked integrity not_implemented other_fault : Fault

mutual
  -- A JSON value. A number is kept by its text.
  pub data Json : Type 0 where
    null : Json
    boolean : Bool → Json
    number : String → Json
    str : String → Json
    array : Values → Json
    object : Members → Json

  pub data Values : Type 0 where
    no_values : Values
    value : Json → Values → Values

  pub data Members : Type 0 where
    no_members : Members
    member : String → Json → Members → Members

-- What a file holds, by what `json.loads(path.read_text())` makes of it.
pub data Contents : Type 0 where
  json_text : Json → Contents
  -- text that is not JSON, by itself, and the empty file or a part of one
  plain : String → Contents
  not_json : Contents
  -- JSON text that is nested beyond the limit of recursion
  too_deep : Contents
  -- bytes that are not UTF-8
  not_utf8 : Contents
  -- a file that cannot be opened or read
  unreadable : Contents

mutual
  pub data Node : Type 0 where
    file : Contents → Node
    folder : Entries → Node
    -- A symbolic link: whether it resolves inside the watched directory, and to what.
    link : Bool → Node → Node
    dangling : Node
    -- a socket, a pipe or a device
    special : Node

  pub data Entries : Type 0 where
    no_entries : Entries
    entry : String → Node → Entries → Entries

abbrev pub lookup : String → Entries → Option Node
lookup k no_entries = none
lookup k (entry n v es) = if k == n then some v else lookup k es

abbrev pub insert : String → Node → Entries → Entries
insert k v no_entries = entry k v no_entries
insert k v (entry n w es) = if k == n then entry n v es else entry n w (insert k v es)

abbrev pub erase : String → Entries → Entries
erase k no_entries = no_entries
erase k (entry n v es) = let rest = erase k es in if k == n then rest else entry n v rest

abbrev pub names : Entries → List String
names no_entries = []
names (entry n v es) = n ∷ names es

abbrev node_is_file : Node → Bool
node_is_file (file c) = true
node_is_file (folder es) = false
node_is_file (link inside n) = node_is_file n
node_is_file dangling = false
node_is_file special = false

abbrev node_is_dir : Node → Bool
node_is_dir (file c) = false
node_is_dir (folder es) = true
node_is_dir (link inside n) = node_is_dir n
node_is_dir dangling = false
node_is_dir special = false

abbrev pub is_file : Option Node → Bool
is_file none = false
is_file (some n) = node_is_file n

abbrev pub is_dir : Option Node → Bool
is_dir none = false
is_dir (some n) = node_is_dir n

abbrev pub is_symlink : Option Node → Bool
is_symlink none = false
is_symlink (some (file c)) = false
is_symlink (some (folder es)) = false
is_symlink (some (link inside n)) = true
is_symlink (some dangling) = true
is_symlink (some special) = false

-- `p.resolve().is_relative_to(root)` of a name in the directory
abbrev pub stays_inside : Node → Bool
stays_inside (file c) = true
stays_inside (folder es) = true
stays_inside (link inside n) = inside
stays_inside dangling = false
stays_inside special = true

abbrev node_entries : Node → Entries
node_entries (file c) = no_entries
node_entries (folder es) = es
node_entries (link inside n) = node_entries n
node_entries dangling = no_entries
node_entries special = no_entries

-- What is in a directory, links followed; nothing where there is none.
abbrev pub entries_of : Option Node → Entries
entries_of none = no_entries
entries_of (some n) = node_entries n

abbrev node_contents : Node → Result Fault Contents
node_contents (file c) = ok c
node_contents (folder es) = err os_error
node_contents (link inside n) = node_contents n
node_contents dangling = err file_not_found
node_contents special = err os_error

abbrev pub loads : Contents → Result Fault Json
loads (json_text j) = ok j
loads (plain s) = err value_error
loads not_json = err value_error
loads too_deep = err recursion_error
loads not_utf8 = err decode_error
loads unreadable = err permission_denied

-- `path.read_text()`, of contents and of a path
abbrev pub decode : Contents → Result Fault Contents
decode (json_text j) = ok (json_text j)
decode (plain s) = ok (plain s)
decode not_json = ok not_json
decode too_deep = ok too_deep
decode not_utf8 = err decode_error
decode unreadable = err permission_denied

abbrev then_decode : Result Fault Contents → Result Fault Contents
then_decode (ok c) = decode c
then_decode (err e) = err e

abbrev pub read_text : Option Node → Result Fault Contents
read_text none = err file_not_found
read_text (some n) = then_decode (node_contents n)

abbrev read_contents : Result Fault Contents → Result Fault Json
read_contents (ok c) = loads c
read_contents (err e) = err e

-- `json.loads(path.read_text())`
abbrev pub read_json : Option Node → Result Fault Json
read_json none = err file_not_found
read_json (some n) = read_contents (node_contents n)

-- `d.get(k)` of a dict that JSON gave. Of a key that is there twice the last counts.
abbrev pub last_or : Option Json → Json → Option Json
last_or none j = some j
last_or (some k) j = some k

abbrev pub get : String → Members → Option Json
get k no_members = none
get k (member n j ms) = let later = get k ms in if k == n then last_or later j else later

abbrev pub texts : List String → Values
texts [] = no_values
texts (s ∷ ss) = value (str s) (texts ss)
