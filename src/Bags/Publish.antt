-- ===== src/Bags/Publish.antt =====
-- The two ways in which the pipeline puts a file in place: `_publish_bytes_exclusive` of
-- analysis/upload_daemon/upload_daemon.py, and `_atomic_write_text` of
-- ros2_ws/src/patrol_logging/patrol_logging/recorder.py. Every change of the directory is recorded,
-- so that a crash between two of them, or another process that looks, is covered.
pub mod Crash
use patrol_drone.Prelude.{
  Bool, true, false, String, List, [], ◌∷◌, Option, none, some, Result, ok, err, if◌then◌else◌,
}
use patrol_drone.Bags.Text.{◌<>◌}
use patrol_drone.Bags.Disk.{
  Fault, file_exists, file_not_found, os_error, Contents, not_json, Node, file, Entries, lookup,
  insert, erase,
}

-- `entries` is what is there now; `past` what was there before, newest first. `full`: a write fails.
-- `stuck`: a removal fails.
pub record Disk : Type 0 where
  pub entries : Entries
  pub past : List Entries
  pub full : Bool
  pub stuck : Bool

abbrev pub at : Disk → String → Option Node
at d name = lookup name d.entries

abbrev pub change : Entries → Disk → Disk
change es d = record d { entries = es; past = d.entries ∷ d.past }

abbrev pub is_there : Option Node → Bool
is_there none = false
is_there (some n) = true

-- `open(O_CREAT | O_EXCL | O_NOFOLLOW)`, of a name that nothing may have yet, not even a link.
abbrev pub create_exclusive : String → Disk → Result Fault Unit × Disk
create_exclusive tmp d =
    if is_there (at d tmp)
    then (err file_exists, d)
    else (ok tt, change (insert tmp (file not_json) d.entries) d)

abbrev pub write_all : String → Contents → Disk → Result Fault Unit × Disk
write_all tmp body d =
    if d.full then (err os_error, d) else (ok tt, change (insert tmp (file body) d.entries) d)

-- `os.link`: the name must be free, and gets what the temporary file holds.
abbrev pub link_node : Option Node → String → Disk → Result Fault Unit × Disk
link_node none path d = (err file_not_found, d)
link_node (some n) path d =
    if is_there (at d path)
    then (err file_exists, d)
    else (ok tt, change (insert path n d.entries) d)

abbrev pub make_link : String → String → Disk → Result Fault Unit × Disk
make_link tmp path d = link_node (at d tmp) path d

abbrev pub unlink : String → Disk → Disk
unlink tmp d = change (erase tmp d.entries) d

-- `os.replace`: the file moves to the name, whatever has it. A directory cannot be replaced.
abbrev pub is_folder : Option Node → Bool
is_folder none = false
is_folder (some (Node.folder es)) = true
is_folder (some n) = false

abbrev pub move_node : Option Node → String → String → Disk → Result Fault Unit × Disk
move_node none tmp path d = (err file_not_found, d)
move_node (some n) tmp path d =
    if is_folder (at d path)
    then (err os_error, d)
    else (ok tt, change (insert path n (erase tmp d.entries)) d)

abbrev pub replace : String → String → Disk → Result Fault Unit × Disk
replace tmp path d = move_node (at d tmp) tmp path d

abbrev pub temp_name : String → String → String
temp_name path token = path <> ("." <> (token <> ".tmp"))

-- The part in the `try`, and the step after it.
abbrev pub then_do :
    Result Fault Unit × Disk → (Disk → Result Fault Unit × Disk) → Result Fault Unit × Disk
then_do (ok tt, d) f = f d
then_do (err e, d) f = (err e, d)

-- `finally: tmp.unlink(missing_ok=True)`. Where the removal fails its exception takes over.
abbrev pub finally_unlink : String → Result Fault Unit × Disk → Result Fault Unit × Disk
finally_unlink tmp (r, d) = if d.stuck then (err os_error, d) else (r, unlink tmp d)

-- `except BaseException: tmp.unlink(missing_ok=True); raise`
abbrev pub unlink_on_error : String → Result Fault Unit × Disk → Result Fault Unit × Disk
unlink_on_error tmp (ok u, d) = (ok u, d)
unlink_on_error tmp (err e, d) = finally_unlink tmp (err e, d)

-- `token` is what `secrets.token_hex` gives.
unfoldable pub publish_bytes_exclusive :
    String → String → Contents → Disk → Result Fault Unit × Disk
publish_bytes_exclusive token path payload d =
    let tmp = temp_name path token in
    then_do (create_exclusive tmp d)
      λ d1. finally_unlink tmp (then_do (write_all tmp payload d1) (make_link tmp path))

unfoldable pub atomic_write_text : String → String → Contents → Disk → Result Fault Unit × Disk
atomic_write_text token path body d =
    let tmp = temp_name path token in
    then_do (create_exclusive tmp d)
      λ d1. unlink_on_error tmp (then_do (write_all tmp body d1) (replace tmp path))
