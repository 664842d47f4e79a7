-- ===== src/Bags/Upload.antt =====
-- analysis/upload_daemon/upload_daemon.py: the completeness of a bag, the receipt of a transfer, and
-- the daemon that sends a bag with its sidecar. A path is the name in the watched directory.
pub mod Transport
pub mod Watch
pub mod Retry
pub mod Answers
pub mod Receipt
pub mod Ship
pub mod Once
pub mod Live
use text.Mathlib.Text.{◌==◌}
use patrol_drone.Prelude.{
  ℕ, zero, suc, ℤ, pos, negsuc, Bool, true, false, ◌&&◌, ◌||◌, not, String, List, [], ◌∷◌, Option,
  none, some, Result, ok, err, if◌then◌else◌, raise_if, ◌>>=◌, ◌>>◌,
}
use patrol_drone.Bags.Text.{◌<>◌, strip, rstrip_slashes, is_empty, sorted}
use patrol_drone.Bags.Disk.{
  Fault, value_error, file_exists, file_not_found, permission_denied, os_error, decode_error, Json,
  null, boolean, number, str, array, object, Values, no_values, value, Members, no_members, member,
  Contents, json_text, Node, Entries, no_entries, entry, lookup, is_dir, is_symlink, stays_inside,
  read_json, get, texts,
}
use patrol_drone.Bags.Layout.{is_regular_file, is_valid_bag_dir}
use patrol_drone.Bags.Publish.{Disk, publish_bytes_exclusive}

abbrev pub sidecar_path_for : String → String
sidecar_path_for bag = bag <> ".meta.json"

abbrev pub is_candidate : String → Node → Bool
is_candidate name n = is_dir (some n) && (not (is_symlink (some n)) && stays_inside n)

abbrev pub candidates : Entries → List String
candidates no_entries = []
candidates (entry name n es) =
    let rest = candidates es in if is_candidate name n then name ∷ rest else rest

-- `none`: the watched directory is not there yet.
unfoldable pub iter_bag_dirs : Option Entries → List String
iter_bag_dirs none = []
iter_bag_dirs (some es) = sorted (candidates es)

unfoldable pub is_complete : Entries → String → Bool
is_complete es bag =
    is_valid_bag_dir (lookup bag es) && is_regular_file (lookup (sidecar_path_for bag) es)

abbrev pub upload_marker_for : String → String
upload_marker_for bag = bag <> ".uploaded"

unfoldable pub canonical_target : String → String
canonical_target target =
    let stripped = strip target in
    let bare = rstrip_slashes stripped in if is_empty bare then stripped else bare

unfoldable pub validate_transfer_target : String → Result Fault String
validate_transfer_target target = do
  raise_if (is_empty target || not (target == strip target)) value_error
  ok target

-- the file names that a receipt covers
abbrev pub covered : String → List String
covered bag = sorted (bag ∷ sidecar_path_for bag ∷ [])

-- `json.dumps` of the receipt, its keys in order
unfoldable pub receipt_bytes : String → String → Contents
receipt_bytes bag target = json_text (
    object (
      member "files" (array (texts (covered bag)))
        (member "target" (str (canonical_target target)) no_members)))

-- `v == s` of a JSON value and a string
abbrev pub equals_text : Option Json → String → Bool
equals_text none s = false
equals_text (some null) s = false
equals_text (some (boolean b)) s = false
equals_text (some (number t)) s = false
equals_text (some (str t)) s = t == s
equals_text (some (array vs)) s = false
equals_text (some (object ms)) s = false

-- `v == ss` of a JSON value and a list of strings
abbrev pub are_texts : Values → List String → Bool
are_texts no_values [] = true
are_texts no_values (s ∷ ss) = false
are_texts (value j vs) [] = false
are_texts (value j vs) (s ∷ ss) = equals_text (some j) s && are_texts vs ss

abbrev pub equals_texts : Option Json → List String → Bool
equals_texts none ss = false
equals_texts (some null) ss = false
equals_texts (some (boolean b)) ss = false
equals_texts (some (number t)) ss = false
equals_texts (some (str t)) ss = false
equals_texts (some (array vs)) ss = are_texts vs ss
equals_texts (some (object ms)) ss = false

-- the gates of a receipt that was read
abbrev pub covers : Json → String → String → Bool
covers (object ms) bag target =
    if not (equals_text (get "target" ms) (canonical_target target))
    then false
    else equals_texts (get "files" ms) (covered bag)
covers null bag target = false
covers (boolean b) bag target = false
covers (number t) bag target = false
covers (str t) bag target = false
covers (array vs) bag target = false

-- `except (OSError, ValueError)`
unfoldable pub is_read_fault : Fault → Bool
is_read_fault file_exists = true
is_read_fault file_not_found = true
is_read_fault permission_denied = true
is_read_fault os_error = true
is_read_fault value_error = true
is_read_fault decode_error = true
is_read_fault _ = false

abbrev pub judged : Result Fault Json → String → String → Result Fault Bool
judged (ok receipt) bag target = ok (covers receipt bag target)
judged (err e) bag target = if is_read_fault e then ok false else err e

unfoldable pub is_valid_receipt : Option Node → String → String → Result Fault Bool
is_valid_receipt marker bag target = judged (read_json marker) bag target

unfoldable pub is_already_uploaded : Entries → String → String → Result Fault Bool
unfolding is_valid_receipt
is_already_uploaded es bag target =
    let marker = lookup (upload_marker_for bag) es in
    if is_regular_file marker then is_valid_receipt marker bag target else ok false

-- What the transport is asked, with its answer, and the pauses between.
pub data Event : Type 0 where
  sent : String → String → Result Fault Bool → Event
  slept : Event

-- A transport may answer by all that has happened so far, newest first.
abbrev pub Transport : Type 0
Transport = List Event → String → String → Result Fault Bool

-- `secret` is what `secrets.token_hex` gives for a temporary file.
pub record UploadDaemon : Type 0 where
  pub transport : Transport
  pub target : String
  pub max_retries : ℤ
  pub secret : Disk → String

-- `UploadDaemon.__init__`; the pause is no argument here, since nothing depends on its length.
unfoldable pub new_daemon : Transport → String → ℤ → (Disk → String) → Result Fault UploadDaemon
new_daemon transport target max_retries secret = do
  target ← validate_transfer_target target
  ok (record { transport = transport; target = target; max_retries = max_retries; secret = secret })

pub record World : Type 0 where
  pub disk : Disk
  pub log : List Event

-- `range(self._max_retries + 1)`
abbrev pub rounds : ℤ → ℕ
rounds (pos n) = suc n
rounds (negsuc n) = 0

-- `if attempt < self._max_retries: time.sleep(...)`, by the attempts that are left
abbrev pub pause : ℕ → List Event → List Event
pause zero log = log
pause (suc n) log = slept ∷ log

-- An attempt that is confirmed or raises ends the loop.
abbrev pub settle :
    Result Fault Bool → List Event → Result Fault Bool × List Event → Result Fault Bool × List Event
settle (ok true) log later = (ok true, log)
settle (ok false) log later = later
settle (err e) log later = (err e, log)

unfoldable pub attempts :
    Transport → String → String → ℕ → List Event → Result Fault Bool × List Event
attempts transport path target zero log = (ok false, log)
attempts transport path target (suc n) log =
    let answer = transport log path target in
    let log' = sent path target answer ∷ log in
    settle answer log' (attempts transport path target n (pause n log'))

unfoldable pub send_with_retry : UploadDaemon → String → List Event → Result Fault Bool × List Event
send_with_retry u path log = attempts u.transport path u.target (rounds u.max_retries) log

-- `all(self._send_with_retry(path) for path in ...)`
abbrev pub send_rest :
    Result Fault Bool × List Event
    → (List Event → Result Fault Bool × List Event)
    → Result Fault Bool × List Event
send_rest (ok true, log) f = f log
send_rest (ok false, log) f = (ok false, log)
send_rest (err e, log) f = (err e, log)

unfoldable pub send_all : UploadDaemon → List String → List Event → Result Fault Bool × List Event
send_all u [] log = (ok true, log)
send_all u (p ∷ ps) log = send_rest (send_with_retry u p log) (send_all u ps)

unfoldable pub write_upload_marker : String → String → String → Disk → Result Fault Unit × Disk
write_upload_marker secret bag target d =
    publish_bytes_exclusive secret (upload_marker_for bag) (receipt_bytes bag target) d

abbrev pub marked : List Event → Result Fault Unit × Disk → Result Fault Bool × World
marked log (ok u, d) = (ok true, record { disk = d; log = log })
marked log (err e, d) = (err e, record { disk = d; log = log })

abbrev pub mark_if_sent :
    UploadDaemon → String → Disk → Result Fault Bool × List Event → Result Fault Bool × World
mark_if_sent u bag d (ok true, log) = marked log (write_upload_marker (u.secret d) bag u.target d)
mark_if_sent u bag d (ok false, log) = (ok false, record { disk = d; log = log })
mark_if_sent u bag d (err e, log) = (err e, record { disk = d; log = log })

unfoldable pub on_bag_complete : UploadDaemon → String → World → Result Fault Bool × World
on_bag_complete u bag w =
    if not (is_complete w.disk.entries bag)
    then (ok false, w)
    else mark_if_sent u bag w.disk (send_all u (bag ∷ sidecar_path_for bag ∷ []) w.log)
