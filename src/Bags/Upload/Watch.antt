-- ===== src/Bags/Upload/Watch.antt =====
-- analysis/upload_daemon/__main__.py: the loop that finds bags and uploads each one once, and the
-- command-line checks of analysis/_shared/positive_interval.py.
use text.Mathlib.Text.{◌==◌}
use patrol_drone.Prelude.{
  ℤ, pos, leb_ℤ, Bool, true, false, ◌||◌, not, String, List, [], ◌∷◌, Option, some, Result, ok, err,
  if◌then◌else◌, raise_if, or_raise, ◌>>=◌, ◌>>◌,
}
use patrol_drone.Float.{Float}
use patrol_drone.Shared.BoundedSeen.{BoundedSeen, contains_bag, add, new_seen}
use patrol_drone.Bags.Disk.{
  Fault, file_exists, file_not_found, permission_denied, os_error, timeout_expired, Entries,
}
use patrol_drone.Bags.Upload.{
  UploadDaemon, World, Transport, iter_bag_dirs, is_complete, is_already_uploaded, on_bag_complete,
  validate_transfer_target,
}
use patrol_drone.Bags.Upload.Transport.{Runner, rsync_send}

-- `_UPLOAD_FAULTS`: OSError with its subclasses, and TimeoutExpired
unfoldable pub is_upload_fault : Fault → Bool
is_upload_fault file_exists = true
is_upload_fault file_not_found = true
is_upload_fault permission_denied = true
is_upload_fault os_error = true
is_upload_fault timeout_expired = true
is_upload_fault _ = false

-- What the command line may end in, short of a run.
pub data Exit : Type 0 where
  system_exit argument_error : Exit

unfoldable pub make_transport : String → Runner → Result Exit Transport
make_transport kind runner =
    if kind == "rsync"
    then ok (λ log local_path remote_path. rsync_send runner local_path remote_path)
    else err system_exit

abbrev pub as_argument_error : Result Fault String → Result Exit String
as_argument_error (ok s) = ok s
as_argument_error (err e) = err argument_error

unfoldable pub target_argument : String → Result Exit String
target_argument raw = as_argument_error (validate_transfer_target raw)

module _ ⦃fl : Float⦄ where
  open fl use {F, milli, le, is_finite, of_text}

  unfoldable pub positive_seconds : String → Result Exit F
  positive_seconds raw = do
    value ← or_raise (of_text raw) argument_error
    raise_if (not (is_finite value) || le value (milli 0)) argument_error
    ok value

-- `int_of` is Python's `int` on a string; what it cannot read is argparse's own error.
unfoldable pub positive_int : (String → Option ℤ) → String → Result Exit ℤ
positive_int int_of raw = do
  value ← or_raise (int_of raw) argument_error
  raise_if (not (leb_ℤ (pos 1) value)) argument_error
  ok value

abbrev pub caught : Result Fault Bool × World → Result Fault Bool × World
caught (ok b, w) = (ok b, w)
caught (err e, w) = if is_upload_fault e then (ok false, w) else (err e, w)

unfoldable pub try_upload : UploadDaemon → String → World → Result Fault Bool × World
try_upload u bag w = caught (on_bag_complete u bag w)

-- the daemon's world, and the set of the bags handled in this run
abbrev pub Session : Type 0
Session = World × BoundedSeen

abbrev pub remember : String → BoundedSeen → Result Fault Bool × World → Result Fault Unit × Session
remember bag seen (ok true, w) = (ok tt, (w, add seen bag))
remember bag seen (ok false, w) = (ok tt, (w, seen))
remember bag seen (err e, w) = (err e, (w, seen))

-- what the receipt says
abbrev pub unless_uploaded :
    UploadDaemon → String → Session → Result Fault Bool → Result Fault Unit × Session
unless_uploaded u bag (w, seen) (ok true) = (ok tt, (w, add seen bag))
unless_uploaded u bag (w, seen) (ok false) = remember bag seen (try_upload u bag w)
unless_uploaded u bag (w, seen) (err e) = (err e, (w, seen))

-- one round of the loop
unfoldable pub drain_bag : UploadDaemon → String → Session → Result Fault Unit × Session
drain_bag u bag (w, seen) =
    if contains_bag seen bag || not (is_complete w.disk.entries bag)
    then (ok tt, (w, seen))
    else unless_uploaded u bag (w, seen) (is_already_uploaded w.disk.entries bag u.target)

abbrev pub and_then :
    Result Fault Unit × Session
    → (Session → Result Fault Unit × Session)
    → Result Fault Unit × Session
and_then (ok u, s) f = f s
and_then (err e, s) f = (err e, s)

unfoldable pub drain_bags : UploadDaemon → List String → Session → Result Fault Unit × Session
drain_bags u [] s = (ok tt, s)
drain_bags u (bag ∷ bags) s = and_then (drain_bag u bag s) (drain_bags u bags)

unfoldable pub drain_once : UploadDaemon → Session → Result Fault Unit × Session
drain_once u (w, seen) = drain_bags u (iter_bag_dirs (some w.disk.entries)) (w, seen)

-- The loop, by what other processes make of the directory before each poll.
abbrev pub meanwhile : (Entries → Entries) → Session → Session
meanwhile change (w, seen) = (
  record w {
    disk = record (w.disk) { entries = change w.disk.entries; past = w.disk.entries ∷ w.disk.past };
  },
  seen,
)

unfoldable pub watch_loop :
    UploadDaemon → List (Entries → Entries) → Session → Result Fault Unit × Session
watch_loop u [] s = (ok tt, s)
watch_loop u (change ∷ changes) s =
    and_then (drain_once u (meanwhile change s)) (watch_loop u changes)

abbrev pub start : World → Session
start w = (w, new_seen 4096)
