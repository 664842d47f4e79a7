-- ===== src/Bags/Upload/Transport.antt =====
-- analysis/upload_daemon/transport.py: the transports, over the running of a process.
use patrol_drone.Prelude.{ℕ, ◌==◌, Bool, false, String, List, [], ◌∷◌, Result, ok, err}
use patrol_drone.Bags.Disk.{Fault, timeout_expired, not_implemented}

-- What became of a process: its exit code, or the exception of the runner.
abbrev pub Runner : Type 0
Runner = List String → Result Fault ℕ

abbrev pub rsync_argv : String → String → List String
rsync_argv local_path remote_path = "rsync" ∷ "-a" ∷ "--" ∷ local_path ∷ remote_path ∷ []

-- A transfer that was killed at its time limit counts as one that failed; other faults go on.
abbrev pub confirmed : Result Fault ℕ → Result Fault Bool
confirmed (ok code) = ok (code == 0)
confirmed (err timeout_expired) = ok false
confirmed (err e) = err e

-- `RsyncSshTransport.send`
unfoldable pub rsync_send : Runner → String → String → Result Fault Bool
rsync_send runner local_path remote_path = confirmed (runner (rsync_argv local_path remote_path))

-- `S3Transport.send`
unfoldable pub s3_send : String → String → Result Fault Bool
s3_send local_path remote_path = err not_implemented
