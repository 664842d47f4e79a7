-- ===== src/Bags/Upload/Live.antt =====
-- upload_daemon.py: a complete bag gets through.
use patrol_drone.Prelude.{
  ℕ, ◌+◌, ◌<◌, ◌≤◌, ltb, ◌≡◌, refl, ◌∙◌, ap, Bool, true, false, ◌&&◌, String, List, [], ◌∷◌, Result,
  ok, err, arith, none,
}
use patrol_drone.Bags.Disk.{Fault, Contents, not_json, file, insert}
use patrol_drone.Bags.Disk.Lookup.{lookup-insert_other, lookup-insert_self}
use patrol_drone.Bags.Publish.{Disk, at, temp_name, publish_bytes_exclusive}
use patrol_drone.Bags.Publish.Crash.{ne-temp_name}
use patrol_drone.Bags.Upload.{
  Event, UploadDaemon, World, is_already_uploaded, sidecar_path_for, upload_marker_for,
  receipt_bytes, is_complete, send_with_retry, send_rest, send_all, marked, mark_if_sent,
  write_upload_marker, on_bag_complete,
}
use patrol_drone.Bags.Upload.Ship.{Sent, Shipped, on_bag_complete-Shipped}
use patrol_drone.Bags.Upload.Retry.{
  allowed, Tried, tries, Flaky, send_with_retry-Tried, send_with_retry-Recovers,
}

publish_bytes_exclusive-ok :
    (token path : String) (body : Contents) (d : Disk)
    → at d (temp_name path token) ≡ none
    → at d path ≡ none
    → d.full ≡ false
    → d.stuck ≡ false
    → (publish_bytes_exclusive token path body d).0 ≡ ok tt
unfolding publish_bytes_exclusive
publish_bytes_exclusive-ok token path body d f h w removes =
    let tmp = temp_name path token in
    let e1 = lookup-insert_other path tmp (file not_json) d.entries (ne-temp_name path token) in
    let e2 =
      lookup-insert_other path tmp (file body) (insert tmp (file not_json) d.entries)
        (ne-temp_name path token) in
    let e3 = lookup-insert_self tmp (file body) (insert tmp (file not_json) d.entries) in
    ground (arith, f, h, w, removes, e1, e2, e3)

rest-ok :
    (r : Result Fault Bool × List Event) (f : List Event → Result Fault Bool × List Event)
    → r.0 ≡ ok true
    → (f r.1).0 ≡ ok true
    → (send_rest r f).0 ≡ ok true
rest-ok (ok true, log) f h k = k
rest-ok (ok false, log) f h k = h
rest-ok (err e, log) f h k = h

tries_grow :
    (n : ℕ) (log : List Event) (r : Result Fault Bool × List Event)
    → Tried n log r
    → tries log ≤ tries r.1
tries_grow n log (ok true, log') h = omega arith
tries_grow n log (ok false, log') h = omega arith
tries_grow n log (err e, log') h = omega arith

marked-ok :
    (log : List Event) (r : Result Fault Unit × Disk) → r.0 ≡ ok tt → (marked log r).0 ≡ ok true
marked-ok log (ok _, d) h = refl
marked-ok log (err e, d) h = cc

mark_if_sent-ok :
    (u : UploadDaemon) (bag : String) (d : Disk) (r : Result Fault Bool × List Event)
    → r.0 ≡ ok true
    → (write_upload_marker (u.secret d) bag u.target d).0 ≡ ok tt
    → (mark_if_sent u bag d r).0 ≡ ok true
mark_if_sent-ok u bag d (ok true, log) h k = marked-ok log _ k
mark_if_sent-ok u bag d (ok false, log) h k = h
mark_if_sent-ok u bag d (err e, log) h k = cc

-- both files were confirmed, and the marker says so
abbrev pub Delivered : UploadDaemon → String → World → World → Type 0
Delivered u bag w after =
    Sent bag (sidecar_path_for bag) u.target w.log (ok true, after.log)
    × (is_already_uploaded after.disk.entries bag u.target ≡ ok true)

Shipped-Delivered :
    (u : UploadDaemon) (bag : String) (w : World) (r : Result Fault Bool × World)
    → r.0 ≡ ok true
    → Shipped u bag w r
    → Delivered u bag w r.1
Shipped-Delivered u bag w (ok true, after) e (_, sent, up, _) = (sent, up)
Shipped-Delivered u bag w (ok false, after) e h = cc
Shipped-Delivered u bag w (err f, after) e h = cc

module _ (u : UploadDaemon) (k : ℕ) (flaky : Flaky u.transport k) (some_try : 0 < allowed u) where
  send-ok :
      (path : String) (log : List Event)
      → k < tries log + allowed u
      → (send_with_retry u path log).0 ≡ ok true
  send-ok path log h =
      send_with_retry-Recovers u path k log flaky
      ∙ ap ok (in_reach (tries log + allowed u) (allowed u) h some_try)
    where
      in_reach : (t n : ℕ) → k < t → 0 < n → ltb k t && ltb 0 n ≡ true
      in_reach t n h l = ground arith

  both-ok :
      (bag side : String) (log : List Event)
      → k < tries log + allowed u
      → (send_all u (bag ∷ side ∷ []) log).0 ≡ ok true
  unfolding send_all
  both-ok bag side log h =
      let r = send_with_retry u bag log in
      let grown = tries_grow (allowed u) log r (send_with_retry-Tried u bag log) in
      rest-ok r (send_all u (side ∷ [])) (send-ok bag log h)
        (rest-ok (send_with_retry u side r.1) (send_all u []) (send-ok side r.1 (omega arith)) refl)

  on_bag_complete-ok :
      (bag : String) (w : World)
      → is_complete w.disk.entries bag ≡ true
      → k < tries w.log + allowed u
      → at w.disk (upload_marker_for bag) ≡ none
      → at w.disk (temp_name (upload_marker_for bag) (u.secret w.disk)) ≡ none
      → w.disk.full ≡ false
      → w.disk.stuck ≡ false
      → (on_bag_complete u bag w).0 ≡ ok true
  unfolding on_bag_complete write_upload_marker
  on_bag_complete-ok bag w c reach free fresh room removes = rw c (
      mark_if_sent-ok u bag w.disk (send_all u (bag ∷ sidecar_path_for bag ∷ []) w.log)
        (both-ok bag (sidecar_path_for bag) w.log reach)
        (publish_bytes_exclusive-ok (u.secret w.disk) (upload_marker_for bag)
          (receipt_bytes bag u.target) w.disk fresh free room removes))

  -- A complete bag is uploaded although the transport refuses at first, where the attempts for its
  -- first file reach beyond the refusals, nothing has the name of the marker or of its temporary file,
  -- the disk is not full and no removal fails: the daemon says true, the bag and then its sidecar were confirmed to the
  -- target, and the bag counts as uploaded there.
  pub on_bag_complete-Live :
      (bag : String) (w : World)
      → is_complete w.disk.entries bag ≡ true
      → k < tries w.log + allowed u
      → at w.disk (upload_marker_for bag) ≡ none
      → at w.disk (temp_name (upload_marker_for bag) (u.secret w.disk)) ≡ none
      → w.disk.full ≡ false
      → w.disk.stuck ≡ false
      → ((on_bag_complete u bag w).0 ≡ ok true) × Delivered u bag w (on_bag_complete u bag w).1
  on_bag_complete-Live bag w c reach free fresh room removes =
      let done = on_bag_complete-ok bag w c reach free fresh room removes in
      (
        done,
        Shipped-Delivered u bag w (on_bag_complete u bag w) done (on_bag_complete-Shipped u bag w),
      )
