-- ===== src/Bags/Upload/Ship.antt =====
-- upload_daemon.py: what `on_bag_complete` comes to, branch by branch.
use text.Mathlib.TextPositions.{eq_refl}
use patrol_drone.Prelude.{
  Bool, true, false, String, List, [], ◌∷◌, ◌≡◌, ◌≢◌, refl, ◌∙◌, ap, ◌⊎◌, inl, inr, Result, ok, err,
  Bool-cases,
}
use patrol_drone.Bags.Disk.{Fault}
use patrol_drone.Bags.Publish.{Disk, at}
use patrol_drone.Bags.Publish.Crash.{Left}
use patrol_drone.Bags.Upload.{
  Event, UploadDaemon, World, upload_marker_for, sidecar_path_for, is_complete, is_already_uploaded,
  canonical_target, send_with_retry, send_rest, send_all, marked, mark_if_sent, receipt_bytes,
  write_upload_marker, on_bag_complete,
}
use patrol_drone.Bags.Upload.Answers.{
  Confirmed, Refused, Raised, Answered, send_with_retry-Answered,
}
use patrol_drone.Bags.Upload.Receipt.{Receipted, write_upload_marker-Receipted}

-- What sending two files, one after the other, comes to: the second is sent only where the first is
-- confirmed.
abbrev pub Sent : String → String → String → List Event → Result Fault Bool × List Event → Type 0
Sent bag sidecar target log (ok true, log') =
    (mid : List Event) × Confirmed bag target log mid × Confirmed sidecar target mid log'
Sent bag sidecar target log (ok false, log') =
    Refused bag target log log'
    ⊎ ((mid : List Event) × Confirmed bag target log mid × Refused sidecar target mid log')
Sent bag sidecar target log (err e, log') =
    Raised bag target e log log'
    ⊎ ((mid : List Event) × Confirmed bag target log mid × Raised sidecar target e mid log')

send_last :
    (u : UploadDaemon) (bag sidecar : String) (log mid : List Event)
    (r : Result Fault Bool × List Event)
    → Confirmed bag u.target log mid
    → Answered sidecar u.target mid r
    → Sent bag sidecar u.target log (send_rest r (send_all u []))
unfolding send_all
send_last u bag sidecar log mid (ok true, log') h k = (mid, h, k)
send_last u bag sidecar log mid (ok false, log') h k = inr (mid, h, k)
send_last u bag sidecar log mid (err e, log') h k = inr (mid, h, k)

send_first :
    (u : UploadDaemon) (bag sidecar : String) (log : List Event)
    (r : Result Fault Bool × List Event)
    → Answered bag u.target log r
    → Sent bag sidecar u.target log (send_rest r (send_all u (sidecar ∷ [])))
unfolding send_all
send_first u bag sidecar log (ok true, mid) h =
    send_last u bag sidecar log mid (send_with_retry u sidecar mid) h
      (send_with_retry-Answered u sidecar mid)
send_first u bag sidecar log (ok false, log') h = inl h
send_first u bag sidecar log (err e, log') h = inl h

send_both :
    (u : UploadDaemon) (bag sidecar : String) (log : List Event)
    → Sent bag sidecar u.target log (send_all u (bag ∷ sidecar ∷ []) log)
unfolding send_all
send_both u bag sidecar log =
    send_first u bag sidecar log (send_with_retry u bag log) (send_with_retry-Answered u bag log)

module _ (u : UploadDaemon) (bag : String) (w : World) where
  -- What handing a bag to the daemon may come to.
  abbrev pub Shipped : Result Fault Bool × World → Type 0
  Shipped (ok true, w') =
      (is_complete w.disk.entries bag ≡ true)
      × Sent bag (sidecar_path_for bag) u.target w.log (ok true, w'.log)
      × (is_already_uploaded w'.disk.entries bag u.target ≡ ok true)
      × ((k : String) → k ≢ upload_marker_for bag → at w'.disk k ≡ at w.disk k)
  Shipped (ok false, w') =
      ((is_complete w.disk.entries bag ≡ false) × (w' ≡ w))
      ⊎ ((is_complete w.disk.entries bag ≡ true)
          × (w'.disk ≡ w.disk)
          × Sent bag (sidecar_path_for bag) u.target w.log (ok false, w'.log))
  Shipped (err e, w') =
      (is_complete w.disk.entries bag ≡ true)
      × (((k : String) → at w'.disk k ≡ at w.disk k)
          ⊎ Left (upload_marker_for bag) "" (receipt_bytes bag u.target) w.disk w'.disk)

  marked-Shipped :
      (log : List Event) (r : Result Fault Unit × Disk)
      → is_complete w.disk.entries bag ≡ true
      → Sent bag (sidecar_path_for bag) u.target w.log (ok true, log)
      → Receipted bag u.target w.disk r
      → Shipped (marked log r)
  marked-Shipped log (ok _, d') c e (x, up, others) =
      (c, e, up u.target ∙ ap ok (eq_refl (canonical_target u.target)), others)
  marked-Shipped log (err f, d') c e h = (c, h)

  outcome-Shipped :
      (r : Result Fault Bool × List Event)
      → is_complete w.disk.entries bag ≡ true
      → Sent bag (sidecar_path_for bag) u.target w.log r
      → Shipped (mark_if_sent u bag w.disk r)
  outcome-Shipped (ok true, log) c h =
      marked-Shipped log (write_upload_marker (u.secret w.disk) bag u.target w.disk) c h
        (write_upload_marker-Receipted (u.secret w.disk) bag u.target w.disk)
  outcome-Shipped (ok false, log) c h = inr (c, refl, h)
  outcome-Shipped (err e, log) c h = (c, inl (λ k. refl))

  -- The daemon says true only of a complete bag of which first the bag itself and then its sidecar was
  -- confirmed to the target, with nothing sent between but refused attempts of the same file; then the
  -- bag counts as uploaded to its target and nothing but the marker has changed on the disk. It says
  -- false of an incomplete bag, of which it sends nothing, and where every attempt of the bag, or after
  -- its confirmation of the sidecar, was refused; then the disk is as it was. Where it raises, the bag
  -- is complete and no name on the disk has changed, or a removal failed and all that may have changed is
  -- that the marker and its temporary file are there.
  pub on_bag_complete-Shipped : Shipped (on_bag_complete u bag w)
  unfolding on_bag_complete
  on_bag_complete-Shipped = elim (Bool-cases (is_complete w.disk.entries bag)) [
    | inl c ↦ rw c (
        outcome-Shipped (send_all u (bag ∷ sidecar_path_for bag ∷ []) w.log) c
          (send_both u bag (sidecar_path_for bag) w.log))
    | inr c ↦ rw c (inl (c, refl))
  ]
