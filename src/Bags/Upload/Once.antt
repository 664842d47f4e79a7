-- ===== src/Bags/Upload/Once.antt =====
-- upload_daemon/__main__.py: a bag that has its receipt is not sent again, over any run of the loop.
use text.Mathlib.Text.{◌==◌}
use patrol_drone.Prelude.{
  inl, inr, ap, ◌∙◌, ℕ, zero, suc, Bool, true, false, ◌||◌, not, String, List, [], ◌∷◌, ◌≡◌, ◌≢◌,
  refl, sym, ◌∙◌, Result, ok, err, if◌then◌else◌, if_cases, All, some,
}
use patrol_drone.Shared.BoundedSeen.{BoundedSeen, contains_bag}
use patrol_drone.Bags.Disk.{Fault, Entries, lookup}
use patrol_drone.Bags.Disk.Lookup.{==-ne}
use patrol_drone.Bags.Publish.{at, Disk}
use patrol_drone.Bags.Upload.{
  Event, sent, slept, Transport, UploadDaemon, World, rounds, pause, settle, attempts,
  upload_marker_for, sidecar_path_for, is_complete, is_already_uploaded, send_with_retry, send_rest,
  send_all, marked, mark_if_sent, write_upload_marker, on_bag_complete, iter_bag_dirs,
}
use patrol_drone.Bags.Upload.Receipt.{
  Receipted, write_upload_marker-Receipted, same_marker-uploaded, marker-ne, uploaded-there,
}
use patrol_drone.Bags.Upload.Watch.{
  unless_uploaded, Session, caught, try_upload, remember, drain_bag, and_then, drain_bags,
  drain_once, meanwhile, watch_loop, is_upload_fault,
}

-- how often the file at `path` was given to the transport
abbrev pub sends : String → List Event → ℕ
sends path [] = 0
sends path (sent p target r ∷ log) = if p == path then suc (sends path log) else sends path log
sends path (slept ∷ log) = sends path log

sends-pause : (path : String) (n : ℕ) (log : List Event) → sends path (pause n log) ≡ sends path log
sends-pause path zero log = refl
sends-pause path (suc n) log = refl

settle-log :
    (path : String) (m : ℕ) (r : Result Fault Bool) (log : List Event)
    (later : Result Fault Bool × List Event)
    → sends path log ≡ m
    → sends path later.1 ≡ m
    → sends path (settle r log later).1 ≡ m
settle-log path m (ok true) log later e f = e
settle-log path m (ok false) log later e f = f
settle-log path m (err x) log later e f = e

attempts-other :
    (t : Transport) (p path target : String) (n : ℕ) (log : List Event)
    → (p == path) ≡ false
    → sends path (attempts t p target n log).1 ≡ sends path log
unfolding attempts
attempts-other t p path target zero log h = refl
attempts-other t p path target (suc n) log h =
    let log' : List Event = sent p target (t log p target) ∷ log in
    let same : sends path log' ≡ sends path log = rw h refl in
    settle-log path (sends path log) (t log p target) log' (attempts t p target n (pause n log'))
      same (attempts-other t p path target n (pause n log') h ∙ sends-pause path n log' ∙ same)

module _ (u : UploadDaemon) (bag : String) where
  -- The bag counts as uploaded, and was sent `m` times so far.
  abbrev pub Handled : ℕ → World → Type 0
  Handled m w = (is_already_uploaded w.disk.entries bag u.target ≡ ok true) × (sends bag w.log ≡ m)

  rest-log :
      (m : ℕ) (r : Result Fault Bool × List Event) (f : List Event → Result Fault Bool × List Event)
      → sends bag r.1 ≡ m
      → ((log : List Event) → sends bag log ≡ m → sends bag (f log).1 ≡ m)
      → sends bag (send_rest r f).1 ≡ m
  rest-log m (ok true, log) f h k = k log h
  rest-log m (ok false, log) f h k = h
  rest-log m (err e, log) f h k = h

  retry-other :
      (p : String) (log : List Event)
      → (p == bag) ≡ false
      → sends bag (send_with_retry u p log).1 ≡ sends bag log
  unfolding send_with_retry
  retry-other p log h = attempts-other u.transport p bag u.target (rounds u.max_retries) log h

  both-other :
      (b side : String) (log : List Event) (m : ℕ)
      → (b == bag) ≡ false
      → (side == bag) ≡ false
      → sends bag log ≡ m
      → sends bag (send_all u (b ∷ side ∷ []) log).1 ≡ m
  unfolding send_all
  both-other b side log m h k e =
      rest-log m (send_with_retry u b log) (send_all u (side ∷ [])) (retry-other b log h ∙ e)
        λ log1 e1.
          rest-log m (send_with_retry u side log1) (send_all u []) (retry-other side log1 k ∙ e1)
            λ log2 e2. e2

  marked-Handled :
      (m : ℕ) (b : String) (d : Disk) (log : List Event) (r : Result Fault Unit × Disk)
      → bag ≢ b
      → is_already_uploaded d.entries bag u.target ≡ ok true
      → sends bag log ≡ m
      → Receipted b u.target d r
      → Handled m (marked log r).1
  marked-Handled m b d log (ok _, d') ne up e (x, y, others) = (
    same_marker-uploaded d.entries d'.entries bag u.target
          (others (upload_marker_for bag) (marker-ne b bag ne))
        ∙ up,
    e,
  )
  marked-Handled m b d log (err f, d') ne up e (inr (_, (left, free, _, others))) = (
    same_marker-uploaded d.entries d'.entries bag u.target (
          others (upload_marker_for bag) (marker-ne b bag ne)
            λ same. uploaded-there d.entries bag u.target up (ap (at d) same ∙ free))
        ∙ up,
    e,
  )
  marked-Handled m b d log (err f, d') ne up e (inl same) = (
    same_marker-uploaded d.entries d'.entries bag u.target (same (upload_marker_for bag)) ∙ up,
    e,
  )

  sent-Handled :
      (m : ℕ) (b : String) (d : Disk) (r : Result Fault Bool × List Event)
      → bag ≢ b
      → is_already_uploaded d.entries bag u.target ≡ ok true
      → sends bag r.1 ≡ m
      → Handled m (mark_if_sent u b d r).1
  sent-Handled m b d (ok true, log) ne up e =
      marked-Handled m b d log (write_upload_marker (u.secret d) b u.target d) ne up e
        (write_upload_marker-Receipted (u.secret d) b u.target d)
  sent-Handled m b d (ok false, log) ne up e = (up, e)
  sent-Handled m b d (err f, log) ne up e = (up, e)

  -- No other bag has this one for its sidecar.
  abbrev pub NoSidecar : Type 0
  NoSidecar = (b : String) → sidecar_path_for b ≢ bag

  other-Handled :
      (m : ℕ) (b : String) (w : World)
      → NoSidecar
      → bag ≢ b
      → Handled m w
      → Handled m (on_bag_complete u b w).1
  unfolding on_bag_complete
  other-Handled m b w side ne (up, e) =
      if_cases (λ (r : Result Fault Bool × World). Handled m r.1)
        (not (is_complete w.disk.entries b)) _ _ (λ _. (up, e))
        (λ _. sent-Handled m b w.disk (send_all u (b ∷ sidecar_path_for b ∷ []) w.log) ne up (
          both-other b (sidecar_path_for b) w.log m (==-ne b bag (λ q. ne (sym q)))
            (==-ne (sidecar_path_for b) bag (side b)) e))

  caught-Handled : (m : ℕ) (r : Result Fault Bool × World) → Handled m r.1 → Handled m (caught r).1
  caught-Handled m (ok b, w) h = h
  caught-Handled m (err e, w) h =
      if_cases (λ (r : Result Fault Bool × World). Handled m r.1) (is_upload_fault e) _ _ (λ _. h)
        (λ _. h)

  remember-Handled :
      (m : ℕ) (b : String) (seen : BoundedSeen) (r : Result Fault Bool × World)
      → Handled m r.1
      → Handled m (remember b seen r).1.0
  remember-Handled m b seen (ok true, w) h = h
  remember-Handled m b seen (ok false, w) h = h
  remember-Handled m b seen (err e, w) h = h

  unless-Handled :
      (m : ℕ) (b : String) (w : World) (seen : BoundedSeen) (r : Result Fault Bool)
      → is_already_uploaded w.disk.entries b u.target ≡ r
      → NoSidecar
      → Handled m w
      → Handled m (unless_uploaded u b (w, seen) r).1.0
  unfolding try_upload
  unless-Handled m b w seen (ok true) new side h = h
  unless-Handled m b w seen (ok false) new side h =
      remember-Handled m b seen (caught (on_bag_complete u b w)) (
        caught-Handled m (on_bag_complete u b w)
          (other-Handled m b w side (λ q. cc (h.0, new, q)) h))
  unless-Handled m b w seen (err e) new side h = h

  drain_bag-Handled :
      (m : ℕ) (b : String) (s : Session)
      → NoSidecar
      → Handled m s.0
      → Handled m (drain_bag u b s).1.0
  unfolding drain_bag
  drain_bag-Handled m b (w, seen) side h =
      if_cases (λ (r : Result Fault Unit × Session). Handled m r.1.0)
        (contains_bag seen b || not (is_complete w.disk.entries b)) _ _ (λ _. h)
        (λ _. unless-Handled m b w seen _ refl side h)

  and_then-Handled :
      (m : ℕ) (r : Result Fault Unit × Session) (f : Session → Result Fault Unit × Session)
      → Handled m r.1.0
      → ((s : Session) → Handled m s.0 → Handled m (f s).1.0)
      → Handled m (and_then r f).1.0
  and_then-Handled m (ok _, s) f h k = k s h
  and_then-Handled m (err e, s) f h k = h

  drain_bags-Handled :
      (m : ℕ) (bags : List String) (s : Session)
      → NoSidecar
      → Handled m s.0
      → Handled m (drain_bags u bags s).1.0
  unfolding drain_bags
  drain_bags-Handled m [] s side h = h
  drain_bags-Handled m (b ∷ bags) s side h =
      and_then-Handled m (drain_bag u b s) (drain_bags u bags) (drain_bag-Handled m b s side h)
        λ s' h'. drain_bags-Handled m bags s' side h'

  drain_once-Handled :
      (m : ℕ) (s : Session) → NoSidecar → Handled m s.0 → Handled m (drain_once u s).1.0
  unfolding drain_once
  drain_once-Handled m (w, seen) side h =
      drain_bags-Handled m (iter_bag_dirs (some w.disk.entries)) (w, seen) side h

  -- Another process leaves the marker of the bag alone.
  abbrev pub Spares : (Entries → Entries) → Type 0
  Spares change =
      (es : Entries)
      → lookup (upload_marker_for bag) (change es) ≡ lookup (upload_marker_for bag) es

  -- Where a bag has a valid receipt for the target, no other bag has it for a sidecar, and no other
  -- process touches its marker, the daemon never gives it to the transport again, however long it runs,
  -- however often its set of seen bags forgets the bag, and whatever else changes between the polls;
  -- and the receipt stays valid.
  pub watch_loop-Handled :
      (m : ℕ) (changes : List (Entries → Entries)) (s : Session)
      → NoSidecar
      → All Spares changes
      → Handled m s.0
      → Handled m (watch_loop u changes s).1.0
  unfolding watch_loop
  watch_loop-Handled m [] s side spare h = h
  watch_loop-Handled m (change ∷ changes) (w, seen) side spare h =
      and_then-Handled m (drain_once u (meanwhile change (w, seen))) (watch_loop u changes)
        (drain_once-Handled m (meanwhile change (w, seen)) side (
          same_marker-uploaded w.disk.entries (change w.disk.entries) bag u.target
                (spare.0 w.disk.entries)
              ∙ h.0,
          h.1,
        ))
        λ s' h'. watch_loop-Handled m changes s' side spare.1 h'
