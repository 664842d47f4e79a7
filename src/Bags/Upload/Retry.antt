-- ===== src/Bags/Upload/Retry.antt =====
-- upload_daemon.py: how often `_send_with_retry` sends, and when it succeeds.
use patrol_drone.Prelude.{
  ℕ, zero, suc, ◌+◌, ◌≤◌, ◌-◌, ltb, leb, ◌&&◌, Bool, true, false, String, List, [], ◌∷◌, ◌≡◌, refl,
  ap, ◌∙◌, Result, ℤ, pos, negsuc, pos_part, ◌+ℤ◌, subst, ok, err, arith,
}
use patrol_drone.Bags.Disk.{Fault}
use patrol_drone.Bags.Upload.{
  Event, sent, slept, Transport, UploadDaemon, rounds, pause, settle, attempts, send_with_retry,
}

-- how often the transport was asked, how often it confirmed, and the pauses
abbrev pub tries : List Event → ℕ
tries [] = 0
tries (sent path target r ∷ log) = suc (tries log)
tries (slept ∷ log) = tries log

abbrev pub confirms : List Event → ℕ
confirms [] = 0
confirms (sent path target (ok true) ∷ log) = suc (confirms log)
confirms (sent path target (ok false) ∷ log) = confirms log
confirms (sent path target (err e) ∷ log) = confirms log
confirms (slept ∷ log) = confirms log

abbrev pub naps : List Event → ℕ
naps [] = 0
naps (sent path target r ∷ log) = naps log
naps (slept ∷ log) = suc (naps log)

-- What `n` attempts may come to, from the log before them.
abbrev pub Tried : ℕ → List Event → Result Fault Bool × List Event → Type 0
Tried n log (ok true, log') =
    (confirms log' ≡ confirms log + 1)
    × (tries log + 1 ≤ tries log')
    × (tries log' ≤ tries log + n)
    × (naps log' + tries log + 1 ≡ naps log + tries log')
Tried n log (ok false, log') =
    (confirms log' ≡ confirms log) × (tries log' ≡ tries log + n) × (naps log' ≡ naps log + (n - 1))
Tried n log (err e, log') =
    (confirms log' ≡ confirms log)
    × (tries log + 1 ≤ tries log')
    × (tries log' ≤ tries log + n)
    × (naps log' + tries log + 1 ≡ naps log + tries log')

tries-pause : (n : ℕ) (log : List Event) → tries (pause n log) ≡ tries log
tries-pause zero log = refl
tries-pause (suc n) log = refl

confirms-pause : (n : ℕ) (log : List Event) → confirms (pause n log) ≡ confirms log
confirms-pause zero log = refl
confirms-pause (suc n) log = refl

settle-Tried :
    (path target : String) (n : ℕ) (log : List Event) (r : Result Fault Bool)
    (later : Result Fault Bool × List Event)
    → Tried n (pause n (sent path target r ∷ log)) later
    → Tried (suc n) log (settle r (sent path target r ∷ log) later)
settle-Tried path target n log (ok true) later h = omega arith
settle-Tried path target n log (err e) later h = omega arith
settle-Tried path target zero log (ok false) (ok true, log') h = omega arith
settle-Tried path target zero log (ok false) (ok false, log') h = omega arith
settle-Tried path target zero log (ok false) (err e, log') h = omega arith
settle-Tried path target (suc n) log (ok false) (ok true, log') h = omega arith
settle-Tried path target (suc n) log (ok false) (ok false, log') h = omega arith
settle-Tried path target (suc n) log (ok false) (err e, log') h = omega arith

pub attempts-Tried :
    (transport : Transport) (path target : String) (n : ℕ) (log : List Event)
    → Tried n log (attempts transport path target n log)
unfolding attempts
attempts-Tried transport path target zero log = omega arith
attempts-Tried transport path target (suc n) log =
    settle-Tried path target n log (transport log path target)
      (attempts transport path target n
        (pause n (sent path target (transport log path target) ∷ log)))
      (attempts-Tried transport path target n
        (pause n (sent path target (transport log path target) ∷ log)))

-- `max_retries + 1`, or none at all where that is below zero
abbrev pub allowed : UploadDaemon → ℕ
allowed u = pos_part (u.max_retries +ℤ pos 1)

rounds-allowed : (n : ℤ) → rounds n ≡ pos_part (n +ℤ pos 1)
rounds-allowed (pos n) = ground arith
rounds-allowed (negsuc n) = ground arith

pub send_with_retry-Tried :
    (u : UploadDaemon) (path : String) (log : List Event)
    → Tried (allowed u) log (send_with_retry u path log)
unfolding send_with_retry
send_with_retry-Tried u path log =
    subst (λ n. Tried n log (send_with_retry u path log)) (rounds-allowed u.max_retries)
      (attempts-Tried u.transport path u.target (rounds u.max_retries) log)

-- The transport refuses until it has been asked `k` times, and confirms from then on.
abbrev pub Flaky : Transport → ℕ → Type 0
Flaky transport k =
    (log : List Event) (path target : String) → transport log path target ≡ ok (leb k (tries log))

bounds_step :
    (k t t' n : ℕ)
    → leb k t ≡ false
    → t' ≡ suc t
    → ltb k (t' + n) && ltb 0 n ≡ ltb k (t + suc n) && ltb 0 (suc n)
bounds_step k t t' n e h = ground arith

settle_flaky :
    (b : Bool) (k t n : ℕ) (log' : List Event) (later : Result Fault Bool × List Event)
    → leb k t ≡ b
    → (b ≡ false → later.0 ≡ ok (ltb k (t + suc n) && ltb 0 (suc n)))
    → (settle (ok b) log' later).0 ≡ ok (ltb k (t + suc n) && ltb 0 (suc n))
settle_flaky true k t n log' later e h = ground arith
settle_flaky false k t n log' later e h = h refl

recovers :
    (transport : Transport) (path target : String) (k n : ℕ) (log : List Event)
    → Flaky transport k
    → (attempts transport path target n log).0 ≡ ok (ltb k (tries log + n) && ltb 0 n)
unfolding attempts
recovers transport path target k zero log f = ground arith
recovers transport path target k (suc n) log f = rw (f log path target) (
    settle_flaky (leb k (tries log)) k (tries log) n _ _ refl λ e.
      recovers transport path target k n (pause n (sent path target (ok (leb k (tries log))) ∷ log))
        f
      ∙ ap ok (
          bounds_step k (tries log)
            (tries (pause n (sent path target (ok (leb k (tries log))) ∷ log))) n e
            (tries-pause n (sent path target (ok (leb k (tries log))) ∷ log))))

-- Over a transport that refuses until it has been asked `k` times in all, sending a file succeeds
-- exactly if the attempts that there are reach beyond the refusals.
pub send_with_retry-Recovers :
    (u : UploadDaemon) (path : String) (k : ℕ) (log : List Event)
    → Flaky u.transport k
    → (send_with_retry u path log).0 ≡ ok (ltb k (tries log + allowed u) && ltb 0 (allowed u))
unfolding send_with_retry
send_with_retry-Recovers u path k log f =
    subst (λ n. (send_with_retry u path log).0 ≡ ok (ltb k (tries log + n) && ltb 0 n))
      (rounds-allowed u.max_retries)
      (recovers u.transport path u.target k (rounds u.max_retries) log f)
