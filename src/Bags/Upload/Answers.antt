-- ===== src/Bags/Upload/Answers.antt =====
-- upload_daemon.py: which file is confirmed to which target, attempt by attempt.
use mathlib.Core.List.{append_assoc}
use patrol_drone.Prelude.{
  ℕ, zero, suc, Bool, true, false, String, List, [], ◌∷◌, ◌++◌, ◌≡◌, refl, sym, ap, ◌∙◌, ◌⊎◌, inl,
  inr, Result, ok, err, All,
}
use patrol_drone.Bags.Disk.{Fault}
use patrol_drone.Bags.Upload.{
  Event, sent, slept, Transport, UploadDaemon, rounds, pause, settle, attempts, send_with_retry,
}

-- a pause, or a refusal of this file for this target
abbrev Refusal : String → String → Event → Type 0
Refusal path target e = (e ≡ slept) ⊎ (e ≡ sent path target (ok false))

-- The last event is the confirmation of this file; before it only refusals of it were added.
abbrev pub Confirmed : String → String → List Event → List Event → Type 0
Confirmed path target log log' =
    (before : List Event) × (log' ≡ sent path target (ok true) ∷ (before ++ log))
    × All (Refusal path target) before

-- Only refusals of this file were added.
abbrev pub Refused : String → String → List Event → List Event → Type 0
Refused path target log log' =
    (added : List Event) × (log' ≡ added ++ log) × All (Refusal path target) added

-- The last event is the fault, with this file; before it only refusals of it were added.
abbrev pub Raised : String → String → Fault → List Event → List Event → Type 0
Raised path target e log log' =
    (before : List Event) × (log' ≡ sent path target (err e) ∷ (before ++ log))
    × All (Refusal path target) before

-- What sending one file comes to.
abbrev pub Answered : String → String → List Event → Result Fault Bool × List Event → Type 0
Answered path target log (ok true, log') = Confirmed path target log log'
Answered path target log (ok false, log') = Refused path target log log'
Answered path target log (err e, log') = Raised path target e log log'

-- the same, after an attempt that was refused and the pause after it
module _ (path target : String) (log : List Event) where
  pause-Refused : (n : ℕ) → Refused path target log (pause n (sent path target (ok false) ∷ log))
  pause-Refused zero = (sent path target (ok false) ∷ [], refl, (inr refl, tt))
  pause-Refused (suc n) =
      (slept ∷ sent path target (ok false) ∷ [], refl, (inl refl, (inr refl, tt)))

  joined : (ys xs mid : List Event) → mid ≡ xs ++ log → ys ++ mid ≡ (ys ++ xs) ++ log
  joined ys xs mid e = ap (λ z. ys ++ z) e ∙ sym (append_assoc ys xs log)

  All-append :
      (xs ys : List Event)
      → All (Refusal path target) xs
      → All (Refusal path target) ys
      → All (Refusal path target) (xs ++ ys)
  All-append [] ys h k = k
  All-append (x ∷ xs) ys (p, h) k = (p, All-append xs ys h k)

  after-Answered :
      (mid : List Event) (r : Result Fault Bool × List Event)
      → Refused path target log mid
      → Answered path target mid r
      → Answered path target log r
  after-Answered mid (ok true, log') (xs, e, all) (ys, e', all') = (
    ys ++ xs,
    e' ∙ ap (λ z. sent path target (ok true) ∷ z) (joined ys xs mid e),
    All-append ys xs all' all,
  )
  after-Answered mid (ok false, log') (xs, e, all) (ys, e', all') =
      (ys ++ xs, e' ∙ joined ys xs mid e, All-append ys xs all' all)
  after-Answered mid (err f, log') (xs, e, all) (ys, e', all') = (
    ys ++ xs,
    e' ∙ ap (λ z. sent path target (err f) ∷ z) (joined ys xs mid e),
    All-append ys xs all' all,
  )

  settle-Answered :
      (r : Result Fault Bool) (n : ℕ) (later : Result Fault Bool × List Event)
      → Answered path target (pause n (sent path target r ∷ log)) later
      → Answered path target log (settle r (sent path target r ∷ log) later)
  settle-Answered (ok true) n later h = ([], refl, tt)
  settle-Answered (ok false) n later h = after-Answered _ later (pause-Refused n) h
  settle-Answered (err e) n later h = ([], refl, tt)

attempts-Answered :
    (transport : Transport) (path target : String) (n : ℕ) (log : List Event)
    → Answered path target log (attempts transport path target n log)
unfolding attempts
attempts-Answered transport path target zero log = ([], refl, tt)
attempts-Answered transport path target (suc n) log =
    let answer = transport log path target in
    let log' = pause n (sent path target answer ∷ log) in
    settle-Answered path target log answer n (attempts transport path target n log')
      (attempts-Answered transport path target n log')

pub send_with_retry-Answered :
    (u : UploadDaemon) (path : String) (log : List Event)
    → Answered path u.target log (send_with_retry u path log)
unfolding send_with_retry
send_with_retry-Answered u path log =
    attempts-Answered u.transport path u.target (rounds u.max_retries) log
