-- ===== src/Bags/Ingest/Steady.antt =====
-- docker/ingest/__main__.py: what may stop the loop.
use patrol_drone.Prelude.{
  ◌⊎◌, Bool, true, false, String, ◌≡◌, refl, Result, ok, err, raise_if, ◌>>=◌,
}
use patrol_drone.Float.{Float}
use patrol_drone.Shared.BoundedSeen.{BoundedSeen}
use patrol_drone.Bags.Disk.{Fault, recursion_error, Entries}
use patrol_drone.Bags.Ingest.{BagFactsReader}
use patrol_drone.Bags.Ingest.Watch.{is_ingest_fault}

-- It returns, or raises what the loop catches.
abbrev pub Mild : {A : Type 0} → Result Fault A → Type 0
Mild (ok a) = Unit
Mild (err e) = is_ingest_fault e ≡ true

pub Mild-bind :
    {A B : Type 0} (m : Result Fault A) (f : A → Result Fault B)
    → Mild m
    → ((a : A) → m ≡ ok a → Mild (f a))
    → Mild (m >>= f)
Mild-bind (ok a) f h k = k a refl
Mild-bind (err e) f h k = h

pub raise_if-Mild : (b : Bool) (e : Fault) → is_ingest_fault e ≡ true → Mild (raise_if b e)
raise_if-Mild true e h = h
raise_if-Mild false e h = tt

-- It returns, or raises what the loop catches, or RecursionError.
abbrev Shallow : {A : Type 0} → Result Fault A → Type 0
Shallow (ok a) = Unit
Shallow (err e) = (is_ingest_fault e ≡ true) ⊎ (e ≡ recursion_error)

module _ ⦃fl : Float⦄ (bag_facts : BagFactsReader) where
  -- a reading of the facts of a bag raised this fault
  abbrev pub FromReader : Fault → Type 0
  FromReader e = (es : Entries) × (bag : String) × (bag_facts es bag ≡ err e)

  -- It comes from a reading of facts, or from JSON that is nested too deep.
  abbrev pub Source : Fault → Type 0
  Source e = FromReader e ⊎ (e ≡ recursion_error)

  -- It returns, or raises what the loop catches, or a fault from one of these sources.
  abbrev Excused : {A : Type 0} → Result Fault A → Type 0
  Excused (ok a) = Unit
  Excused (err e) = (is_ingest_fault e ≡ true) ⊎ Source e

  -- It returns, or raises what the loop does not catch, from one of these sources.
  abbrev pub Stops : {A : Type 0} → Result Fault A → Type 0
  Stops (ok a) = Unit
  Stops (err e) = (is_ingest_fault e ≡ false) × Source e
