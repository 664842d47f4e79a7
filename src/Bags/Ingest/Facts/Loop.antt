-- ===== src/Bags/Ingest/Facts/Loop.antt =====
-- docker/ingest: the loop of __main__.py over the reader of bag_reader.py.
use patrol_drone.Prelude.{true, String, ◌≡◌, ◌⊎◌, Option, Result, ok, err, ℤ}
use patrol_drone.Float.{Float}
use patrol_drone.Mission.Config.Yaml.{Yaml}
use patrol_drone.Bags.Disk.{Fault, recursion_error, overflow_error, Contents}
use patrol_drone.Bags.Ingest.Watch.{is_ingest_fault}
use patrol_drone.Bags.Ingest.Steady.{Mild}
use patrol_drone.Bags.Ingest.Facts.{BagFacts}

-- It returns, or raises what the loop catches, or OverflowError.
abbrev Spared : {A : Type 0} → Result Fault A → Type 0
Spared (ok a) = Unit
Spared (err e) = (is_ingest_fault e ≡ true) ⊎ (e ≡ overflow_error)

module _ ⦃fl : Float⦄ where
  module _ (int_text : String → Option ℤ) (str_of : Yaml → String)
      (safe_load : Contents → Result Fault Yaml) (bag_info : String → Result Fault BagFacts) where
    -- PyYAML raises nothing but what the loop catches.
    abbrev pub LoadsMildly : Type 0
    LoadsMildly = (c : Contents) → Mild (safe_load c)

    -- `ros2 bag info` and the parser of its text raise nothing but what the loop catches.
    abbrev pub InfoIsMild : Type 0
    InfoIsMild = (bag : String) → Mild (bag_info bag)

    abbrev pub OnlyOverflows : {A : Type 0} → Result Fault A → Type 0
    OnlyOverflows (ok a) = Unit
    OnlyOverflows (err e) = (e ≡ overflow_error) ⊎ (e ≡ recursion_error)
