-- ===== src/Bags/Dates.antt =====
-- What the bag pipeline uses of Python's `datetime`, as an interface: the type, its texts, and the
-- reading of an ISO text.
use patrol_drone.Prelude.{String, Option, some, ◌≡◌, false}
use patrol_drone.Bags.Text.{any_char, is_empty, is_slash}

pub record Dates : Type 1 where
  pub DateTime : Type 0
  pub isoformat : DateTime → String
  pub fromisoformat : String → Option DateTime
  -- strftime with the format of a bag name, and with the format of a run id
  pub bag_stamp : DateTime → String
  pub run_stamp : DateTime → String

module _ ⦃dates : Dates⦄ where
  open dates use {DateTime, isoformat, fromisoformat, bag_stamp}

  -- Documented: `fromisoformat` reads what `isoformat` writes, which is not empty; `%Y%m%d_%H%M%S` gives
  -- digits.
  pub record DatesLaws : Type 0 where
    pub from_iso : (d : DateTime) → fromisoformat (isoformat d) ≡ some d
    pub written : (d : DateTime) → is_empty (isoformat d) ≡ false
    pub digits : (d : DateTime) → any_char is_slash (bag_stamp d) ≡ false
