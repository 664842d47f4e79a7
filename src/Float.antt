-- ===== src/Float.antt =====
-- Python's `float` and the part of `math` that the program calls. The checker has no binary floating
-- point, so the type and its operations are an interface that the whole development takes as an
-- instance argument. `FloatLaws` names the facts about IEEE 754 numbers that some theorems need.
pub mod Fixed
use patrol_drone.Prelude.{ℕ, ℤ, ◌≡◌, Bool, true, false, Option, String}

pub record Float : Type 1 where
  pub F : Type 0
  -- A decimal literal, in thousandths: `milli 350` is 0.35.
  pub milli : ℕ → F
  pub pi : F
  pub add : F → F → F
  pub sub : F → F → F
  pub neg : F → F
  pub mul : F → F → F
  -- x / 2.0
  pub half : F → F
  -- a <= b, a < b: false where either is not a number
  pub le : F → F → Bool
  pub lt : F → F → Bool
  -- math.isfinite
  pub is_finite : F → Bool
  -- math.dist on three coordinates
  pub dist : F × F × F → F × F × F → F
  -- math.tan, math.sin, math.cos, math.atan2, math.remainder
  pub tan : F → F
  pub sin : F → F
  pub cos : F → F
  pub atan2 : F → F → F
  pub remainder : F → F → F
  -- x == y
  pub eq : F → F → Bool
  -- float(n) of an int, where it does not overflow, and float(s) of a string that is a number
  pub of_int : ℤ → Option F
  pub of_text : String → Option F
  -- int(x), where x is neither infinite nor not a number
  pub truncate : F → Option ℤ
  -- i + x of an int and a float, and n / 1e9
  pub add_int : ℤ → F → F
  pub of_nanos : ℤ → F

-- Facts of the format, all of which hold of IEEE 754 binary64 with rounding to nearest.
module _ ⦃fl : Float⦄ where
  open fl use {F, milli, sub, le, lt, is_finite, dist}

  pub record FloatLaws : Type 0 where
    pub le_trans : (a b c : F) → le a b ≡ true → le b c ≡ true → le a c ≡ true
    -- a difference does not grow when what is taken away grows
    pub sub_mono :
        (t a b : F)
        → is_finite t ≡ true
        → is_finite a ≡ true
        → is_finite b ≡ true
        → le a b ≡ true
        → le (sub t b) (sub t a) ≡ true
    pub lt-le : (a b : F) → lt a b ≡ true → le b a ≡ false
