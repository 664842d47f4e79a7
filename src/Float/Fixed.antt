-- ===== src/Float/Fixed.antt =====
-- A concrete number type that meets the interface: whole thousandths with infinities and NaN. The
-- tests and examples run on it. Its `dist` is the largest coordinate difference, which is the
-- Euclidean distance of points that differ in one coordinate; its trigonometry is a placeholder.
use Prim.Native.Nat.{◌/◌, max}
use patrol_drone.Prelude.{
  ℕ, ◌+◌, ◌*◌, ◌≡◌, Bool, true, false, ◌&&◌, arith, ℤ, pos, negsuc, pos_part, neg_part, sub_ℕ,
  Option, ◌+ℤ◌, ◌-ℤ◌, neg_ℤ, leb_ℤ, ltb_ℤ, -ℤ_parts, some, none,
}
use patrol_drone.Float.{Float, FloatLaws}

pub data Fixed : Type 0 where
  fin : ℤ → Fixed
  inf neg_inf nan : Fixed

abbrev neg_fixed : Fixed → Fixed
neg_fixed (fin a) = fin (neg_ℤ a)
neg_fixed inf = neg_inf
neg_fixed neg_inf = inf
neg_fixed nan = nan

abbrev add_fixed : Fixed → Fixed → Fixed
add_fixed (fin a) (fin b) = fin (a +ℤ b)
add_fixed (fin a) b = b
add_fixed inf (fin b) = inf
add_fixed inf inf = inf
add_fixed neg_inf (fin b) = neg_inf
add_fixed neg_inf neg_inf = neg_inf
add_fixed _ _ = nan

abbrev sub_fixed : Fixed → Fixed → Fixed
sub_fixed (fin a) (fin b) = fin (a -ℤ b)
sub_fixed a b = add_fixed a (neg_fixed b)

abbrev le_fixed : Fixed → Fixed → Bool
le_fixed (fin a) (fin b) = leb_ℤ a b
le_fixed nan _ = false
le_fixed neg_inf nan = false
le_fixed neg_inf _ = true
le_fixed inf inf = true
le_fixed (fin a) inf = true
le_fixed _ _ = false

abbrev lt_fixed : Fixed → Fixed → Bool
lt_fixed (fin a) (fin b) = ltb_ℤ a b
lt_fixed neg_inf (fin b) = true
lt_fixed neg_inf inf = true
lt_fixed (fin a) inf = true
lt_fixed _ _ = false

abbrev mul_ℤ : ℤ → ℤ → ℤ
mul_ℤ a b =
    sub_ℕ ((pos_part a * pos_part b + neg_part a * neg_part b) / 1000)
      ((pos_part a * neg_part b + neg_part a * pos_part b) / 1000)

abbrev mul_fixed : Fixed → Fixed → Fixed
mul_fixed (fin a) (fin b) = fin (mul_ℤ a b)
mul_fixed _ _ = nan

abbrev half_fixed : Fixed → Fixed
half_fixed (fin (pos n)) = fin (pos (n / 2))
half_fixed (fin (negsuc n)) = fin (negsuc (n / 2))
half_fixed a = a

abbrev is_finite_fixed : Fixed → Bool
is_finite_fixed (fin a) = true
is_finite_fixed _ = false

abbrev gap : Fixed → Fixed → ℕ
gap (fin a) (fin b) = pos_part (a -ℤ b) + neg_part (a -ℤ b)
gap _ _ = 0

abbrev dist_fixed : Fixed × Fixed × Fixed → Fixed × Fixed × Fixed → Fixed
dist_fixed (a, b, c) (x, y, z) = fin (pos (max (gap a x) (max (gap b y) (gap c z))))

abbrev eq_fixed : Fixed → Fixed → Bool
eq_fixed a b = le_fixed a b && le_fixed b a

abbrev truncate_fixed : Fixed → Option ℤ
truncate_fixed (fin a) = some a
truncate_fixed _ = none

instance abbrev pub fixed_float : Float
fixed_float = record {
  F = Fixed;
  milli = λ n. fin (pos n);
  pi = fin (pos 3142);
  add = add_fixed;
  sub = sub_fixed;
  neg = neg_fixed;
  mul = mul_fixed;
  half = half_fixed;
  le = le_fixed;
  lt = lt_fixed;
  is_finite = is_finite_fixed;
  dist = dist_fixed;
  tan = λ a. a;
  sin = λ a. a;
  cos = λ a. a;
  atan2 = λ a b. a;
  remainder = λ a b. a;
  eq = eq_fixed;
  of_int = λ n. some (fin (mul_ℤ n (pos 1000000)));
  of_text = λ s. none;
  truncate = truncate_fixed;
  add_int = λ i x. add_fixed (fin (mul_ℤ i (pos 1000000))) x;
  of_nanos = λ n. fin (mul_ℤ n (pos 0));
}

le_trans_fixed : (a b c : Fixed) → le_fixed a b ≡ true → le_fixed b c ≡ true → le_fixed a c ≡ true
le_trans_fixed a b c h k = ground arith

sub_mono_fixed :
    (t a b : Fixed)
    → is_finite_fixed t ≡ true
    → is_finite_fixed a ≡ true
    → is_finite_fixed b ≡ true
    → le_fixed a b ≡ true
    → le_fixed (sub_fixed t b) (sub_fixed t a) ≡ true
sub_mono_fixed (fin t) (fin a) (fin b) ht ha hb h = ground (arith, -ℤ_parts t a, -ℤ_parts t b)
sub_mono_fixed t a b ht ha hb h = ground arith

lt-le_fixed : (a b : Fixed) → lt_fixed a b ≡ true → le_fixed b a ≡ false
lt-le_fixed a b h = ground arith

pub fixed_laws : FloatLaws
fixed_laws = record { le_trans = le_trans_fixed; sub_mono = sub_mono_fixed; lt-le = lt-le_fixed }
