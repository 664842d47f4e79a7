-- ===== src/Bags/Ingest/Query.antt =====
-- manifest_store.py: the queries that order the rows and cut them off.
use Prim.Native.Char.{code}
use Prim.Native.Nat.{compare as compare_ℕ, Ordering}
use Prim.Native.String
use Prim.Native.String.compare as compare_laws
use patrol_drone.Prelude.{
  ℕ, zero, suc, ◌⊎◌, leb, ◌+◌, ℤ, pos, pos_part, leb_ℤ, Bool, true, false, ◌&&◌, String, List, [],
  ◌∷◌, ◌≡◌, refl, ◌∙◌, ◌++◌, Result, ok, err, arith, if◌then◌else◌, length, All,
}
use patrol_drone.Float.{Float}
use patrol_drone.Bags.Text.{is_greater, is_gt}
use patrol_drone.Bags.Disk.{Fault, locked, value_error}
use patrol_drone.Bags.Ingest.{ManifestRow, ManifestStore, by_recorded}

flip_tail :
    (a b : ℕ) (o o' : Ordering)
    → (is_gt o && is_gt o' ≡ false)
    → is_gt (String.then (compare_ℕ a b) o) && is_gt (String.then (compare_ℕ b a) o') ≡ false
flip_tail a b o o' h = ground arith

pub is_greater_asym : (s t : String) → is_greater s t && is_greater t s ≡ false
is_greater_asym String.[] String.[] = refl
is_greater_asym String.[] (String.◌∷◌ d t) =
    λ i. is_gt (compare_laws.nil-cons d t i) && is_gt (compare_laws.cons-nil d t i)
is_greater_asym (String.◌∷◌ c s) String.[] =
    λ i. is_gt (compare_laws.cons-nil c s i) && is_gt (compare_laws.nil-cons c s i)
is_greater_asym (String.◌∷◌ c s) (String.◌∷◌ d t) =
    (λ i. is_gt (compare_laws.cons-cons c d s t i) && is_gt (compare_laws.cons-cons d c t s i))
    ∙ flip_tail (code c) (code d) (String.compare s t) (String.compare t s) (is_greater_asym s t)

module _ ⦃fl : Float⦄ where
  -- an order of rows in which no row comes before one that comes before it
  abbrev pub IsAsymmetric : (ManifestRow → ManifestRow → Bool) → Type 0
  IsAsymmetric before = (a b : ManifestRow) → before a b && before b a ≡ false

  -- how many of the rows pass a test
  abbrev pub tally : (ManifestRow → Bool) → List ManifestRow → ℕ
  tally p [] = 0
  tally p (r ∷ rows) = (if p r then 1 else 0) + tally p rows

  -- what `limit_to` leaves out
  abbrev beyond : ℕ → List ManifestRow → List ManifestRow
  beyond zero rows = rows
  beyond (suc n) [] = []
  beyond (suc n) (r ∷ rows) = beyond n rows

  module _ (before : ManifestRow → ManifestRow → Bool) where
    -- no row stands right below one that it comes before
    abbrev pub Above : ManifestRow → List ManifestRow → Type 0
    Above r [] = Unit
    Above r (q ∷ rows) = before q r ≡ false

    abbrev pub IsOrdered : List ManifestRow → Type 0
    IsOrdered [] = Unit
    IsOrdered (r ∷ rows) = Above r rows × IsOrdered rows

  abbrev pub smaller : ℕ → ℕ → ℕ
  smaller a b = if leb a b then a else b

  -- With the rows that are left out after them, they are the rows of the store, each as often as there,
  -- and in order.
  abbrev pub Newest : List ManifestRow → List ManifestRow → Type 0
  Newest all rows =
      (rest : List ManifestRow) × IsOrdered by_recorded (rows ++ rest)
      × ((p : ManifestRow → Bool) → tally p (rows ++ rest) ≡ tally p all)

  -- What the newest recordings of a store come to, for a property `P` of all its rows.
  abbrev pub Answered :
      (ManifestRow → Type 0) → ℤ → ManifestStore → Result Fault (List ManifestRow) → Type 0
  Answered P limit s (ok rows) =
      (leb_ℤ (pos 1) limit ≡ true)
      × (length rows ≡ smaller (pos_part limit) (length s.rows))
      × All P rows
      × Newest s.rows rows
  Answered P limit s (err e) = (e ≡ locked) ⊎ ((e ≡ value_error) × (leb_ℤ (pos 1) limit ≡ false))
