-- ===== src/Shared/Examples.antt =====
-- Tests of the shared helpers, and the theorem at a concrete input.
use text.Mathlib.Text.{◌==◌}
use patrol_drone.Prelude.{◌∷◌, ◌||◌, ◌≡◌, [], length, ◌≤◌, String, true, refl, arith}
use patrol_drone.Shared.BoundedSeen.{add, BoundedSeen, contains_bag}
use patrol_drone.Shared.Bounded.{Distinct, add-Distinct}

abbrev two_bags : BoundedSeen
two_bags = record { seen = "bag_a" ∷ "bag_b" ∷ []; maxlen = 2 }

evict_test : (add two_bags "bag_c").seen ≡ "bag_b" ∷ "bag_c" ∷ []
unfolding add
evict_test = refl

refresh_test : (add two_bags "bag_a").seen ≡ "bag_b" ∷ "bag_a" ∷ []
unfolding add
refresh_test = refl

add-Distinct_example :
    let s' = add two_bags "bag_c" in
    (length s'.seen ≤ 2)
    × Distinct s'.seen
    × ((c : String) → contains_bag s' c ≡ true → (contains_bag two_bags c || (c == "bag_c")) ≡ true)
    × (contains_bag s' "bag_c" ≡ true)
add-Distinct_example = add-Distinct two_bags "bag_c" (omega arith) (refl, (refl, tt))
