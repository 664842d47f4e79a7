-- ===== src/Shared/BoundedSeen.antt =====
-- analysis/_shared/bounded_seen.py: the set of bags seen, with a limit on its size. The ordered dict
-- is the list of its keys, oldest first; a path is its text.
use text.Mathlib.Text.{◌==◌}
use patrol_drone.Prelude.{
  suc, ◌∷◌, ◌++◌, ◌||◌, String, ℕ, Bool, [], List, if◌then◌else◌, false, ltb, length,
}

pub record BoundedSeen : Type 0 where
  pub seen : List String
  pub maxlen : ℕ

abbrev pub new_seen : ℕ → BoundedSeen
new_seen maxlen = record { seen = []; maxlen = maxlen }

abbrev pub seen_in : List String → String → Bool
seen_in [] bag = false
seen_in (x ∷ xs) bag = bag == x || seen_in xs bag

-- `bag in s`
abbrev pub contains_bag : BoundedSeen → String → Bool
contains_bag s bag = seen_in s.seen bag

abbrev pub without : List String → String → List String
without [] bag = []
without (x ∷ xs) bag = let rest = without xs bag in if bag == x then rest else x ∷ rest

-- `while len(self._seen) > self._maxlen: self._seen.popitem(last=False)`
abbrev pub evict : ℕ → List String → List String
evict maxlen [] = []
evict maxlen (x ∷ xs) =
    let rest = evict maxlen xs in if ltb maxlen (suc (length xs)) then rest else x ∷ xs

unfoldable pub add : BoundedSeen → String → BoundedSeen
add s bag = record s { seen = evict s.maxlen (without s.seen bag ++ bag ∷ []) }
