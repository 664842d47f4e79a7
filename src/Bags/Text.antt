-- ===== src/Bags/Text.antt =====
-- What the bag pipeline uses of Python's `str` and of the names in `pathlib`: strip, rstrip, tests on
-- characters, suffixes, and the parts of a path.
use Prim.Native.Char.{Char, code}
use Prim.Native.Nat.{Ordering}
use text.Mathlib.Text.{◌==◌ as str_eq}
use patrol_drone.Prelude.{
  ℕ, ◌==◌, leb, Bool, true, false, ◌&&◌, ◌||◌, String, List, [], ◌∷◌, if◌then◌else◌,
}
pub use Prim.Native.String.{◌++◌ as ◌<>◌, compare as compare_str}

abbrev pub between : ℕ → ℕ → ℕ → Bool
between lo hi n = leb lo n && leb n hi

-- The characters that `str.strip()` and `str.isspace()` count as white space.
unfoldable pub is_space : ℕ → Bool
is_space n =
    between 9 13 n
    || between 28 32 n
    || n == 133
    || n == 160
    || n == 5760
    || between 8192 8202 n
    || between 8232 8233 n
    || n == 8239
    || n == 8287
    || n == 12288

abbrev pub is_empty : String → Bool
is_empty String.[] = true
is_empty (String.◌∷◌ c s) = false

-- Without the leading characters that meet `p`.
abbrev pub strip_left : (ℕ → Bool) → String → String
strip_left p String.[] = ""
strip_left p (String.◌∷◌ c s) =
    let rest = strip_left p s in if p (code c) then rest else String.◌∷◌ c s

-- Without the trailing characters that meet `p`.
abbrev pub strip_right : (ℕ → Bool) → String → String
strip_right p String.[] = ""
strip_right p (String.◌∷◌ c s) =
    let rest = strip_right p s in if is_empty rest && p (code c) then "" else String.◌∷◌ c rest

unfoldable pub strip : String → String
strip s = strip_right is_space (strip_left is_space s)

abbrev pub is_slash : ℕ → Bool
is_slash n = n == b'/'

-- `s.rstrip("/")`
unfoldable pub rstrip_slashes : String → String
rstrip_slashes s = strip_right is_slash s

-- a character that meets `p` occurs
abbrev pub any_char : (ℕ → Bool) → String → Bool
any_char p String.[] = false
any_char p (String.◌∷◌ c s) = p (code c) || any_char p s

-- `s.endswith(t)`
abbrev pub ends_with : String → String → Bool
ends_with t String.[] = str_eq "" t
ends_with t (String.◌∷◌ c s) = str_eq (String.◌∷◌ c s) t || ends_with t s

abbrev pub is_gt : Ordering → Bool
is_gt Ordering.lt = false
is_gt Ordering.eq = false
is_gt Ordering.gt = true

-- `s > t`
abbrev pub is_greater : String → String → Bool
is_greater s t = is_gt (compare_str s t)

-- `xs` with `s` inserted before the first text that is not smaller
abbrev pub insert_sorted : String → List String → List String
insert_sorted s [] = s ∷ []
insert_sorted s (x ∷ xs) = if is_greater s x then x ∷ insert_sorted s xs else s ∷ x ∷ xs

-- `sorted(xs)`
unfoldable pub sorted : List String → List String
sorted [] = []
sorted (x ∷ xs) = insert_sorted x (sorted xs)

abbrev pub cons_head : Char → List String → List String
cons_head c [] = (String.◌∷◌ c "") ∷ []
cons_head c (p ∷ ps) = (String.◌∷◌ c p) ∷ ps

-- `s.split("/")`
abbrev pub split_slashes : String → List String
split_slashes String.[] = "" ∷ []
split_slashes (String.◌∷◌ c s) =
    let rest = split_slashes s in if is_slash (code c) then "" ∷ rest else cons_head c rest

abbrev pub drop_dots : List String → List String
drop_dots [] = []
drop_dots (p ∷ ps) =
    let rest = drop_dots ps in if str_eq p "" || str_eq p "." then rest else p ∷ rest

-- `Path(s).parts`, less the root of an absolute path
unfoldable pub path_parts : String → List String
path_parts s = drop_dots (split_slashes s)

-- `Path(s).is_absolute()`
unfoldable pub is_absolute : String → Bool
is_absolute String.[] = false
is_absolute (String.◌∷◌ c s) = is_slash (code c)
