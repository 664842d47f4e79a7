-- ===== src/Perception/Writer/Names.antt =====
-- capture_writer.py: the names of the files tell the captures apart, and the run id is checked as the
-- recorder checks it.
use Prim.Native.Char.{code}
use Prim.Native.String.{count}
use Prim.Native.Nat.{◌/◌, ◌%◌}
use text.Mathlib.TextEquality.{eq_iff}
use text.Mathlib.TextLemmas.{nil-append, cons-append}
use patrol_drone.Prelude.{
  true, ℕ, zero, suc, ◌+◌, ◌-◌, ◌*◌, ◌<◌, ◌==◌, ltb, Bool, false, ◌||◌, String, ◌≡◌, refl, ap, ◌∙◌,
  arith, if◌then◌else◌, if_cases,
}
use patrol_drone.Bags.Text.{◌<>◌, strip, is_slash, any_char}
use text.Mathlib.Text.{◌==◌ as str_eq}
use patrol_drone.Bags.Disk.Lookup.{==-ne, append-ne_append}
use patrol_drone.Perception.CheckpointConfig.{is_safe_id, all_id_chars, is_id_char}
use patrol_drone.Bags.Recorder.{run_id_rejection, is_some}
use patrol_drone.Perception.Writer.{run_id_is_unsafe, digit, decimal, pad3, basename, file_name}

-- The writer refuses just the run ids that the recorder rejects.
pub run_id_is_unsafe-run_id_rejection :
    (run_id : String) → run_id_is_unsafe run_id ≡ is_some (run_id_rejection run_id)
unfolding run_id_is_unsafe run_id_rejection
run_id_is_unsafe-run_id_rejection run_id = ground (arith, eq_iff run_id (strip run_id))

-- The number that a text of digits shows, after `acc`.
abbrev value : ℕ → String → ℕ
value acc String.[] = acc
value acc (String.◌∷◌ c s) = value (acc * 10 + (code c - b'0')) s

value-append : (acc : ℕ) (s t : String) → value acc (s <> t) ≡ value (value acc s) t
value-append acc String.[] t = rw nil-append refl
value-append acc (String.◌∷◌ c s) t =
    rw (cons-append c s t) (value-append (acc * 10 + (code c - b'0')) s t)

abbrev is_underscore : ℕ → Bool
is_underscore n = n == b'_'

-- the text shows the number `d` and has no mark in it
abbrev Shows : ℕ → String → Type 0
Shows d s =
    ((acc : ℕ) → value acc s ≡ acc * 10 + d)
    × (any_char is_underscore s ≡ false)
    × (any_char is_slash s ≡ false)

digit-Shows : (d : ℕ) → d < 10 → Shows d (digit d)
digit-Shows zero h = (λ acc. refl, refl, refl)
digit-Shows (suc zero) h = (λ acc. refl, refl, refl)
digit-Shows (suc (suc zero)) h = (λ acc. refl, refl, refl)
digit-Shows (suc (suc (suc zero))) h = (λ acc. refl, refl, refl)
digit-Shows (suc (suc (suc (suc zero)))) h = (λ acc. refl, refl, refl)
digit-Shows (suc (suc (suc (suc (suc zero))))) h = (λ acc. refl, refl, refl)
digit-Shows (suc (suc (suc (suc (suc (suc zero)))))) h = (λ acc. refl, refl, refl)
digit-Shows (suc (suc (suc (suc (suc (suc (suc zero))))))) h = (λ acc. refl, refl, refl)
digit-Shows (suc (suc (suc (suc (suc (suc (suc (suc zero)))))))) h = (λ acc. refl, refl, refl)
digit-Shows (suc (suc (suc (suc (suc (suc (suc (suc (suc zero))))))))) h = (λ acc. refl, refl, refl)
digit-Shows (suc (suc (suc (suc (suc (suc (suc (suc (suc (suc d)))))))))) h = absurd (omega arith)

value-decimal : (fuel n : ℕ) → n < fuel → value 0 (decimal fuel n) ≡ n
unfolding decimal
value-decimal zero n h = absurd (omega arith)
value-decimal (suc fuel) n h =
    if_cases (λ s. value 0 s ≡ n) (ltb n 10) (digit n) (decimal fuel (n / 10) <> digit (n % 10))
      (λ e. (digit-Shows n (ground (arith, e))).0 0 ∙ omega arith)
      (λ e. rw (value-append 0 (decimal fuel (n / 10)) (digit (n % 10))) (
        rw (value-decimal fuel (n / 10) (ground (arith, e, h)))
          ((digit-Shows (n % 10) (omega arith)).0 (n / 10) ∙ omega arith)))

value-pad3 : (n : ℕ) → value 0 (pad3 n) ≡ n
unfolding pad3
value-pad3 n = ground (
  arith,
  value-append 0 "00" (decimal (suc n) n),
  value-append 0 "0" (decimal (suc n) n),
  value-decimal (suc n) n (omega arith),
)

any_char-append : (p : ℕ → Bool) (s t : String) → any_char p (s <> t) ≡ any_char p s || any_char p t
any_char-append p String.[] t = rw nil-append refl
any_char-append p (String.◌∷◌ c s) t =
    rw (cons-append c s t) (ground (arith, any_char-append p s t))

any_char-decimal :
    (p : ℕ → Bool) (fuel n : ℕ)
    → ((d : ℕ) → d < 10 → any_char p (digit d) ≡ false)
    → any_char p (decimal fuel n) ≡ false
unfolding decimal
any_char-decimal p zero n h = refl
any_char-decimal p (suc fuel) n h =
    if_cases (λ s. any_char p s ≡ false) (ltb n 10) (digit n)
      (decimal fuel (n / 10) <> digit (n % 10)) (λ e. h n (ground (arith, e)))
      (λ _.
        any_char-append p (decimal fuel (n / 10)) (digit (n % 10))
        ∙ cc (any_char-decimal p fuel (n / 10) h, h (n % 10) (omega arith)))

any_char-pad3 :
    (p : ℕ → Bool) (n : ℕ)
    → ((d : ℕ) → d < 10 → any_char p (digit d) ≡ false)
    → any_char p (pad3 n) ≡ false
unfolding pad3
any_char-pad3 p n h =
    let s = decimal (suc n) n in
    let plain = any_char-decimal p (suc n) n h in
    let zero_ : any_char p "0" ≡ false = h 0 (omega arith) in
    if_cases (λ t. any_char p t ≡ false) (ltb n 10) ("00" <> s) _
      (λ _. any_char-append p "00" s ∙ cc (any_char-append p "0" "0", zero_, plain))
      (λ _.
        if_cases (λ t. any_char p t ≡ false) (ltb n 100) ("0" <> s) s
          (λ _. any_char-append p "0" s ∙ cc (zero_, plain)) (λ _. plain))

-- the text before the first underscore
abbrev before : String → String
before String.[] = ""
before (String.◌∷◌ c s) =
    let rest = before s in if is_underscore (code c) then "" else String.◌∷◌ c rest

before-append : (s t : String) → any_char is_underscore s ≡ false → before (s <> ("_" <> t)) ≡ s
before-append String.[] t h = rw (nil-append, cons-append) refl
before-append (String.◌∷◌ c s) t h =
    rw (cons-append c s ("_" <> t)) (ground (arith, h, before-append s t))

-- the number in the name of a file
pub index_of : String → ℕ
index_of name = value 0 (before name)

pub index_of-file_name :
    (index : ℕ) (checkpoint_id extension : String)
    → index_of (file_name index checkpoint_id extension) ≡ index
unfolding index_of
index_of-file_name index checkpoint_id extension =
    ap (value 0) (
      before-append (pad3 index) (checkpoint_id <> extension)
        (any_char-pad3 is_underscore index λ d h. (digit-Shows d h).1))
    ∙ value-pad3 index

pub basename-append : (s t : String) → any_char is_slash t ≡ false → basename (s <> ("/" <> t)) ≡ t
basename-append String.[] t h = rw (cons-append, nil-append) (rw (nil-append t) (ground (arith, h)))
basename-append (String.◌∷◌ c s) t h = rw (cons-append c s ("/" <> t)) (
    ground (
      arith,
      h,
      basename-append s t h,
      any_char-append is_slash s ("/" <> t),
      any_char-append is_slash "/" t,
    ))

pub file_name-no_slash :
    (index : ℕ) (checkpoint_id extension : String)
    → any_char is_slash checkpoint_id ≡ false
    → any_char is_slash extension ≡ false
    → any_char is_slash (file_name index checkpoint_id extension) ≡ false
file_name-no_slash index checkpoint_id extension h k =
    any_char-append is_slash (pad3 index) ("_" <> (checkpoint_id <> extension))
    ∙ cc (
      any_char-pad3 is_slash index (λ d h. (digit-Shows d h).2),
      any_char-append is_slash "_" (checkpoint_id <> extension),
      any_char-append is_slash checkpoint_id extension,
      h,
      k,
    )

pub extension-ne :
    (index : ℕ) (checkpoint_id : String)
    → str_eq (file_name index checkpoint_id ".png") (file_name index checkpoint_id ".json") ≡ false
extension-ne index checkpoint_id = ==-ne _ _ (
    append-ne_append (pad3 index) _ _ (
      append-ne_append "_" _ _
        (append-ne_append checkpoint_id ".png" ".json" (λ e. omega (arith, ap count e)))))

all_id_chars-no_slash : (s : String) → all_id_chars s ≡ true → any_char is_slash s ≡ false
unfolding is_id_char
all_id_chars-no_slash String.[] h = refl
all_id_chars-no_slash (String.◌∷◌ c s) h = ground (arith, h, all_id_chars-no_slash s)

pub is_safe_id-no_slash : (s : String) → is_safe_id s ≡ true → any_char is_slash s ≡ false
unfolding is_safe_id
is_safe_id-no_slash s h = all_id_chars-no_slash s (ground (arith, h))
