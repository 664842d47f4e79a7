-- ===== src/Shared/Bounded.antt =====
-- bounded_seen.py: the limit holds, no bag is there twice, and the newest bag is kept.
use patrol_drone.Prelude.{
  suc, ◌∷◌, ◌++◌, ◌||◌, arith, ℕ, List, String, length, ◌≤◌, [], ◌≡◌, if_cases, true, false, ltb,
  Bool-cases, inl, inr, refl, sym, ◌∙◌,
}
use text.Mathlib.Text.{◌==◌}
use text.Mathlib.TextEquality.{eq_iff}
use patrol_drone.Shared.BoundedSeen.{add, evict, without, seen_in, BoundedSeen, contains_bag}

abbrev pub Distinct : List String → Type 0
Distinct [] = Unit
Distinct (x ∷ xs) = (seen_in xs x ≡ false) × Distinct xs

evict-length : (n : ℕ) (xs : List String) → length (evict n xs) ≤ n
evict-length n [] = omega arith
evict-length n (x ∷ xs) = ground (arith, evict-length n xs)

evict-Distinct : (n : ℕ) (xs : List String) → Distinct xs → Distinct (evict n xs)
evict-Distinct n [] d = tt
evict-Distinct n (x ∷ xs) d =
    if_cases Distinct (ltb n (suc (length xs))) (evict n xs) (x ∷ xs) (λ _. evict-Distinct n xs d.1)
      (λ _. d)

seen_in-evict :
    (n : ℕ) (xs : List String) (c : String) → seen_in (evict n xs) c ≡ true → seen_in xs c ≡ true
seen_in-evict n [] c h = h
seen_in-evict n (x ∷ xs) c h = elim (Bool-cases (ltb n (suc (length xs)))) [
  | inl e ↦ ground (arith, seen_in-evict n xs c (rw e at h))
  | inr e ↦ (rw e at h)
]

seen_in-append :
    (xs : List String) (b c : String) → seen_in (xs ++ b ∷ []) c ≡ seen_in xs c || (c == b)
seen_in-append [] b c = ground arith
seen_in-append (x ∷ xs) b c = ground (arith, seen_in-append xs b c)

evict-newest :
    (n : ℕ) (xs : List String) (bag : String)
    → 1 ≤ n
    → seen_in (evict n (xs ++ bag ∷ [])) bag ≡ true
evict-newest n [] bag h = ground (arith, (eq_iff bag bag).1 refl)
evict-newest n (x ∷ xs) bag h =
    if_cases (λ l. seen_in l bag ≡ true) (ltb n (suc (length (xs ++ bag ∷ []))))
      (evict n (xs ++ bag ∷ [])) (x ∷ (xs ++ bag ∷ [])) (λ _. evict-newest n xs bag h)
      (λ _. ground (arith, seen_in-append xs bag bag, (eq_iff bag bag).1 refl))

differs : (x bag c : String) → (bag == x) ≡ false → (c == x) ≡ true → (c == bag) ≡ false
differs x bag c e f = elim (Bool-cases (c == bag)) [
  | inl g ↦ cc (e, (eq_iff bag x).1 (sym ((eq_iff c bag).0 g) ∙ (eq_iff c x).0 f))
  | inr g ↦ g
]

seen_in-without :
    (xs : List String) (bag c : String)
    → seen_in (without xs bag) c ≡ true
    → (seen_in xs c ≡ true) × ((c == bag) ≡ false)
seen_in-without [] bag c h = cc
seen_in-without (x ∷ xs) bag c h = elim (Bool-cases (bag == x)) [
  | inl e ↦ let (i, n) = seen_in-without xs bag c (rw e at h) in (ground (arith, i), n)
  | inr e ↦
      let h' : (c == x) || seen_in (without xs bag) c ≡ true = (rw e at h) in
      elim (Bool-cases (c == x)) [
        | inl f ↦ (ground (arith, f), differs x bag c e f)
        | inr f ↦
            let (i, n) = seen_in-without xs bag c (ground (arith, f, h')) in (ground (arith, i), n)
      ]
]

not_seen : (xs : List String) (bag : String) → seen_in (without xs bag) bag ≡ false
not_seen xs bag = elim (Bool-cases (seen_in (without xs bag) bag)) [
  | inl e ↦ cc ((seen_in-without xs bag bag e).1, (eq_iff bag bag).1 refl)
  | inr e ↦ e
]

still_new :
    (xs : List String) (bag c : String) → seen_in xs c ≡ false → seen_in (without xs bag) c ≡ false
still_new xs bag c h = elim (Bool-cases (seen_in (without xs bag) c)) [
  | inl e ↦ cc (h, (seen_in-without xs bag c e).0)
  | inr e ↦ e
]

without-Distinct : (xs : List String) (bag : String) → Distinct xs → Distinct (without xs bag)
without-Distinct [] bag d = tt
without-Distinct (x ∷ xs) bag d =
    if_cases Distinct (bag == x) (without xs bag) (x ∷ without xs bag)
      (λ _. without-Distinct xs bag d.1)
      (λ _. (still_new xs bag x d.0, without-Distinct xs bag d.1))

append-Distinct :
    (xs : List String) (bag : String)
    → seen_in xs bag ≡ false
    → Distinct xs
    → Distinct (xs ++ bag ∷ [])
append-Distinct [] bag h d = (refl, tt)
append-Distinct (x ∷ xs) bag h d = (
  ground (arith, seen_in-append xs bag x, d.0, apart x bag (ground (arith, h))),
  append-Distinct xs bag (ground (arith, h)) d.1,
)
  where
    apart : (x bag : String) → (bag == x) ≡ false → (x == bag) ≡ false
    apart x bag e = differs x bag x e ((eq_iff x x).1 refl)

-- Where `maxlen` is at least 1, adding a bag to a set without repetitions leaves at most `maxlen` bags,
-- none of them twice; a bag that is there afterwards was there before or is the one added; and the one
-- added is there.
pub add-Distinct :
    (s : BoundedSeen) (bag : String)
    → 1 ≤ s.maxlen
    → Distinct s.seen
    → let s' = add s bag in
      (length s'.seen ≤ s.maxlen)
      × Distinct s'.seen
      × ((c : String) → contains_bag s' c ≡ true → (contains_bag s c || (c == bag)) ≡ true)
      × (contains_bag s' bag ≡ true)
unfolding add
add-Distinct s bag h d =
    let kept = without s.seen bag in
    (
      evict-length s.maxlen (kept ++ bag ∷ []),
      evict-Distinct s.maxlen (kept ++ bag ∷ [])
          (append-Distinct kept bag (not_seen s.seen bag) (without-Distinct s.seen bag d)),
      λ c k.
          from_before s.seen bag c
            (sym (seen_in-append kept bag c) ∙ seen_in-evict s.maxlen (kept ++ bag ∷ []) c k),
      evict-newest s.maxlen kept bag h,
    )
  where
    from_before :
        (xs : List String) (bag c : String)
        → seen_in (without xs bag) c || (c == bag) ≡ true
        → seen_in xs c || (c == bag) ≡ true
    from_before xs bag c h = elim (Bool-cases (c == bag)) [
      | inl e ↦ ground (arith, e)
      | inr e ↦ ground (arith, e, (seen_in-without xs bag c (ground (arith, e, h))).0)
    ]
