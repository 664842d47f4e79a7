-- ===== src/Mission/Config/Lookup.antt =====
-- config.py, `_checkpoints_map`: no checkpoint hides another.
use patrol_drone.Prelude.{
  ◌++◌, ◌∷◌, arith, List, String, Ensures, Permits, ◌≡◌, All, ok, some, none, Permits-at, [], ap,
  if◌then◌else◌, Option-cases, inl, inr, Permits-step, Permits-map, refl,
}
use patrol_drone.Float.{Float}
use text.Mathlib.TextEquality.{eq_iff}
use patrol_drone.Mission.Config.Checkpoints.{
  collect, Positions, checkpoints_map, position_of, has_position, checkpoint_entry,
}
use patrol_drone.Mission.Config.Yaml.{Yaml, refuse_if, duplicate_checkpoint}
use patrol_drone.Mission.Frames.{Point}

module _ ⦃fl : Float⦄ where
  -- the position that the dict has for an entry of the file is the entry's own
  abbrev pub Finds : Positions → Yaml → Type 0
  Finds qs v = Ensures (λ e. position_of qs e.0 ≡ some e.1) (checkpoint_entry v)

  abbrev Extends : Positions → Positions → Type 0
  Extends ps qs =
      (cid : String) (p : Point) → position_of ps cid ≡ some p → position_of qs cid ≡ some p

  append-Extends : (ps qs : Positions) → Extends ps (ps ++ qs)
  append-Extends [] qs cid p e = cc
  append-Extends ((k, x) ∷ ps) qs cid p e = ground (arith, append-Extends ps qs cid p)

  position_of-append :
      (ps : Positions) (cid : String) (p : Point)
      → position_of ps cid ≡ none
      → position_of (ps ++ (cid, p) ∷ []) cid ≡ some p
  position_of-append [] cid p e = ap (λ b. if b then some p else none) ((eq_iff cid cid).1 refl)
  position_of-append ((k, x) ∷ ps) cid p e = ground (arith, e, position_of-append ps cid p)

  collect-Finds :
      (ps : Positions) (vs : List Yaml)
      → Permits (λ qs. Extends ps qs × All (Finds qs) vs) (collect ps vs)
  unfolding collect
  collect-Finds ps [] = (λ cid p e. e, tt)
  collect-Finds ps (v ∷ vs) =
      let Q = λ (qs : Positions). Extends ps qs × All (Finds qs) (v ∷ vs) in
      Permits-step Q (checkpoint_entry v) _ (λ (cid, p) e.
        Permits-step Q (refuse_if (has_position ps cid) duplicate_checkpoint) _ (λ _ new.
          Permits-map (λ qs. Extends (ps ++ (cid, p) ∷ []) qs × All (Finds qs) vs) Q
            (collect (ps ++ (cid, p) ∷ []) vs)
            (λ qs (more, found). (
              λ c x h. more c x (append-Extends ps ((cid, p) ∷ []) c x h),
              (rw e (more cid p (position_of-append ps cid p (absent ps cid new))), found),
            ))
            (collect-Finds (ps ++ (cid, p) ∷ []) vs)))
    where
      absent :
          (ps : Positions) (cid : String)
          → refuse_if (has_position ps cid) duplicate_checkpoint ≡ ok tt
          → position_of ps cid ≡ none
      absent ps cid h = elim (Option-cases (position_of ps cid)) [
        | inl e ↦ e
        | inr (x, e) ↦ ground (arith, h, e)
      ]

  -- Where the list of checkpoints is accepted, every entry of it is well formed and is found again:
  -- the position stored for its id is the entry's position, so no entry overwrites another.
  pub checkpoints_map-Finds :
      (vs : List Yaml) (qs : Positions) → checkpoints_map vs ≡ ok qs → All (Finds qs) vs
  checkpoints_map-Finds vs qs e =
      (Permits-at (λ qs. Extends [] qs × All (Finds qs) vs) (checkpoints_map vs) e
        (collect-Finds [] vs)).1
