-- ===== src/Bags/Ingest/Manifest.antt =====
-- manifest_store.py: the table is a map from bag ids to rows.
use text.Mathlib.Text.{◌==◌}
use text.Mathlib.TextEquality.{eq_iff}
use text.Mathlib.TextPositions.{eq_refl}
use mathlib.Core.Path.{fun_ext}
use patrol_drone.Prelude.{
  ℕ, suc, Bool, true, false, String, List, [], ◌∷◌, ◌++◌, ◌≡◌, refl, sym, ◌∙◌, ap, Option, none,
  some, Result, ok, err, arith, if◌then◌else◌,
}
use patrol_drone.Float.{Float}
use patrol_drone.Bags.Disk.{Fault, locked}
use patrol_drone.Bags.Ingest.{
  ManifestRow, ManifestStore, without, insert_or_replace, has_row, upsert, contains_row,
}

module _ ⦃fl : Float⦄ where
  -- What a store promises: at most one row to an id.
  abbrev pub Manifest : Type 0
  Manifest = String → Option ManifestRow

  abbrev pub find : String → List ManifestRow → Option ManifestRow
  find k [] = none
  find k (r ∷ rows) = if r.bag_id == k then some r else find k rows

  -- the map that a table stands for
  abbrev pub manifest : ManifestStore → Manifest
  manifest s k = find k s.rows

  find-without :
      (k b : String) (rows : List ManifestRow)
      → find k (without b rows) ≡ (if b == k then none else find k rows)
  find-without k b [] = ground arith
  find-without k b (r ∷ rows) =
      ground (arith, find-without k b rows, eq_iff r.bag_id b, eq_iff b k, eq_iff r.bag_id k)

  find-last :
      (k : String) (row : ManifestRow) (rows : List ManifestRow)
      → find row.bag_id rows ≡ none
      → find k (rows ++ (row ∷ [])) ≡ (if row.bag_id == k then some row else find k rows)
  find-last k row [] h = refl
  find-last k row (r ∷ rows) h = ground (
    arith,
    find-last k row rows,
    eq_iff r.bag_id k,
    eq_iff row.bag_id k,
    eq_iff r.bag_id row.bag_id,
  )

  pub find-insert_or_replace :
      (k : String) (row : ManifestRow) (rows : List ManifestRow)
      → find k (insert_or_replace row rows) ≡ (if row.bag_id == k then some row else find k rows)
  find-insert_or_replace k row rows =
      find-last k row (without row.bag_id rows)
        (find-without row.bag_id row.bag_id rows ∙ rw eq_refl refl)
      ∙ rw (find-without k row.bag_id rows) (ground arith)

  abbrev pub is_found : Option ManifestRow → Bool
  is_found none = false
  is_found (some r) = true

  pub has_row-find :
      (k : String) (rows : List ManifestRow) → has_row k rows ≡ is_found (find k rows)
  has_row-find k [] = refl
  has_row-find k (r ∷ rows) = ground (arith, has_row-find k rows)

  pub data Request : Type 0 where
    put : ManifestRow → Request
    ask : String → Request

  -- The specification: a map, which a locked database leaves alone, and the count of the accesses.
  abbrev pub Spec : Type 0
  Spec = Manifest × ℕ

  abbrev pub put_row : ManifestRow → Manifest → Manifest
  put_row row m k = if row.bag_id == k then some row else m k

  module _ (busy : ℕ → Bool) where
    abbrev pub spec_step : Request → Spec → Result Fault Bool × Spec
    spec_step (put row) (m, n) =
        if busy n then (err locked, (m, suc n)) else (ok true, (put_row row m, suc n))
    spec_step (ask k) (m, n) = (if busy n then err locked else ok (is_found (m k)), (m, suc n))

    -- the answers of a run, and the state after it
    abbrev pub spec_run : List Request → Spec → List (Result Fault Bool) × Spec
    spec_run [] s = ([], s)
    spec_run (q ∷ qs) s =
        let (answer, s1) = spec_step q s in
        let (answers, s2) = spec_run qs s1 in (answer ∷ answers, s2)

    abbrev pub as_answer : Result Fault Unit × ManifestStore → Result Fault Bool × ManifestStore
    as_answer (ok u, s) = (ok true, s)
    as_answer (err e, s) = (err e, s)

    abbrev pub step : Request → ManifestStore → Result Fault Bool × ManifestStore
    step (put row) s = as_answer (upsert busy row s)
    step (ask k) s = contains_row busy k s

    abbrev pub run : List Request → ManifestStore → List (Result Fault Bool) × ManifestStore
    run [] s = ([], s)
    run (q ∷ qs) s =
        let (answer, s1) = step q s in let (answers, s2) = run qs s1 in (answer ∷ answers, s2)

    abbrev pub spec_of : ManifestStore → Spec
    spec_of s = (manifest s, s.accesses)

    put-Refines :
        (b : Bool) (row : ManifestRow) (s : ManifestStore)
        → busy s.accesses ≡ b
        → spec_step (put row) (spec_of s) ≡ ((step (put row) s).0, spec_of (step (put row) s).1)
    unfolding upsert
    put-Refines true row s h = rw h refl
    put-Refines false row s h = rw h (
        ap (λ (m : Manifest). (ok true, (m, suc s.accesses)))
          (sym (fun_ext λ k. find-insert_or_replace k row s.rows)))

    ask-Refines :
        (k : String) (s : ManifestStore)
        → spec_step (ask k) (spec_of s) ≡ ((step (ask k) s).0, spec_of (step (ask k) s).1)
    unfolding contains_row
    ask-Refines k s = rw (has_row-find k s.rows) refl

    step-Refines :
        (q : Request) (s : ManifestStore)
        → spec_step q (spec_of s) ≡ ((step q s).0, spec_of (step q s).1)
    step-Refines (put row) s = put-Refines (busy s.accesses) row s refl
    step-Refines (ask k) s = ask-Refines k s

    -- Over any run of upserts and lookups, with the database locked at any of them, the table gives the
    -- answers of a map from bag ids to rows, and stands for that map at the end.
    pub run-Refines :
        (qs : List Request) (s : ManifestStore)
        → spec_run qs (spec_of s) ≡ ((run qs s).0, spec_of (run qs s).1)
    run-Refines [] s = refl
    run-Refines (q ∷ qs) s = rw (step-Refines q s) (rw (run-Refines qs (step q s).1) refl)
