-- ===== src/Bags/Ingest/Index.antt =====
-- ingest_service.py: what `IngestService.index` comes to.
use text.Mathlib.TextEquality.{eq_iff}
use patrol_drone.Prelude.{
  ℕ, Bool, true, false, not, ◌||◌, String, ◌≡◌, ◌≢◌, refl, sym, ◌∙◌, Option, none, some, Result, ok,
  err, arith, if_cases, raise_if, Permits, Permits-step, Permits-at, ◌>>◌,
}
use patrol_drone.Float.{Float}
use patrol_drone.Bags.Disk.{
  Fault, file_not_found, value_error, type_error, Json, null, boolean, number, str, array, object,
  Members, Entries, lookup, is_symlink, read_json, get,
}
use patrol_drone.Bags.Disk.Lookup.{==-ne}
use patrol_drone.Bags.Layout.{is_valid_bag_dir}
use patrol_drone.Bags.Ingest.Sidecar.{
  is_bad_field, any_bad_field, required_sidecar_fields, validate_sidecar_fields,
  require_finalized_bag, is_text, as_object, load_valid_sidecar, column,
}
use patrol_drone.Bags.Ingest.{
  ManifestRow, ManifestStore, BagFactsReader, upsert, row_of, store_row, index,
}
use patrol_drone.Bags.Ingest.Manifest.{find, find-insert_or_replace}

Permits-raise :
    {B : Type 0} (Q : B → Type 0) (b : Bool) (e : Fault) (k : Result Fault B)
    → (b ≡ false → Permits Q k)
    → Permits Q (raise_if b e >> k)
Permits-raise Q true e k h = tt
Permits-raise Q false e k h = h refl

true_of_not : (b : Bool) → not b ≡ false → b ≡ true
true_of_not true h = refl
true_of_not false h = cc

pub none_bad : (a b c : Bool) → a || (b || (c || false)) ≡ false → (b ≡ false) × (c ≡ false)
none_bad a b c h = ground arith

object_of : (j : Json) (ms : Members) → as_object j ≡ ok ms → j ≡ object ms
object_of (object ms) ms' h = cc
object_of null ms' h = cc
object_of (boolean b) ms' h = cc
object_of (number t) ms' h = cc
object_of (str s) ms' h = cc
object_of (array vs) ms' h = cc

column-text :
    (o : Option Json) (s : String) → is_bad_field o ≡ false → column o ≡ ok s → o ≡ some (str s)
column-text none s h k = cc
column-text (some (str t)) s h k = cc
column-text (some null) s h k = cc
column-text (some (boolean b)) s h k = cc
column-text (some (number t)) s h k = cc
column-text (some (array vs)) s h k = cc
column-text (some (object ms)) s h k = cc

module _ ⦃fl : Float⦄ (bag_facts : BagFactsReader) (es : Entries)
    (now bag sidecar_path : String) where
  -- A sidecar that passes the checks.
  abbrev pub Valid : Members → Type 0
  Valid sidecar =
      (is_symlink (lookup sidecar_path es) ≡ false)
      × (read_json (lookup sidecar_path es) ≡ ok (object sidecar))
      × (any_bad_field required_sidecar_fields sidecar ≡ false)
      × (is_text (get "bag_uri" sidecar) bag ≡ true)

  pub load_valid_sidecar-Valid : Permits Valid (load_valid_sidecar es sidecar_path bag)
  unfolding load_valid_sidecar validate_sidecar_fields
  load_valid_sidecar-Valid =
      Permits-raise Valid (is_symlink (lookup sidecar_path es)) value_error _ λ plain.
        Permits-step Valid (read_json (lookup sidecar_path es)) _ λ json read.
          Permits-step Valid (as_object json) _ λ sidecar is_object.
            Permits-raise Valid (any_bad_field required_sidecar_fields sidecar) type_error _
              λ fields.
                Permits-raise Valid (not (is_text (get "bag_uri" sidecar) bag)) value_error _
                  λ matches. (
                    plain,
                    read ∙ (rw (object_of json sidecar is_object) refl),
                    fields,
                    ground (arith, matches),
                  )

  -- The row tells what the bag and its sidecar hold.
  abbrev pub Tells : ManifestRow → Type 0
  Tells row =
      (is_valid_bag_dir (lookup bag es) ≡ true)
      × Valid row.metadata_json
      × (bag_facts es bag
          ≡ ok (record { duration_s = row.duration_s; topic_counts = row.topics_json }))
      × (row.bag_id ≡ bag)
      × (get "mission_id" row.metadata_json ≡ some (str row.mission_id))
      × (get "started_utc" row.metadata_json ≡ some (str row.recorded_utc))
      × (row.ingested_utc ≡ now)

  pub row_of-Tells : Permits Tells (row_of bag_facts es now bag sidecar_path)
  unfolding row_of require_finalized_bag
  row_of-Tells =
      Permits-raise Tells (not (is_valid_bag_dir (lookup bag es))) file_not_found _ λ layout.
        Permits-step Tells (load_valid_sidecar es sidecar_path bag) _ λ sidecar loaded.
          Permits-step Tells (bag_facts es bag) _ λ facts read.
            Permits-step Tells (column (get "mission_id" sidecar)) _ λ mission is_mission.
              Permits-step Tells (column (get "started_utc" sidecar)) _ λ started is_started.
                let valid =
                  Permits-at Valid (load_valid_sidecar es sidecar_path bag) loaded
                    load_valid_sidecar-Valid in
                let good = none_bad _ _ _ valid.2 in
                (
                  true_of_not (is_valid_bag_dir (lookup bag es)) layout,
                  valid,
                  read,
                  refl,
                  column-text (get "mission_id" sidecar) mission good.0 is_mission,
                  column-text (get "started_utc" sidecar) started good.1 is_started,
                  refl,
                )

  -- What indexing a bag comes to.
  abbrev pub Indexed : ManifestStore → Result Fault Unit × ManifestStore → Type 0
  Indexed s (ok u, s') =
      ((row : ManifestRow) × (find bag s'.rows ≡ some row) × Tells row)
      × ((k : String) → k ≢ bag → find k s'.rows ≡ find k s.rows)
  Indexed s (err e, s') = s'.rows ≡ s.rows

  upsert-Indexed :
      (busy : ℕ → Bool) (row : ManifestRow) (s : ManifestStore)
      → Tells row
      → Indexed s (upsert busy row s)
  unfolding upsert
  upsert-Indexed busy row s t =
      if_cases (Indexed s) (busy s.accesses) _ _ (λ _. refl)
        (λ _. (
          (
            row,
            find-insert_or_replace bag row s.rows
                ∙ (let same = (eq_iff row.bag_id bag).1 t.3 in ground (arith, same)),
            t,
          ),
          λ k h.
              find-insert_or_replace k row s.rows
              ∙ (let other = ==-ne row.bag_id k (λ e. h (sym e ∙ t.3)) in ground (arith, other)),
        ))

  store-Indexed :
      (busy : ℕ → Bool) (r : Result Fault ManifestRow) (s : ManifestStore)
      → Permits Tells r
      → Indexed s (store_row busy r s)
  store-Indexed busy (ok row) s t = upsert-Indexed busy row s t
  store-Indexed busy (err e) s t = refl

module _ ⦃fl : Float⦄ where
  -- Indexing that returns leaves exactly one bag changed: its row has the facts that were read from a
  -- valid bag, and the identity of a sidecar that is a plain file, has its fields and names this bag.
  -- Indexing that raises leaves the table as it was.
  pub index-Indexed :
      (busy : ℕ → Bool) (clock : ℕ → String) (bag_facts : BagFactsReader) (es : Entries)
      (bag sidecar_path : String) (s : ManifestStore)
      → Indexed bag_facts es
          (clock s.accesses)
          bag
          sidecar_path
          s
          (index busy clock bag_facts es bag sidecar_path s)
  unfolding index
  index-Indexed busy clock bag_facts es bag sidecar_path s =
      store-Indexed bag_facts es (clock s.accesses) bag sidecar_path busy
        (row_of bag_facts es (clock s.accesses) bag sidecar_path) s
        (row_of-Tells bag_facts es (clock s.accesses) bag sidecar_path)
