-- ===== src/Bags/Ingest.antt =====
-- docker/ingest: the manifest of manifest_store.py and the service of ingest_service.py.
pub mod Facts
pub mod Sidecar
pub mod Watch
pub mod Manifest
pub mod Query
pub mod Index
pub mod Steady
pub mod Kept
use text.Mathlib.Text.{◌==◌}
use patrol_drone.Prelude.{
  ℕ, zero, suc, ◌+◌, ℤ, pos, leb_ℤ, pos_part, Bool, true, false, ◌&&◌, ◌||◌, not, String, List, [],
  ◌∷◌, ◌++◌, Option, none, some, Result, ok, err, if◌then◌else◌, raise_if, ◌>>=◌, ◌>>◌,
}
use patrol_drone.Float.{Float}
use patrol_drone.Bags.Text.{◌<>◌, is_empty, is_greater}
use patrol_drone.Bags.Disk.{
  Fault, file_not_found, value_error, type_error, key_error, integrity, locked, other_fault, Json,
  null, boolean, number, str, array, object, Members, Entries, lookup, is_symlink, read_json, get,
}
use patrol_drone.Bags.Layout.{is_valid_bag_dir}
use patrol_drone.Bags.Ingest.Facts.{BagFacts}
use patrol_drone.Bags.Ingest.Sidecar.{require_finalized_bag, load_valid_sidecar, column}

module _ ⦃fl : Float⦄ where
  open fl use {F}

  -- A JSON column holds the value that its text stands for.
  pub record ManifestRow : Type 0 where
    pub bag_id : String
    pub mission_id : String
    pub recorded_utc : String
    pub duration_s : F
    pub topics_json : List (String × ℤ)
    pub metadata_json : Members
    pub ingested_utc : String

  -- The table, in the order of its rows, and how often it was accessed.
  pub record ManifestStore : Type 0 where
    pub rows : List ManifestRow
    pub accesses : ℕ

  -- A new database file; the schema is `ManifestRow` with `bag_id` as the key.
  abbrev pub new_store : ManifestStore
  new_store = record { rows = []; accesses = 0 }

  abbrev pub without : String → List ManifestRow → List ManifestRow
  without bag_id [] = []
  without bag_id (r ∷ rows) =
      let rest = without bag_id rows in if r.bag_id == bag_id then rest else r ∷ rest

  -- `INSERT OR REPLACE`: a row with the same key goes.
  abbrev pub insert_or_replace : ManifestRow → List ManifestRow → List ManifestRow
  insert_or_replace row rows = without row.bag_id rows ++ (row ∷ [])

  abbrev pub has_row : String → List ManifestRow → Bool
  has_row bag_id [] = false
  has_row bag_id (r ∷ rows) = r.bag_id == bag_id || has_row bag_id rows

  abbrev pub accessed : ManifestStore → ManifestStore
  accessed s = record s { accesses = suc s.accesses }

  -- `ORDER BY`: rows with the greater key first; of equal keys the older row comes first.
  abbrev pub insert_descending :
      (ManifestRow → ManifestRow → Bool) → ManifestRow → List ManifestRow → List ManifestRow
  insert_descending before row [] = row ∷ []
  insert_descending before row (r ∷ rows) =
      if before row r then row ∷ r ∷ rows else r ∷ insert_descending before row rows

  abbrev pub order_by :
      (ManifestRow → ManifestRow → Bool) → List ManifestRow → List ManifestRow → List ManifestRow
  order_by before [] sorted = sorted
  order_by before (r ∷ rows) sorted = order_by before rows (insert_descending before r sorted)

  abbrev pub limit_to : ℕ → List ManifestRow → List ManifestRow
  limit_to zero rows = []
  limit_to (suc n) [] = []
  limit_to (suc n) (r ∷ rows) = r ∷ limit_to n rows

  -- `ingested_utc DESC`, and `recorded_utc DESC, ingested_utc DESC`
  abbrev pub by_ingested : ManifestRow → ManifestRow → Bool
  by_ingested a b = is_greater a.ingested_utc b.ingested_utc

  abbrev pub by_recorded : ManifestRow → ManifestRow → Bool
  by_recorded a b =
      is_greater a.recorded_utc b.recorded_utc
      || (a.recorded_utc == b.recorded_utc && is_greater a.ingested_utc b.ingested_utc)

  abbrev pub of_mission : String → List ManifestRow → List ManifestRow
  of_mission mission_id [] = []
  of_mission mission_id (r ∷ rows) =
      let rest = of_mission mission_id rows in if r.mission_id == mission_id then r ∷ rest else rest

  -- `busy n` tells whether the database is locked beyond the timeout at the n-th access.
  module _ (busy : ℕ → Bool) where
    unfoldable pub upsert : ManifestRow → ManifestStore → Result Fault Unit × ManifestStore
    upsert row s =
        if busy s.accesses
        then (err locked, accessed s)
        else (ok tt, record (accessed s) { rows = insert_or_replace row s.rows })

    unfoldable pub contains_row : String → ManifestStore → Result Fault Bool × ManifestStore
    contains_row bag_id s =
        (if busy s.accesses then err locked else ok (has_row bag_id s.rows), accessed s)

    unfoldable pub query_ordered :
        (ManifestRow → ManifestRow → Bool) → ℤ → ManifestStore → Result Fault (List ManifestRow)
    query_ordered before limit s =
        if not (leb_ℤ (pos 1) limit)
        then err value_error
        else if busy s.accesses
        then err locked
        else ok (limit_to (pos_part limit) (order_by before s.rows []))

    unfoldable pub query_recent : ℤ → ManifestStore → Result Fault (List ManifestRow)
    query_recent limit s = query_ordered by_ingested limit s

    unfoldable pub query_recently_recorded : ℤ → ManifestStore → Result Fault (List ManifestRow)
    query_recently_recorded limit s = query_ordered by_recorded limit s

    unfoldable pub query_by_mission : String → ManifestStore → Result Fault (List ManifestRow)
    query_by_mission mission_id s =
        if busy s.accesses
        then err locked
        else ok (order_by by_ingested (of_mission mission_id s.rows) [])

  -- the injected reader of the facts of a bag
  abbrev pub BagFactsReader : Type 0
  BagFactsReader = Entries → String → Result Fault BagFacts

  -- The row of a bag, or the exception on the way to it.
  unfoldable pub row_of :
      BagFactsReader → Entries → String → String → String → Result Fault ManifestRow
  unfolding require_finalized_bag load_valid_sidecar
  row_of bag_facts es now bag sidecar_path = do
    require_finalized_bag es bag
    sidecar ← load_valid_sidecar es sidecar_path bag
    facts ← bag_facts es bag
    mission_id ← column (get "mission_id" sidecar)
    started_utc ← column (get "started_utc" sidecar)
    ok (record {
      bag_id = bag;
      mission_id = mission_id;
      recorded_utc = started_utc;
      duration_s = facts.duration_s;
      topics_json = facts.topic_counts;
      metadata_json = sidecar;
      ingested_utc = now;
    })

  abbrev pub store_row :
      (ℕ → Bool) → Result Fault ManifestRow → ManifestStore → Result Fault Unit × ManifestStore
  store_row busy (ok row) s = upsert busy row s
  store_row busy (err e) s = (err e, s)

  -- `IngestService.index`; `clock n` is what the clock reads after `n` accesses of the store.
  unfoldable pub index :
      (ℕ → Bool)
      → (ℕ → String)
      → BagFactsReader
      → Entries
      → String
      → String
      → ManifestStore
      → Result Fault Unit × ManifestStore
  index busy clock bag_facts es bag sidecar_path s =
      store_row busy (row_of bag_facts es (clock s.accesses) bag sidecar_path) s

  unfoldable pub already_indexed :
      (ℕ → Bool) → String → ManifestStore → Result Fault Bool × ManifestStore
  already_indexed busy bag s = contains_row busy bag s
