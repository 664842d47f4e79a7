-- ===== src/Bags/Ingest/Watch.antt =====
-- docker/ingest/__main__.py: the loop that indexes each bag once its sidecar is there, and the query
-- that docker/ingest/manifest_query.py makes.
use patrol_drone.Prelude.{
  ℕ, ℤ, pos, Bool, true, false, ◌||◌, not, String, List, [], ◌∷◌, Option, none, some, Result, ok,
  err, if◌then◌else◌,
}
use patrol_drone.Float.{Float}
use patrol_drone.Shared.BoundedSeen.{BoundedSeen, contains_bag, add}
use patrol_drone.Bags.Text.{◌<>◌, sorted}
use patrol_drone.Bags.Disk.{
  Fault, file_exists, file_not_found, permission_denied, os_error, timeout_expired, value_error,
  decode_error, key_error, type_error, yaml_error, called_process, locked, integrity, Entries,
  lookup,
}
use patrol_drone.Bags.Layout.{is_regular_file}
use patrol_drone.Bags.Upload.{candidates}
use patrol_drone.Bags.Ingest.{
  ManifestRow, ManifestStore, BagFactsReader, index, already_indexed, query_by_mission,
  query_recently_recorded,
}

-- `_INGEST_FAULTS`, subclasses included
unfoldable pub is_ingest_fault : Fault → Bool
is_ingest_fault file_exists = true
is_ingest_fault file_not_found = true
is_ingest_fault permission_denied = true
is_ingest_fault os_error = true
is_ingest_fault timeout_expired = true
is_ingest_fault value_error = true
is_ingest_fault decode_error = true
is_ingest_fault key_error = true
is_ingest_fault type_error = true
is_ingest_fault yaml_error = true
is_ingest_fault called_process = true
is_ingest_fault locked = true
is_ingest_fault integrity = true
is_ingest_fault _ = false

abbrev pub sidecar_for : String → String
sidecar_for bag = bag <> ".meta.json"

-- `_iter_bag_dirs`, which reads like the uploader's
unfoldable pub iter_bag_dirs : Option Entries → List String
iter_bag_dirs none = []
iter_bag_dirs (some es) = sorted (candidates es)

module _ ⦃fl : Float⦄ where
  -- The store and the bags indexed in this run.
  abbrev pub IngestSession : Type 0
  IngestSession = ManifestStore × BoundedSeen

  -- A fault of the loop's list becomes an answer; another one goes on.
  abbrev pub index_caught : Result Fault Unit × ManifestStore → Result Fault Bool × ManifestStore
  index_caught (ok u, s) = (ok true, s)
  index_caught (err e, s) = if is_ingest_fault e then (ok false, s) else (err e, s)

  abbrev pub seen_caught :
      Result Fault Bool × ManifestStore → Result Fault (Option Bool) × ManifestStore
  seen_caught (ok b, s) = (ok (some b), s)
  seen_caught (err e, s) = if is_ingest_fault e then (ok none, s) else (err e, s)

  abbrev pub note_indexed :
      String → BoundedSeen → Result Fault Bool × ManifestStore → Result Fault Unit × IngestSession
  note_indexed bag indexed (ok true, s) = (ok tt, (s, add indexed bag))
  note_indexed bag indexed (ok false, s) = (ok tt, (s, indexed))
  note_indexed bag indexed (err e, s) = (err e, (s, indexed))

  module _ (busy : ℕ → Bool) (clock : ℕ → String) (bag_facts : BagFactsReader) where
    unfoldable pub try_index :
        Entries → String → String → ManifestStore → Result Fault Bool × ManifestStore
    try_index es bag sidecar s = index_caught (index busy clock bag_facts es bag sidecar s)

    unfoldable pub already_indexed_safe :
        String → ManifestStore → Result Fault (Option Bool) × ManifestStore
    already_indexed_safe bag s = seen_caught (already_indexed busy bag s)

    abbrev pub index_unless_seen :
        Entries
        → String
        → BoundedSeen
        → Result Fault (Option Bool) × ManifestStore
        → Result Fault Unit × IngestSession
    index_unless_seen es bag indexed (ok none, s) = (ok tt, (s, indexed))
    index_unless_seen es bag indexed (ok (some true), s) = (ok tt, (s, add indexed bag))
    index_unless_seen es bag indexed (ok (some false), s) =
        note_indexed bag indexed (try_index es bag (sidecar_for bag) s)
    index_unless_seen es bag indexed (err e, s) = (err e, (s, indexed))

    -- one round of the loop
    unfoldable pub drain_bag : Entries → String → IngestSession → Result Fault Unit × IngestSession
    drain_bag es bag (s, indexed) =
        if contains_bag indexed bag || not (is_regular_file (lookup (sidecar_for bag) es))
        then (ok tt, (s, indexed))
        else index_unless_seen es bag indexed (already_indexed_safe bag s)

    abbrev pub and_then :
        Result Fault Unit × IngestSession
        → (IngestSession → Result Fault Unit × IngestSession)
        → Result Fault Unit × IngestSession
    and_then (ok u, s) f = f s
    and_then (err e, s) f = (err e, s)

    unfoldable pub drain_bags :
        Entries → List String → IngestSession → Result Fault Unit × IngestSession
    drain_bags es [] s = (ok tt, s)
    drain_bags es (bag ∷ bags) s = and_then (drain_bag es bag s) (drain_bags es bags)

    unfoldable pub drain_once : Entries → IngestSession → Result Fault Unit × IngestSession
    drain_once es s = drain_bags es (iter_bag_dirs (some es)) s

    -- The loop, by the directory as each poll finds it.
    unfoldable pub watch_loop : List Entries → IngestSession → Result Fault Unit × IngestSession
    watch_loop [] s = (ok tt, s)
    watch_loop (es ∷ polls) s = and_then (drain_once es s) (watch_loop polls)

    -- The rows that `manifest_query.run` shows: of a mission, all, or the newest ones.
    unfoldable pub query_rows :
        Option String → Bool → Option ℤ → ManifestStore → Result Fault (List ManifestRow)
    query_rows (some mission_id) all recent s = query_by_mission busy mission_id s
    query_rows none true recent s = query_recently_recorded busy (pos 10000) s
    query_rows none false (some n) s = query_recently_recorded busy n s
    query_rows none false none s = query_recently_recorded busy (pos 10) s
