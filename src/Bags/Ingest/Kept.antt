-- ===== src/Bags/Ingest/Kept.antt =====
-- docker/ingest/__main__.py: a bag that is indexed keeps its row.
use patrol_drone.Prelude.{
  ℕ, Bool, true, false, not, ◌||◌, String, List, [], ◌∷◌, ◌≡◌, ◌≢◌, refl, ◌∙◌, some, Result, ok,
  err, if_cases,
}
use patrol_drone.Float.{Float}
use patrol_drone.Shared.BoundedSeen.{BoundedSeen, contains_bag}
use patrol_drone.Bags.Disk.{Fault, Entries, lookup}
use patrol_drone.Bags.Layout.{is_regular_file}
use patrol_drone.Bags.Ingest.{
  ManifestRow, ManifestStore, BagFactsReader, contains_row, index, already_indexed, has_row,
  accessed,
}
use patrol_drone.Bags.Ingest.Manifest.{find, has_row-find}
use patrol_drone.Bags.Ingest.Index.{Indexed, index-Indexed}
use patrol_drone.Bags.Ingest.Watch.{
  is_ingest_fault, sidecar_for, IngestSession, index_caught, seen_caught, note_indexed, try_index,
  already_indexed_safe, index_unless_seen, drain_bag, and_then, drain_bags, drain_once,
  iter_bag_dirs, watch_loop,
}

module _ ⦃fl : Float⦄ where
  module _ (busy : ℕ → Bool) (clock : ℕ → String) (bag_facts : BagFactsReader) where
    -- The bag has this row.
    abbrev pub Keeps : String → ManifestRow → ManifestStore → Type 0
    Keeps bag row s = find bag s.rows ≡ some row

    Indexed-Keeps :
        (es : Entries) (now b sidecar_path bag : String) (row : ManifestRow) (s : ManifestStore)
        (r : Result Fault Unit × ManifestStore)
        → Indexed bag_facts es now b sidecar_path s r
        → bag ≢ b
        → Keeps bag row s
        → Keeps bag row r.1
    Indexed-Keeps es now b sidecar_path bag row s (ok u, s') (_, others) ne h = others bag ne ∙ h
    Indexed-Keeps es now b sidecar_path bag row s (err e, s') same ne h = rw same h

    caught-Keeps :
        (bag : String) (row : ManifestRow) (r : Result Fault Unit × ManifestStore)
        → Keeps bag row r.1
        → Keeps bag row (index_caught r).1
    caught-Keeps bag row (ok u, s) h = h
    caught-Keeps bag row (err e, s) h =
        if_cases (λ (r : Result Fault Bool × ManifestStore). Keeps bag row r.1) (is_ingest_fault e)
          _ _ (λ _. h) (λ _. h)

    note-Keeps :
        (b bag : String) (row : ManifestRow) (indexed : BoundedSeen)
        (r : Result Fault Bool × ManifestStore)
        → Keeps bag row r.1
        → Keeps bag row (note_indexed b indexed r).1.0
    note-Keeps b bag row indexed (ok true, s) h = h
    note-Keeps b bag row indexed (ok false, s) h = h
    note-Keeps b bag row indexed (err e, s) h = h

    new_row :
        (b bag : String) (row : ManifestRow) (rows : List ManifestRow)
        → has_row b rows ≡ false
        → find bag rows ≡ some row
        → bag ≢ b
    new_row b bag row rows new h e = cc (new, has_row-find b rows, h, e)

    answer-Keeps :
        (es : Entries) (b bag : String) (row : ManifestRow) (indexed : BoundedSeen)
        (s : ManifestStore) (q : Bool)
        → has_row b s.rows ≡ q
        → Keeps bag row s
        → Keeps bag row (index_unless_seen busy clock bag_facts es b indexed (ok (some q), s)).1.0
    unfolding try_index
    answer-Keeps es b bag row indexed s true e h = h
    answer-Keeps es b bag row indexed s false e h =
        note-Keeps b bag row indexed
          (index_caught (index busy clock bag_facts es b (sidecar_for b) s))
          (caught-Keeps bag row (index busy clock bag_facts es b (sidecar_for b) s) (
            Indexed-Keeps es (clock s.accesses) b (sidecar_for b) bag row s
              (index busy clock bag_facts es b (sidecar_for b) s)
              (index-Indexed busy clock bag_facts es b (sidecar_for b) s)
              (new_row b bag row s.rows e h) h))

    asked-Keeps :
        (es : Entries) (b bag : String) (row : ManifestRow) (indexed : BoundedSeen)
        (s : ManifestStore)
        → Keeps bag row s
        → Keeps bag row
            (index_unless_seen busy clock bag_facts es b indexed
              (already_indexed_safe busy clock bag_facts b s)).1.0
    unfolding already_indexed_safe already_indexed contains_row is_ingest_fault
    asked-Keeps es b bag row indexed s h =
        if_cases
          (λ (r : Result Fault Bool).
            Keeps bag row
              (index_unless_seen busy clock bag_facts es b indexed
                (seen_caught (r, accessed s))).1.0)
          (busy s.accesses) _ _ (λ _. h)
          (λ _. answer-Keeps es b bag row indexed (accessed s) (has_row b s.rows) refl h)

    drain_bag-Keeps :
        (es : Entries) (b bag : String) (row : ManifestRow) (s : IngestSession)
        → Keeps bag row s.0
        → Keeps bag row (drain_bag busy clock bag_facts es b s).1.0
    unfolding drain_bag
    drain_bag-Keeps es b bag row (s, indexed) h =
        if_cases (λ (r : Result Fault Unit × IngestSession). Keeps bag row r.1.0)
          (contains_bag indexed b || not (is_regular_file (lookup (sidecar_for b) es))) _ _ (λ _. h)
          (λ _. asked-Keeps es b bag row indexed s h)

    and_then-Keeps :
        (bag : String) (row : ManifestRow) (r : Result Fault Unit × IngestSession)
        (f : IngestSession → Result Fault Unit × IngestSession)
        → Keeps bag row r.1.0
        → ((s : IngestSession) → Keeps bag row s.0 → Keeps bag row (f s).1.0)
        → Keeps bag row (and_then busy clock bag_facts r f).1.0
    and_then-Keeps bag row (ok u, s) f h k = k s h
    and_then-Keeps bag row (err e, s) f h k = h

    drain_bags-Keeps :
        (es : Entries) (bags : List String) (bag : String) (row : ManifestRow) (s : IngestSession)
        → Keeps bag row s.0
        → Keeps bag row (drain_bags busy clock bag_facts es bags s).1.0
    unfolding drain_bags
    drain_bags-Keeps es [] bag row s h = h
    drain_bags-Keeps es (b ∷ bags) bag row s h =
        and_then-Keeps bag row (drain_bag busy clock bag_facts es b s)
          (drain_bags busy clock bag_facts es bags) (drain_bag-Keeps es b bag row s h)
          λ s' h'. drain_bags-Keeps es bags bag row s' h'

    -- A bag that has a row keeps that row through the loop, whatever each poll finds in the directory,
    -- and whether or not the set of indexed bags has forgotten it.
    pub watch_loop-Keeps :
        (polls : List Entries) (bag : String) (row : ManifestRow) (s : IngestSession)
        → Keeps bag row s.0
        → Keeps bag row (watch_loop busy clock bag_facts polls s).1.0
    unfolding watch_loop drain_once
    watch_loop-Keeps [] bag row s h = h
    watch_loop-Keeps (es ∷ polls) bag row s h =
        and_then-Keeps bag row (drain_once busy clock bag_facts es s)
          (watch_loop busy clock bag_facts polls)
          (drain_bags-Keeps es (iter_bag_dirs (some es)) bag row s h)
          λ s' h'. watch_loop-Keeps polls bag row s' h'
