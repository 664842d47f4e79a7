-- ===== src/Perception/CheckpointConfig/Maps.antt =====
-- checkpoint_config.py: what a loaded table promises the resolver.
use patrol_drone.Prelude.{
  ◌++◌, ◌∷◌, ◌>>=◌, arith, List, String, Bool, true, not, Result, Ensures, Permits, ◌≡◌, ok, some,
  none, Permits-at, Ensures-ok, [], All, Option, Option-cases, inl, inr, Permits-step, Permits-map,
  Permits-after, ℤ, raise_if, or_raise,
}
use patrol_drone.Float.{Float}
use patrol_drone.Perception.CheckpointConfig.{
  ReadFault, complain_if, unsafe_id, duplicate_tag, is_safe_id, require_safe_id, require_str,
  require_int, require_mapping, parse_position, parse_row, has_tag, collect, checkpoint_rows, read,
  load,
}
use patrol_drone.Perception.Resolver.{
  CheckpointEntry, Entries, entry_of, Detection, Metadata, resolve, unmapped_tag, family_mismatch,
  families_match,
}
use patrol_drone.Mission.Config.Yaml.{Yaml, Fields}

module _ ⦃fl : Float⦄ where
  -- the row is well formed, and its tag is mapped to its own entry
  abbrev pub Maps : Entries → Yaml → Type 0
  Maps es row = Ensures (λ e. entry_of es e.tag_id ≡ some e) (parse_row row)

  abbrev Extends : Entries → Entries → Type 0
  Extends es fs =
      (tag : ℤ) (e : CheckpointEntry) → entry_of es tag ≡ some e → entry_of fs tag ≡ some e

  append-Extends : (es fs : Entries) → Extends es (es ++ fs)
  append-Extends [] fs tag e h = cc
  append-Extends ((k, x) ∷ es) fs tag e h = ground (arith, append-Extends es fs tag e)

  entry_of-append :
      (es : Entries) (tag : ℤ) (e : CheckpointEntry)
      → entry_of es tag ≡ none
      → entry_of (es ++ (tag, e) ∷ []) tag ≡ some e
  entry_of-append [] tag e h = ground arith
  entry_of-append ((k, x) ∷ es) tag e h = ground (arith, h, entry_of-append es tag e)

  -- every checkpoint id of the table is one that `_SAFE_ID` matches
  abbrev AreSafe : Entries → Type 0
  AreSafe es = All (λ (p : ℤ × CheckpointEntry). is_safe_id p.1.checkpoint_id ≡ true) es

  append-AreSafe :
      (es : Entries) (tag : ℤ) (e : CheckpointEntry)
      → AreSafe es
      → is_safe_id e.checkpoint_id ≡ true
      → AreSafe (es ++ (tag, e) ∷ [])
  append-AreSafe [] tag e h k = (k, tt)
  append-AreSafe (x ∷ es) tag e h k = (h.0, append-AreSafe es tag e h.1 k)

  require_safe_id-IsSafe :
      (row : Fields) (key : String) → Permits (λ id. is_safe_id id ≡ true) (require_safe_id row key)
  unfolding require_safe_id
  require_safe_id-IsSafe row key =
      let Q = λ (id : String). is_safe_id id ≡ true in
      Permits-after Q (require_str row key) _ λ id.
        Permits-step Q (complain_if (not (is_safe_id id)) unsafe_id) _
          λ _ safe. ground (arith, safe)

  parse_row-IsSafe : (row : Yaml) → Permits (λ e. is_safe_id e.checkpoint_id ≡ true) (parse_row row)
  unfolding parse_row
  parse_row-IsSafe row =
      let Q = λ (e : CheckpointEntry). is_safe_id e.checkpoint_id ≡ true in
      Permits-after Q (require_mapping row) _ λ fs.
        Permits-step Q (require_safe_id fs "checkpoint_id") _ λ id safe.
          Permits-after Q (require_int fs "tag_id") _ λ tag.
            Permits-after Q (require_str fs "tag_family") _ λ family.
              Permits-after Q (parse_position fs) _ λ position.
                Permits-at (λ id. is_safe_id id ≡ true) (require_safe_id fs "checkpoint_id") safe
                  (require_safe_id-IsSafe fs "checkpoint_id")

  absent :
      (es : Entries) (tag : ℤ)
      → complain_if (has_tag es tag) duplicate_tag ≡ ok tt
      → entry_of es tag ≡ none
  absent es tag h = elim (Option-cases (entry_of es tag)) [
    | inl e ↦ e
    | inr (x, e) ↦ ground (arith, h, e)
  ]

  abbrev Table : Entries → List Yaml → Entries → Type 0
  Table es rows fs = AreSafe fs × Extends es fs × All (Maps fs) rows

  collect-Table :
      (es : Entries) (rows : List Yaml) → AreSafe es → Permits (Table es rows) (collect es rows)
  unfolding collect
  collect-Table es [] safe = (safe, (λ tag e h. h), tt)
  collect-Table es (row ∷ rows) safe =
      let Q = Table es (row ∷ rows) in
      Permits-step Q (parse_row row) _ λ e parsed.
        Permits-step Q (complain_if (has_tag es e.tag_id) duplicate_tag) _ λ _ new.
          let next = es ++ (e.tag_id, e) ∷ [] in
          Permits-map (Table next rows) Q (collect next rows)
            (λ fs (ids, more, found). (
              ids,
              (λ t x h. more t x (append-Extends es ((e.tag_id, e) ∷ []) t x h)),
              (
                rw parsed
                    (more e.tag_id e (entry_of-append es e.tag_id e (absent es e.tag_id new))),
                found,
              ),
            ))
            (collect-Table next rows (
              append-AreSafe es e.tag_id e safe (
                Permits-at (λ x. is_safe_id x.checkpoint_id ≡ true) (parse_row row) parsed
                  (parse_row-IsSafe row))))

  entry_of-IsSafe :
      (es : Entries) (tag : ℤ) (e : CheckpointEntry)
      → AreSafe es
      → entry_of es tag ≡ some e
      → is_safe_id e.checkpoint_id ≡ true
  entry_of-IsSafe [] tag e safe h = cc
  entry_of-IsSafe ((k, x) ∷ es) tag e safe h =
      grind (arith, h, safe.0, entry_of-IsSafe es tag e safe.1)

  resolve-IsSafe :
      (es : Entries) (d : Detection)
      → AreSafe es
      → Permits (λ r. is_safe_id r.0 ≡ true) (resolve es d)
  unfolding resolve
  resolve-IsSafe es d safe =
      let Q = λ (r : String × Metadata). is_safe_id r.0 ≡ true in
      Permits-step Q (or_raise (entry_of es d.id) unmapped_tag) _ λ e found.
        Permits-after Q (raise_if (not (families_match d.family e.tag_family)) family_mismatch) _
          λ _. entry_of-IsSafe es d.id e safe (raised (entry_of es d.id) e found)
    where
      raised :
          (o : Option CheckpointEntry) (e : CheckpointEntry)
          → or_raise o unmapped_tag ≡ ok e
          → o ≡ some e
      raised none e h = cc
      raised (some x) e h = cc

  module _ (is_file : String → Bool) (read_yaml : String → Result ReadFault Yaml) where
    two_steps :
        (path : String) (es : Entries)
        → load is_file read_yaml path ≡ ok es
        → Ensures
            (λ rows. collect [] rows ≡ ok es)
            (read is_file read_yaml path >>= checkpoint_rows)
    unfolding load
    two_steps path es h = ground (arith, h)

    -- Where the file of the checkpoints is loaded, every row of it is well formed and its tag is mapped
    -- to its own entry, so no row hides another; and whatever tag is in view, a checkpoint id that the
    -- resolver gives is one that `_SAFE_ID` matches.
    pub load-Maps :
        (path : String) (es : Entries) (d : Detection)
        → load is_file read_yaml path ≡ ok es
        → Ensures (All (Maps es)) (read is_file read_yaml path >>= checkpoint_rows)
          × Permits (λ r. is_safe_id r.0 ≡ true) (resolve es d)
    load-Maps path es d h =
        let (rows, read_, table) =
          Ensures-ok (λ rows. collect [] rows ≡ ok es)
            (read is_file read_yaml path >>= checkpoint_rows) (two_steps path es h) in
        let (safe, more, found) =
          Permits-at (Table [] rows) (collect [] rows) table (collect-Table [] rows tt) in
        (rw read_ found, resolve-IsSafe es d safe)
