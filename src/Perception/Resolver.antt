-- ===== src/Perception/Resolver.antt =====
-- checkpoint_resolver.py: from the tag that was detected to the checkpoint of the configuration.
use Prim.Native.String.{len, slice}
use text.Mathlib.Text.{◌==◌, starts_with}
use patrol_drone.Prelude.{
  not, ◌∷◌, ◌>>◌, ◌>>=◌, String, Option, Bool, if◌then◌else◌, List, Result, ℤ, [], none, some,
  or_raise, eq_ℤ, raise_if, ok,
}
use patrol_drone.Float.{Float}
use patrol_drone.Mission.Frames.{Point}

pub data ResolverError : Type 0 where
  unmapped_tag family_mismatch : ResolverError

abbrev pub normalize_family : String → String
normalize_family family = if starts_with family "tag" then slice family 3 (len family) else family

abbrev pub families_match : String → String → Bool
families_match detected configured = normalize_family detected == normalize_family configured

module _ ⦃fl : Float⦄ where
  open fl use {F}

  pub record CheckpointEntry : Type 0 where
    pub checkpoint_id : String
    pub tag_id : ℤ
    pub tag_family : String
    pub position : Point

  -- the dict {tag_id: entry}, as its items
  abbrev pub Entries : Type 0
  Entries = List (ℤ × CheckpointEntry)

  abbrev pub entry_of : Entries → ℤ → Option CheckpointEntry
  entry_of [] tag = none
  entry_of ((t, e) ∷ es) tag = if eq_ℤ tag t then some e else entry_of es tag

  pub record Detection : Type 0 where
    pub id : ℤ
    pub family : String
    pub decision_margin : Option F
    pub hamming : Option ℤ

  -- a value of the metadata, by what `str` shows
  pub data Shown : Type 0 where
    verbatim : String → Shown
    shown_int : ℤ → Shown
    shown_float : F → Shown

  abbrev pub Metadata : Type 0
  Metadata = List (String × Shown)

  -- `{**metadata, key: value}`
  abbrev pub put : Metadata → String → Shown → Metadata
  put [] key v = (key, v) ∷ []
  put ((k, x) ∷ ms) key v = if key == k then (k, v) ∷ ms else (k, x) ∷ put ms key v

  abbrev with_confidence : Metadata → Option F → Metadata
  with_confidence ms none = ms
  with_confidence ms (some c) = put ms "detection_confidence" (shown_float c)

  abbrev with_hamming : Metadata → Option ℤ → Metadata
  with_hamming ms none = ms
  with_hamming ms (some h) = put ms "tag_hamming" (shown_int h)

  abbrev pub detection_metadata : Detection → Metadata
  detection_metadata d =
      with_hamming (with_confidence (("tag_id", shown_int d.id) ∷ []) d.decision_margin) d.hamming

  unfoldable pub resolve : Entries → Detection → Result ResolverError (String × Metadata)
  resolve entries d = do
    entry ← or_raise (entry_of entries d.id) unmapped_tag
    raise_if (not (families_match d.family entry.tag_family)) family_mismatch
    ok (entry.checkpoint_id, detection_metadata d)
