-- ===== src/Bags/Ingest/Facts/Payloads.antt =====
-- bag_reader.py: facts come only from metadata whose files are there.
use patrol_drone.Prelude.{
  ℤ, Bool, true, false, not, ◌||◌, String, List, [], ◌∷◌, ◌≡◌, refl, Option, Result, ok, err, arith,
  raise_if, ◌>>=◌, All,
}
use patrol_drone.Float.{Float}
use patrol_drone.Bags.Disk.{
  Fault, value_error, Contents, Node, Entries, lookup, is_file, is_symlink, entries_of, read_text,
}
use patrol_drone.Bags.Layout.{contained_payload_path}
use patrol_drone.Mission.Config.Yaml.{Yaml, Fields}
use patrol_drone.Bags.Ingest.Facts.{
  BagFacts, require_bag_information, require_payload, require_payloads, require_declared_payloads,
  declared_payloads, facts_from_info, read_bag_facts, walk,
}

bind_ok :
    {A B : Type 0} (m : Result Fault A) (f : A → Result Fault B) {b : B}
    → (m >>= f) ≡ ok b
    → (a : A) × (m ≡ ok a) × (f a ≡ ok b)
bind_ok (ok a) f h = (a, refl, h)
bind_ok (err e) f h = cc

raise_if_ok : (b : Bool) (e : Fault) → raise_if b e ≡ ok tt → b ≡ false
raise_if_ok true e h = cc
raise_if_ok false e h = refl

module _ ⦃fl : Float⦄ (int_text : String → Option ℤ) (str_of : Yaml → String)
    (safe_load : Contents → Result Fault Yaml) where
  -- The path stays below the bag, and a plain file is there.
  abbrev pub IsBacked : Option Node → String → Type 0
  IsBacked bag relative =
      (parts : List String) × (contained_payload_path relative ≡ ok parts)
      × (is_symlink (walk bag parts) ≡ false)
      × (is_file (walk bag parts) ≡ true)

  payload-IsBacked :
      (bag : Option Node) (relative : String)
      → require_payload bag relative ≡ ok tt
      → IsBacked bag relative
  unfolding require_payload
  payload-IsBacked bag relative h =
      let (parts, e, k) = bind_ok (contained_payload_path relative) _ h in
      let found = both _ _ (raise_if_ok _ value_error k) in (parts, e, found.0, found.1)
    where
      both : (a b : Bool) → a || not b ≡ false → (a ≡ false) × (b ≡ true)
      both a b h = ground arith

  payloads-IsBacked :
      (bag : Option Node) (paths : List String)
      → require_payloads bag paths ≡ ok tt
      → All (IsBacked bag) paths
  unfolding require_payloads
  payloads-IsBacked bag [] h = tt
  payloads-IsBacked bag (relative ∷ paths) h =
      let (_, e, k) = bind_ok (require_payload bag relative) _ h in
      (payload-IsBacked bag relative e, payloads-IsBacked bag paths k)

  -- The facts are those of the metadata that lies in the bag, and every file that this names is there.
  abbrev pub FromMetadata : Option Node → BagFacts → Type 0
  FromMetadata bag facts =
      (body : Contents) × (info : Fields) × (paths : List String) × (read_text
          (lookup "metadata.yaml" (entries_of bag))
        ≡ ok body)
      × (require_bag_information int_text str_of safe_load body ≡ ok info)
      × (declared_payloads int_text str_of safe_load info ≡ ok paths)
      × All (IsBacked bag) paths
      × (facts_from_info int_text str_of safe_load info ≡ ok facts)

  -- Where a bag has metadata, facts are read only from its own `metadata.yaml`, if that can be read and
  -- parsed, and every file that it names lies below the bag, is there, and is no symbolic link.
  pub read_bag_facts-IsBacked :
      (bag_info : String → Result Fault BagFacts) (es : Entries) (bag : String) (facts : BagFacts)
      → is_file (lookup "metadata.yaml" (entries_of (lookup bag es))) ≡ true
      → read_bag_facts int_text str_of safe_load bag_info es bag ≡ ok facts
      → FromMetadata (lookup bag es) facts
  unfolding read_bag_facts require_declared_payloads
  read_bag_facts-IsBacked bag_info es bag facts there h =
      let h' = rw there at h in
      let (body, e1, h1) =
        bind_ok (read_text (lookup "metadata.yaml" (entries_of (lookup bag es)))) _ h' in
      let (info, e2, h2) = bind_ok (require_bag_information int_text str_of safe_load body) _ h1 in
      let (_, e3, h3) =
        bind_ok (require_declared_payloads int_text str_of safe_load (lookup bag es) info) _ h2 in
      let (paths, e4, h4) = bind_ok (declared_payloads int_text str_of safe_load info) _ e3 in
      (body, info, paths, e1, e2, e4, payloads-IsBacked (lookup bag es) paths h4, h3)
