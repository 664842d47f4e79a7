-- ===== src/Bags/Ingest/Facts/Faults.antt =====
-- bag_reader.py: what reading the facts may raise.
use patrol_drone.Prelude.{
  ℤ, Bool, true, false, ◌||◌, String, List, [], ◌∷◌, ◌≡◌, refl, ◌⊎◌, inl, inr, Option, none, some,
  Result, ok, err, if_cases, raise_if, or_raise, ◌>>=◌,
}
use patrol_drone.Float.{Float}
use patrol_drone.Bags.Disk.{Fault, value_error, type_error, overflow_error, Contents}
use patrol_drone.Mission.Config.Yaml.{
  Yaml, null, boolean, integer, real, str, sequence, mapping, other, no_items, Fields, no_fields,
  get,
}
use patrol_drone.Bags.Ingest.Watch.{is_ingest_fault}
use patrol_drone.Bags.Ingest.Facts.{
  require_mapping, get_or, is_none, int_of_real, to_int, the, metadata_duration_ns,
  topic_count_entry, put_count, topic_counts_from, as_list_of, no_counts, metadata_topic_counts,
  facts_from_info,
}

-- It returns, or raises ValueError, TypeError or OverflowError.
abbrev pub Plain : {A : Type 0} → Result Fault A → Type 0
Plain (ok a) = Unit
Plain (err e) = (e ≡ value_error) ⊎ ((e ≡ type_error) ⊎ (e ≡ overflow_error))

Plain-bind :
    {A B : Type 0} (m : Result Fault A) (f : A → Result Fault B)
    → Plain m
    → ((a : A) → Plain (f a))
    → Plain (m >>= f)
Plain-bind (ok a) f h k = k a
Plain-bind (err e) f h k = h

raise_if-Plain : (b : Bool) → Plain (raise_if b value_error)
raise_if-Plain true = inl refl
raise_if-Plain false = tt

or_raise-Plain : {A : Type 0} (o : Option A) → Plain (or_raise o value_error)
or_raise-Plain none = inl refl
or_raise-Plain (some a) = tt

overflow-Plain : {A : Type 0} (o : Option A) → Plain (or_raise o overflow_error)
overflow-Plain none = inr (inr refl)
overflow-Plain (some a) = tt

module _ ⦃fl : Float⦄ where
  open fl use {F, le, truncate, of_int}

  mapping-Plain : (v : Yaml) → Plain (require_mapping v)
  unfolding require_mapping
  mapping-Plain null = inl refl
  mapping-Plain (boolean b) = inl refl
  mapping-Plain (integer n) = inl refl
  mapping-Plain (real x) = inl refl
  mapping-Plain (str s) = inl refl
  mapping-Plain (sequence is) = inl refl
  mapping-Plain (mapping fs) = tt
  mapping-Plain other = inl refl

  real-Plain : (x : F) (o : Option ℤ) → Plain (int_of_real x o)
  real-Plain x (some n) = tt
  real-Plain x none =
      if_cases (λ (r : Result Fault ℤ). Plain r) (le x x) _ _ (λ _. inr (inr refl)) (λ _. inl refl)

  module _ (int_text : String → Option ℤ) (str_of : Yaml → String)
      (safe_load : Contents → Result Fault Yaml) where
    to_int-Plain : (v : Yaml) → Plain (to_int int_text str_of safe_load v)
    unfolding to_int
    to_int-Plain null = inr (inl refl)
    to_int-Plain (boolean b) = tt
    to_int-Plain (integer n) = tt
    to_int-Plain (real x) = real-Plain x (truncate x)
    to_int-Plain (str s) = or_raise-Plain (int_text s)
    to_int-Plain (sequence is) = inr (inl refl)
    to_int-Plain (mapping fs) = inr (inl refl)
    to_int-Plain other = inr (inl refl)

    list-Plain : (v : Yaml) → Plain (as_list_of v)
    list-Plain (sequence is) = tt
    list-Plain null = inl refl
    list-Plain (boolean b) = inl refl
    list-Plain (integer n) = inl refl
    list-Plain (real x) = inl refl
    list-Plain (str s) = inl refl
    list-Plain (mapping fs) = inl refl
    list-Plain other = inl refl

    duration-Plain : (info : Fields) → Plain (metadata_duration_ns int_text str_of safe_load info)
    unfolding metadata_duration_ns
    duration-Plain info =
        Plain-bind (require_mapping (get_or (mapping no_fields) "duration" info)) _
          (mapping-Plain (get_or (mapping no_fields) "duration" info))
          λ duration.
            Plain-bind (raise_if (is_none (get "nanoseconds" duration)) value_error) _
              (raise_if-Plain (is_none (get "nanoseconds" duration)))
              λ _. to_int-Plain (the (get "nanoseconds" duration))

    entry-Plain : (v : Yaml) → Plain (topic_count_entry int_text str_of safe_load v)
    unfolding topic_count_entry
    entry-Plain v = Plain-bind (require_mapping v) _ (mapping-Plain v) λ m.
        Plain-bind (require_mapping (get_or (mapping no_fields) "topic_metadata" m)) _
          (mapping-Plain (get_or (mapping no_fields) "topic_metadata" m))
          λ metadata.
            Plain-bind
              (raise_if (is_none (get "name" metadata) || is_none (get "message_count" m))
                value_error)
              _ (raise_if-Plain (is_none (get "name" metadata) || is_none (get "message_count" m)))
              λ _.
                Plain-bind (to_int int_text str_of safe_load (the (get "message_count" m))) _
                  (to_int-Plain (the (get "message_count" m))) λ _. tt

    entries-Plain :
        (vs : List Yaml) (counts : List (String × ℤ))
        → Plain (topic_counts_from int_text str_of safe_load vs counts)
    unfolding topic_counts_from
    entries-Plain [] counts = tt
    entries-Plain (v ∷ vs) counts =
        Plain-bind (topic_count_entry int_text str_of safe_load v) _ (entry-Plain v)
          λ pair. entries-Plain vs (put_count pair counts)

    counts-Plain : (info : Fields) → Plain (metadata_topic_counts int_text str_of safe_load info)
    unfolding metadata_topic_counts
    counts-Plain info =
        Plain-bind (as_list_of (get_or (sequence no_items) "topics_with_message_count" info)) _
          (list-Plain (get_or (sequence no_items) "topics_with_message_count" info))
          λ entries.
            Plain-bind (topic_counts_from int_text str_of safe_load entries []) _
              (entries-Plain entries [])
              λ counts.
                Plain-bind (raise_if (no_counts counts) value_error) _
                  (raise_if-Plain (no_counts counts)) λ _. tt

    -- Whatever mapping the metadata holds, deriving the facts returns or raises ValueError, TypeError or
    -- OverflowError.
    pub facts_from_info-Plain :
        (info : Fields) → Plain (facts_from_info int_text str_of safe_load info)
    unfolding facts_from_info
    facts_from_info-Plain info =
        Plain-bind (metadata_duration_ns int_text str_of safe_load info) _ (duration-Plain info)
          λ n.
            Plain-bind (metadata_topic_counts int_text str_of safe_load info) _ (counts-Plain info)
              λ _.
                Plain-bind (or_raise (of_int n) overflow_error) _ (overflow-Plain (of_int n))
                  λ _. tt

    -- A duration that is an infinite float, or another one that `int` refuses though it is a number,
    -- raises OverflowError, which the watch loop does not catch.
    pub facts_from_info-Overflow :
        (info duration : Fields) (x : F)
        → get "duration" info ≡ some (mapping duration)
        → get "nanoseconds" duration ≡ some (real x)
        → truncate x ≡ none
        → le x x ≡ true
        → (facts_from_info int_text str_of safe_load info ≡ err overflow_error)
          × (is_ingest_fault overflow_error ≡ false)
    unfolding facts_from_info metadata_duration_ns require_mapping to_int is_ingest_fault
    facts_from_info-Overflow info duration x h k t l = (rw (h, k, t, l) refl, refl)
