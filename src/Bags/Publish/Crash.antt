-- ===== src/Bags/Publish/Crash.antt =====
-- Bags/Publish: a crash, or a process that looks in between, finds the old file or the whole new one.
use Prim.Native.String.{count}
use text.Mathlib.TextEquality.{eq_iff}
use text.Mathlib.TextLemmas.{length-append}
use patrol_drone.Prelude.{
  ◌≡◌, ◌≢◌, ap, refl, sym, ◌∙◌, false, true, String, ◌∷◌, Option, none, some, arith, if_cases,
  Result, ok, err, ◌⊎◌, inl, inr, All,
}
use patrol_drone.Bags.Text.{◌<>◌}
use patrol_drone.Bags.Disk.{
  Fault, file_exists, os_error, Contents, not_json, Node, file, Entries, lookup, insert, erase,
}
use patrol_drone.Bags.Disk.Lookup.{
  lookup-insert, lookup-erase, lookup-insert_other, lookup-insert_self, lookup-erase_other,
  ne-append,
}
use patrol_drone.Bags.Publish.{
  Disk, at, is_there, then_do, write_all, make_link, replace, finally_unlink, is_folder,
  unlink_on_error, unlink, temp_name, publish_bytes_exclusive, atomic_write_text, change,
}

pub dot-ne-nil : (t : String) → "." <> t ≢ ""
dot-ne-nil t e = omega (arith, ap count e, length-append "." t)

pub ne-temp_name : (path token : String) → path ≢ temp_name path token
ne-temp_name path token = ne-append path ("." <> (token <> ".tmp")) (dot-ne-nil (token <> ".tmp"))

-- A file made and removed again leaves what was there.
erase_made :
    (k tmp : String) (v : Node) (es : Entries)
    → lookup tmp es ≡ none
    → lookup k (erase tmp (insert tmp v es)) ≡ lookup k es
erase_made k tmp v es h =
    ground (arith, lookup-erase k tmp (insert tmp v es), lookup-insert k tmp v es, eq_iff k tmp)

erase_written :
    (k tmp : String) (v w : Node) (es : Entries)
    → lookup tmp es ≡ none
    → lookup k (erase tmp (insert tmp w (insert tmp v es))) ≡ lookup k es
erase_written k tmp v w es h = ground (
  arith,
  lookup-erase k tmp (insert tmp w (insert tmp v es)),
  lookup-insert k tmp w (insert tmp v es),
  lookup-insert k tmp v es,
  eq_iff k tmp,
)

not_there : (o : Option Node) → is_there o ≡ false → o ≡ none
not_there none h = refl
not_there (some n) h = cc

module _ (path token : String) (body : Contents) (d : Disk) where
  -- What is at the name is what was there at first, or the whole new file.
  abbrev pub OldOrNew : Entries → Type 0
  OldOrNew es = (lookup path es ≡ at d path) ⊎ (lookup path es ≡ some (file body))

  abbrev pub Placed : Disk → Type 0
  Placed d' = (at d' path ≡ some (file body)) × ((k : String) → k ≢ path → at d' k ≡ at d k)

  abbrev pub Untouched : Disk → Type 0
  Untouched d' = (k : String) → at d' k ≡ at d k

  -- Where a removal fails, the temporary file stays: a name that was free. What is at the name of the
  -- file is the old or the whole new one, and no other name has changed.
  abbrev pub Left : Disk → Type 0
  Left d' =
      (d.stuck ≡ true)
      × ((left : String) × (at d left ≡ none)
          × OldOrNew d'.entries
          × ((k : String) → k ≢ path → k ≢ left → at d' k ≡ at d k))

  abbrev pub Atomic : Result Fault Unit × Disk → Type 0
  Atomic (ok u, d') = All OldOrNew d'.past × Placed d'
  Atomic (err e, d') = All OldOrNew d'.past × (Untouched d' ⊎ Left d')

  -- the same, for whatever was there in earlier states
  abbrev pub Keeping : Result Fault Unit × Disk → Type 0
  Keeping (ok u, d') = (All OldOrNew d.past → All OldOrNew d'.past) × Placed d'
  Keeping (err e, d') = (All OldOrNew d.past → All OldOrNew d'.past) × (Untouched d' ⊎ Left d')

  Keeping-Atomic : (r : Result Fault Unit × Disk) → All OldOrNew d.past → Keeping r → Atomic r
  Keeping-Atomic (ok u, d') past (later, h) = (later past, h)
  Keeping-Atomic (err e, d') past (later, h) = (later past, h)

  abbrev tmp : String
  tmp = temp_name path token

  -- with the empty temporary file, and with the whole one
  abbrev created : Entries
  created = insert tmp (file not_json) d.entries

  abbrev written : Entries
  written = insert tmp (file body) created

  created-OldOrNew : OldOrNew created
  created-OldOrNew =
      inl (lookup-insert_other path tmp (file not_json) d.entries (ne-temp_name path token))

  written-OldOrNew : OldOrNew written
  written-OldOrNew = inl (
      lookup-insert_other path tmp (file body) created (ne-temp_name path token)
      ∙ lookup-insert_other path tmp (file not_json) d.entries (ne-temp_name path token))

  others_kept :
      (k : String)
      → at d tmp ≡ none
      → k ≢ path
      → lookup k (erase tmp (insert path (file body) written)) ≡ at d k
  others_kept k free h = ground (
    arith,
    lookup-erase k tmp (insert path (file body) written),
    lookup-insert k path (file body) written,
    lookup-insert k tmp (file body) created,
    lookup-insert k tmp (file not_json) d.entries,
    eq_iff k tmp,
    eq_iff k path,
  )

  moved :
      (k : String)
      → at d tmp ≡ none
      → k ≢ path
      → lookup k (insert path (file body) (erase tmp written)) ≡ at d k
  moved k free h =
      lookup-insert_other k path (file body) (erase tmp written) h
      ∙ erase_written k tmp (file not_json) (file body) d.entries free

  placed : lookup path (erase tmp (insert path (file body) written)) ≡ some (file body)
  placed =
      lookup-erase_other path tmp (insert path (file body) written) (ne-temp_name path token)
      ∙ lookup-insert_self path (file body) written

  module _ (free : at d tmp ≡ none) where
    past_written : All OldOrNew d.past → All OldOrNew (written ∷ created ∷ d.entries ∷ d.past)
    past_written past = (written-OldOrNew, (created-OldOrNew, (inl refl, past)))

    created_others : (k : String) → k ≢ path → k ≢ tmp → lookup k created ≡ at d k
    created_others k _ h = lookup-insert_other k tmp (file not_json) d.entries h

    written_others : (k : String) → k ≢ path → k ≢ tmp → lookup k written ≡ at d k
    written_others k h h' = lookup-insert_other k tmp (file body) created h' ∙ created_others k h h'

    linked_others :
        (k : String) → k ≢ path → k ≢ tmp → lookup k (insert path (file body) written) ≡ at d k
    linked_others k h h' = lookup-insert_other k path (file body) written h ∙ written_others k h h'

    -- a removal at the end, of which the outcome without a fault is known
    finally-Keeping :
        (r : Result Fault Unit) (d1 : Disk)
        → d1.stuck ≡ d.stuck
        → (All OldOrNew d.past → All OldOrNew d1.past)
        → OldOrNew d1.entries
        → ((k : String) → k ≢ path → k ≢ tmp → at d1 k ≡ at d k)
        → Keeping (r, unlink tmp d1)
        → Keeping (finally_unlink tmp (r, d1))
    finally-Keeping r d1 same past now others h =
        if_cases Keeping d1.stuck _ _ (λ e. (past, inr (sym same ∙ e, (tmp, free, now, others))))
          (λ _. h)

    -- the write fails, or the last step does
    unwritten : (e : Fault) → Keeping (finally_unlink tmp (err e, change created d))
    unwritten e =
        finally-Keeping (err e) (change created d) refl (λ past. (inl refl, past)) created-OldOrNew
          created_others
          (
            (λ past. (created-OldOrNew, (inl refl, past))),
            inl (λ k. erase_made k tmp (file not_json) d.entries free),
          )

    unplaced : (e : Fault) → Keeping (finally_unlink tmp (err e, change written (change created d)))
    unplaced e =
        finally-Keeping (err e) (change written (change created d)) refl
          (λ past. (created-OldOrNew, (inl refl, past))) written-OldOrNew written_others
          (past_written, inl (λ k. erase_written k tmp (file not_json) (file body) d.entries free))

    linked_Keeping :
        Keeping (finally_unlink tmp (make_link tmp path (change written (change created d))))
    linked_Keeping = rw (lookup-insert_self tmp (file body) created) (
        if_cases (λ m. Keeping (finally_unlink tmp m)) (is_there (lookup path written)) _ _
          (λ _. unplaced file_exists)
          (λ _.
            finally-Keeping (ok tt)
              (change (insert path (file body) written) (change written (change created d))) refl
              past_written (inr (lookup-insert_self path (file body) written)) linked_others
              (
                (λ past. (inr (lookup-insert_self path (file body) written), past_written past)),
                (placed, λ k h. others_kept k free h),
              )))

    published_Keeping :
        Keeping (
          finally_unlink tmp (then_do (write_all tmp body (change created d)) (make_link tmp path)))
    published_Keeping =
        if_cases (λ m. Keeping (finally_unlink tmp (then_do m (make_link tmp path)))) d.full _ _
          (λ _. unwritten os_error) (λ _. linked_Keeping)

    replaced_Keeping :
        Keeping (unlink_on_error tmp (replace tmp path (change written (change created d))))
    replaced_Keeping = rw (lookup-insert_self tmp (file body) created) (
        if_cases (λ m. Keeping (unlink_on_error tmp m)) (is_folder (lookup path written)) _ _
          (λ _. unplaced os_error)
          (λ _. (
            past_written,
            (lookup-insert_self path (file body) (erase tmp written), λ k h. moved k free h),
          )))

    rewritten_Keeping :
        Keeping
          (unlink_on_error tmp (then_do (write_all tmp body (change created d)) (replace tmp path)))
    rewritten_Keeping =
        if_cases (λ m. Keeping (unlink_on_error tmp (then_do m (replace tmp path)))) d.full _ _
          (λ _. unwritten os_error) (λ _. replaced_Keeping)

  -- The name is free where the file is put there.
  abbrev pub Exclusive : Result Fault Unit × Disk → Type 0
  Exclusive (ok u, d') = at d path ≡ none
  Exclusive (err e, d') = Unit

  free_before : is_there (lookup path written) ≡ false → at d path ≡ none
  free_before e =
      sym (
        lookup-insert_other path tmp (file body) created (ne-temp_name path token)
        ∙ lookup-insert_other path tmp (file not_json) d.entries (ne-temp_name path token))
      ∙ not_there (lookup path written) e

  finally-Exclusive :
      (r : Result Fault Unit) (d1 : Disk)
      → Exclusive (r, unlink tmp d1)
      → Exclusive (finally_unlink tmp (r, d1))
  finally-Exclusive r d1 h = if_cases Exclusive d1.stuck _ _ (λ _. tt) (λ _. h)

  linked-Exclusive :
      Exclusive (finally_unlink tmp (make_link tmp path (change written (change created d))))
  linked-Exclusive = rw (lookup-insert_self tmp (file body) created) (
      if_cases (λ m. Exclusive (finally_unlink tmp m)) (is_there (lookup path written)) _ _
        (λ _. finally-Exclusive (err file_exists) _ tt)
        (λ e. finally-Exclusive (ok tt) _ (free_before e)))

  created-Exclusive :
      Exclusive
        (finally_unlink tmp (then_do (write_all tmp body (change created d)) (make_link tmp path)))
  created-Exclusive =
      if_cases (λ m. Exclusive (finally_unlink tmp (then_do m (make_link tmp path)))) d.full _ _
        (λ _. finally-Exclusive (err os_error) _ tt) (λ _. linked-Exclusive)

  pub publish_bytes_exclusive-Keeping : Keeping (publish_bytes_exclusive token path body d)
  unfolding publish_bytes_exclusive
  publish_bytes_exclusive-Keeping =
      if_cases
        (λ m. Keeping (
          then_do m
            λ d1. finally_unlink tmp (then_do (write_all tmp body d1) (make_link tmp path))))
        (is_there (at d tmp)) _ _ (λ _. (λ past. past, inl (λ k. refl)))
        (λ e. published_Keeping (not_there (at d tmp) e))

  pub publish_bytes_exclusive-Exclusive : Exclusive (publish_bytes_exclusive token path body d)
  unfolding publish_bytes_exclusive
  publish_bytes_exclusive-Exclusive =
      if_cases
        (λ m. Exclusive (
          then_do m
            λ d1. finally_unlink tmp (then_do (write_all tmp body d1) (make_link tmp path))))
        (is_there (at d tmp)) _ _ (λ _. tt) (λ _. created-Exclusive)

  pub atomic_write_text-Keeping : Keeping (atomic_write_text token path body d)
  unfolding atomic_write_text
  atomic_write_text-Keeping =
      if_cases
        (λ m. Keeping (
          then_do m λ d1. unlink_on_error tmp (then_do (write_all tmp body d1) (replace tmp path))))
        (is_there (at d tmp)) _ _ (λ _. (λ past. past, inl (λ k. refl)))
        (λ e. rewritten_Keeping (not_there (at d tmp) e))

  -- Putting a file at a name, over a directory whose earlier states have there what is there now, or
  -- the file: every state that the directory goes through has at the name what was there, or the whole
  -- file; if it succeeds the file is there, nothing was there before, and no other name has changed. If
  -- it raises, nothing has changed; or a removal failed, and then all that may have changed is that the
  -- whole file is there, and the temporary one, under a name that was free.
  pub publish_bytes_exclusive-Atomic :
      All OldOrNew d.past
      → Atomic (publish_bytes_exclusive token path body d)
        × Exclusive (publish_bytes_exclusive token path body d)
  publish_bytes_exclusive-Atomic past =
      (Keeping-Atomic _ past publish_bytes_exclusive-Keeping, publish_bytes_exclusive-Exclusive)

  -- Replacing a file is the same, but for what was there before.
  pub atomic_write_text-Atomic : All OldOrNew d.past → Atomic (atomic_write_text token path body d)
  atomic_write_text-Atomic past = Keeping-Atomic _ past atomic_write_text-Keeping
