-- ===== src/Bags/Upload/Receipt.antt =====
-- upload_daemon.py: the receipt that a confirmed transfer leaves is found again, by the same bag and
-- the same destination only.
use text.Mathlib.Text.{◌==◌}
use text.Mathlib.TextPositions.{eq_refl}
use text.Mathlib.TextLemmas.{append_cancel_right}
use patrol_drone.Prelude.{
  ◌⊎◌, none, true, String, List, [], ◌∷◌, ◌≡◌, ◌≢◌, refl, none, some, Result, ok, err, arith,
}
use patrol_drone.Bags.Disk.{Fault, file, Entries, lookup, texts}
use patrol_drone.Bags.Layout.{is_regular_file}
use patrol_drone.Bags.Publish.{Disk, at}
use patrol_drone.Bags.Publish.Crash.{
  publish_bytes_exclusive-Keeping, publish_bytes_exclusive-Exclusive, Keeping, Exclusive, Left,
}
use patrol_drone.Bags.Upload.{
  upload_marker_for, receipt_bytes, is_valid_receipt, is_already_uploaded, canonical_target,
  are_texts, covered, write_upload_marker,
}

are_texts-texts : (xs : List String) → are_texts (texts xs) xs ≡ true
are_texts-texts [] = refl
are_texts-texts (x ∷ xs) = ground (arith, eq_refl x, are_texts-texts xs)

is_valid_receipt-receipt_bytes :
    (bag target target' : String)
    → is_valid_receipt (some (file (receipt_bytes bag target))) bag target'
      ≡ ok (canonical_target target == canonical_target target')
unfolding is_valid_receipt receipt_bytes
is_valid_receipt-receipt_bytes bag target target' = ground (arith, are_texts-texts (covered bag))

-- Where the marker of a bag is the receipt for `target`.
pub marked-uploaded :
    (es : Entries) (bag target target' : String)
    → lookup (upload_marker_for bag) es ≡ some (file (receipt_bytes bag target))
    → is_already_uploaded es bag target' ≡ ok (canonical_target target == canonical_target target')
unfolding is_already_uploaded is_regular_file
marked-uploaded es bag target target' h = rw h (is_valid_receipt-receipt_bytes bag target target')

pub same_marker-uploaded :
    (es es' : Entries) (bag target : String)
    → lookup (upload_marker_for bag) es' ≡ lookup (upload_marker_for bag) es
    → is_already_uploaded es' bag target ≡ is_already_uploaded es bag target
unfolding is_already_uploaded
same_marker-uploaded es es' bag target h = rw h refl

pub uploaded-there :
    (es : Entries) (bag target : String)
    → is_already_uploaded es bag target ≡ ok true
    → lookup (upload_marker_for bag) es ≢ none
unfolding is_already_uploaded is_regular_file
uploaded-there es bag target h e = cc (rw e at h)

pub marker-ne : (bag other : String) → other ≢ bag → upload_marker_for other ≢ upload_marker_for bag
marker-ne bag other h e = h (append_cancel_right other bag ".uploaded" e)

-- What writing the receipt of a transfer to `target` comes to.
abbrev pub Receipted : String → String → Disk → Result Fault Unit × Disk → Type 0
Receipted bag target d (ok u, d') =
    (at d (upload_marker_for bag) ≡ none)
    × ((target' : String)
        → is_already_uploaded d'.entries bag target'
          ≡ ok (canonical_target target == canonical_target target'))
    × ((k : String) → k ≢ upload_marker_for bag → at d' k ≡ at d k)
Receipted bag target d (err e, d') =
    ((k : String) → at d' k ≡ at d k)
    ⊎ Left (upload_marker_for bag) "" (receipt_bytes bag target) d d'

receipted :
    (bag target : String) (d : Disk) (r : Result Fault Unit × Disk)
    → Keeping (upload_marker_for bag) "" (receipt_bytes bag target) d r
    → Exclusive (upload_marker_for bag) "" (receipt_bytes bag target) d r
    → Receipted bag target d r
receipted bag target d (ok u, d') (past, (placed, others)) x =
    (x, (λ target'. marked-uploaded d'.entries bag target target' placed), others)
receipted bag target d (err e, d') (past, same) x = same

-- Writing the receipt of a transfer succeeds only where nothing has the name of the marker. Then the
-- bag counts as uploaded to just the destinations that have the canonical form of this one, and no
-- other name has changed. Otherwise nothing has changed, or a removal failed and all that may have
-- changed is that the receipt and its temporary file are there.
pub write_upload_marker-Receipted :
    (secret bag target : String) (d : Disk)
    → Receipted bag target d (write_upload_marker secret bag target d)
unfolding write_upload_marker
write_upload_marker-Receipted secret bag target d =
    let path = upload_marker_for bag in
    let body = receipt_bytes bag target in
    receipted bag target d _ (publish_bytes_exclusive-Keeping path secret body d)
      (publish_bytes_exclusive-Exclusive path secret body d)
