-- ===== src/Bags/Disk/Lookup.antt =====
-- Bags/Disk: what a lookup finds after a change of the directory.
use text.Mathlib.Text.{◌==◌}
use text.Mathlib.TextEquality.{eq_iff}
use text.Mathlib.TextPositions.{eq_refl}
use text.Mathlib.TextLemmas.{append-nil, append_cancel_left}
use patrol_drone.Prelude.{
  ◌≡◌, ◌≢◌, refl, sym, ◌∙◌, false, String, none, some, arith, if◌then◌else◌, Bool-cases, inl, inr,
}
use patrol_drone.Bags.Text.{◌<>◌}
use patrol_drone.Bags.Disk.{Node, Entries, no_entries, entry, lookup, insert, erase}

pub lookup-insert :
    (j k : String) (v : Node) (es : Entries)
    → lookup j (insert k v es) ≡ (if j == k then some v else lookup j es)
lookup-insert j k v no_entries = refl
lookup-insert j k v (entry n w es) =
    ground (arith, eq_iff j k, eq_iff k n, eq_iff j n, lookup-insert j k v es)

pub lookup-erase :
    (j k : String) (es : Entries) → lookup j (erase k es) ≡ (if j == k then none else lookup j es)
lookup-erase j k no_entries = ground arith
lookup-erase j k (entry n w es) =
    ground (arith, eq_iff j k, eq_iff k n, eq_iff j n, lookup-erase j k es)

pub ==-ne : (s t : String) → s ≢ t → (s == t) ≡ false
==-ne s t h = elim (Bool-cases (s == t)) [ inl e ↦ absurd (h ((eq_iff s t).0 e)) | inr e ↦ e ]

pub lookup-insert_self : (k : String) (v : Node) (es : Entries) → lookup k (insert k v es) ≡ some v
lookup-insert_self k v es = rw (lookup-insert, eq_refl) refl

pub lookup-insert_other :
    (j k : String) (v : Node) (es : Entries) → j ≢ k → lookup j (insert k v es) ≡ lookup j es
lookup-insert_other j k v es h = rw (lookup-insert, ==-ne j k h) refl

pub lookup-erase_other : (j k : String) (es : Entries) → j ≢ k → lookup j (erase k es) ≡ lookup j es
lookup-erase_other j k es h = rw (lookup-erase, ==-ne j k h) refl

pub lookup-erase_self : (k : String) (es : Entries) → lookup k (erase k es) ≡ none
lookup-erase_self k es = rw (lookup-erase, eq_refl) refl

-- A name with a suffix is another name.
pub ne-append : (s t : String) → t ≢ "" → s ≢ s <> t
ne-append s t h e = h (append_cancel_left s t "" (sym e ∙ sym (append-nil s)))

pub append-ne_append : (s t u : String) → t ≢ u → s <> t ≢ s <> u
append-ne_append s t u h e = h (append_cancel_left s t u e)
