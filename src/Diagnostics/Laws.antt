-- ===== src/Diagnostics/Laws.antt =====
-- What the diagnostic records of src/diagnostics.c keep, and how adding meets retrieving.
use psqlodbc_new.Prelude.{
  ℕ, zero, suc, ◌≤◌, ◌<◌, ◌≡◌, refl, ◌↔◌, inl, inr, Bool, true, false, Option, none, some, List, [],
  ◌∷◌, arith, leb, Bool-cases, length, get_elem?, length-concat, length-take, get_elem?-append_left,
  get_elem?-append_length, All, All-append, Bytes, c_str,
}
use psqlodbc_new.Prelude.Int.{ℤ, pos, negsuc}
use psqlodbc_new.Diagnostics.{
  max_diagnostic_records, sqlstate_length, DiagnosticRecord, DiagnosticRecords, record_count,
  copy_sqlstate, filled, diagnostics_clear, diagnostics_add_record, diagnostics_get_record,
}

-- The array is not overrun, and every SQLSTATE fits its six-byte field.
pub record IsValid (d : DiagnosticRecords) : Type 0 where
  pub bounded : record_count d ≤ max_diagnostic_records
  pub sqlstates : All (λ (r : DiagnosticRecord). length r.sqlstate ≤ sqlstate_length) d.records

pub length-copy_sqlstate : (s : Option Bytes) → length (copy_sqlstate s) ≤ sqlstate_length
unfolding copy_sqlstate
length-copy_sqlstate none = omega arith
length-copy_sqlstate (some s) = omega (arith, length-take 5 (c_str s))

module _ (allocated : Bool) (d : DiagnosticRecords) (sqlstate : Option Bytes) (code : ℤ)
    (message : Option Bytes) where
  abbrev added : DiagnosticRecords × Bool
  added = diagnostics_add_record allocated d sqlstate code message

  abbrev slot : DiagnosticRecord
  slot = filled allocated sqlstate code message

  -- From a well-formed array, adding keeps it well formed, whether or not there is room.
  pub add-IsValid : IsValid d → IsValid added.0
  unfolding diagnostics_add_record
  add-IsValid v = elim (Bool-cases (leb max_diagnostic_records (record_count d))) [
    | inl full ↦ rw full v
    | inr room ↦ rw room (record {
      bounded = ground (arith, length-concat d.records slot);
      sqlstates = All-append _ d.records _ v.sqlstates (length-copy_sqlstate sqlstate, tt);
    })
  ]

  -- With fewer than sixteen records, a call succeeds; the new record is retrieved by the next
  -- one-based number, and each earlier number retrieves what it did before.
  pub get-add :
      record_count d < max_diagnostic_records
      → (added.1 ≡ true)
        × (diagnostics_get_record added.0 (pos (suc (record_count d))) ≡ some slot)
        × ((k : ℕ)
            → k < record_count d
            → diagnostics_get_record added.0 (pos (suc k)) ≡ diagnostics_get_record d (pos (suc k)))
        × (record_count added.0 ≡ suc (record_count d))
  unfolding diagnostics_add_record diagnostics_get_record
  get-add room =
      let test : leb max_diagnostic_records (record_count d) ≡ false = ground arith in
      rw test (
        refl,
        get_elem?-append_length d.records slot,
        λ k h. get_elem?-append_left d.records (slot ∷ []) k h,
        length-concat d.records slot,
      )

  -- A full array refuses the record and is left as it was.
  pub add_full : max_diagnostic_records ≤ record_count d → added ≡ (d, false)
  unfolding diagnostics_add_record
  add_full full = ground arith

-- Retrieval succeeds exactly for the record numbers 1 to `record_count`.
pub get-some_iff :
    (d : DiagnosticRecords) (n : ℤ)
    → ((r : DiagnosticRecord) × (diagnostics_get_record d n ≡ some r))
      ↔ ((k : ℕ) × (n ≡ pos (suc k)) × (k < record_count d))
unfolding diagnostics_get_record
get-some_iff d (pos zero) = (λ (r, e). cc, λ (k, e, h). cc)
get-some_iff d (negsuc n) = (λ (r, e). cc, λ (k, e, h). cc)
get-some_iff d (pos (suc n)) =
    (λ (r, e). (n, refl, inside d.records n r e), λ (k, e, h). found d.records n (ground arith))
  where
    inside :
        (rs : List DiagnosticRecord) (i : ℕ) (r : DiagnosticRecord)
        → get_elem? rs i ≡ some r
        → i < length rs
    inside [] i r e = cc
    inside (x ∷ rs) zero r e = omega arith
    inside (x ∷ rs) (suc i) r e = omega (arith, inside rs i r e)

    found :
        (rs : List DiagnosticRecord) (i : ℕ)
        → i < length rs
        → (r : DiagnosticRecord) × (get_elem? rs i ≡ some r)
    found [] i h = absurd (omega arith)
    found (x ∷ rs) zero h = (x, refl)
    found (x ∷ rs) (suc i) h = found rs i (omega arith)

-- Clearing leaves no record to retrieve, forgets the page size, and is well formed.
pub clear_lem :
    (d : DiagnosticRecords) (n : ℤ)
    → IsValid (diagnostics_clear d)
      × (diagnostics_get_record (diagnostics_clear d) n ≡ none)
      × ((diagnostics_clear d).paging_chunk_size ≡ pos 0)
unfolding diagnostics_clear diagnostics_get_record
clear_lem d (pos zero) = (record { bounded = omega arith; sqlstates = tt }, refl, refl)
clear_lem d (pos (suc n)) = (record { bounded = omega arith; sqlstates = tt }, refl, refl)
clear_lem d (negsuc n) = (record { bounded = omega arith; sqlstates = tt }, refl, refl)
