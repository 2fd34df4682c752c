-- ===== src/Diagnostics/Tests.antt =====
-- The laws of the diagnostic records at concrete arrays.
use psqlodbc_new.Prelude.{
  ℕ, suc, ◌<◌, ◌≡◌, refl, ◌↔◌, Bool, true, false, none, some, [], ◌∷◌, arith, codes,
}
use psqlodbc_new.Prelude.Int.{pos}
use psqlodbc_new.Diagnostics.{
  DiagnosticRecord, DiagnosticRecords, record_count, filled, diagnostics_clear,
  diagnostics_add_record, diagnostics_get_record,
}
use psqlodbc_new.Diagnostics.Laws.{IsValid, add-IsValid, get-add, get-some_iff, clear_lem}

abbrev syntax_error : DiagnosticRecord
syntax_error = record {
  sqlstate = codes "42601";
  native_error_code = pos 8;
  message_text = some (codes "syntax error");
}

abbrev one_record : DiagnosticRecords
one_record = record { records = syntax_error ∷ []; paging_chunk_size = pos 511 }

one_record-IsValid : IsValid one_record
one_record-IsValid = record { bounded = omega arith; sqlstates = (omega arith, tt) }

-- A state that is too long is cut to five bytes, and a failed copy leaves no message.
add_cut :
    diagnostics_get_record
      (diagnostics_add_record false one_record (some (codes "HY0109")) (pos 0) (some (codes "x"))).0
      (pos 2)
    ≡ some (record { sqlstate = codes "HY010"; native_error_code = pos 0; message_text = none })
unfolding diagnostics_get_record diagnostics_add_record
add_cut = refl

add-IsValid_case :
    IsValid (diagnostics_add_record true one_record none (pos 0) (some (codes "lost"))).0
add-IsValid_case = add-IsValid true one_record none (pos 0) (some (codes "lost")) one_record-IsValid

abbrev lost : DiagnosticRecords × Bool
lost = diagnostics_add_record true one_record (some (codes "08S01")) (pos 0) none

get-add_example :
    (lost.1 ≡ true)
    × (diagnostics_get_record lost.0 (pos 2)
        ≡ some (filled true (some (codes "08S01")) (pos 0) none))
    × ((k : ℕ)
        → k < 1
        → diagnostics_get_record lost.0 (pos (suc k))
          ≡ diagnostics_get_record one_record (pos (suc k)))
    × (record_count lost.0 ≡ 2)
get-add_example = get-add true one_record (some (codes "08S01")) (pos 0) none (omega arith)

get-some_iff_case :
    ((r : DiagnosticRecord) × (diagnostics_get_record one_record (pos 1) ≡ some r))
    ↔ ((k : ℕ) × (pos 1 ≡ pos (suc k)) × (k < 1))
get-some_iff_case = get-some_iff one_record (pos 1)

cleared_twice :
    IsValid (diagnostics_clear one_record)
    × (diagnostics_get_record (diagnostics_clear one_record) (pos 1) ≡ none)
    × ((diagnostics_clear one_record).paging_chunk_size ≡ pos 0)
cleared_twice = clear_lem one_record (pos 1)
