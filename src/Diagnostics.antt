-- ===== src/Diagnostics.antt =====
-- The diagnostic records of a handle: src/diagnostics.c and src/diagnostics.h.
-- `records` holds the slots below `record_count`, which is therefore its length; a slot at or above
-- the count is never read. A NULL handle is `none`.
pub mod Laws
mod Tests
use psqlodbc_new.Prelude.{
  ℕ, zero, suc, ◌-◌, Bool, true, false, not, Option, none, some, List, [], ◌∷◌, ◌++◌, leb,
  if◌then◌else◌, length, get_elem?, take, Bytes, codes, c_str,
}
use psqlodbc_new.Prelude.Int.{ℤ, pos, negsuc}
use psqlodbc_new.StringUtils.{pg_strdup}

abbrev pub max_diagnostic_records : ℕ
max_diagnostic_records = 16

abbrev pub sqlstate_length : ℕ
sqlstate_length = 5

pub record DiagnosticRecord : Type 0 where
  pub sqlstate : Bytes
  pub native_error_code : ℤ
  pub message_text : Option Bytes

pub record DiagnosticRecords : Type 0 where
  pub records : List DiagnosticRecord
  pub paging_chunk_size : ℤ

abbrev pub record_count : DiagnosticRecords → ℕ
record_count d = length d.records

-- A handle's memory after `memset` to zero.
abbrev pub empty_diagnostics : DiagnosticRecords
empty_diagnostics = record { records = []; paging_chunk_size = pos 0 }

unfoldable pub diagnostics_clear : DiagnosticRecords → DiagnosticRecords
diagnostics_clear d = record d { records = []; paging_chunk_size = pos 0 }

-- `strncpy` of five bytes with a terminator, or the default where the caller gives NULL.
unfoldable pub copy_sqlstate : Option Bytes → Bytes
copy_sqlstate none = codes "00000"
copy_sqlstate (some sqlstate) = take sqlstate_length (c_str sqlstate)

abbrev pub copy_message : Bool → Option Bytes → Option Bytes
copy_message allocated none = none
copy_message allocated (some message) = pg_strdup allocated (c_str message)

-- The slot that a call fills in.
abbrev pub filled : Bool → Option Bytes → ℤ → Option Bytes → DiagnosticRecord
filled allocated sqlstate native_error_code message = record {
  sqlstate = copy_sqlstate sqlstate;
  native_error_code = native_error_code;
  message_text = copy_message allocated message;
}

-- `allocated` is whether the copy of the message gets its memory. The test for a NULL handle is not in
-- the model: the diagnostics are always part of a handle.
unfoldable pub diagnostics_add_record :
    Bool → DiagnosticRecords → Option Bytes → ℤ → Option Bytes → DiagnosticRecords × Bool
unfolding copy_sqlstate pg_strdup
diagnostics_add_record allocated d sqlstate native_error_code message =
    if leb max_diagnostic_records (record_count d) then (d, false) else (
      record d { records = d.records ++ filled allocated sqlstate native_error_code message ∷ [] },
      true,
    )

-- `record_number - 1` as an index, where it is not negative.
abbrev index_of : ℤ → Option ℕ
index_of (pos zero) = none
index_of (pos (suc n)) = some n
index_of (negsuc n) = none

get_at : DiagnosticRecords → Option ℕ → Option DiagnosticRecord
get_at d none = none
get_at d (some index) = get_elem? d.records index

-- `none` is the result `false`; the record holds what is written through the output pointers.
unfoldable pub diagnostics_get_record : DiagnosticRecords → ℤ → Option DiagnosticRecord
unfolding get_at
diagnostics_get_record d record_number = get_at d (index_of record_number)
